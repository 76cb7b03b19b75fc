-- ===== src/Auth/Store/History.antt =====
-- internal/auth/store.go, the interface Store: sequences of calls of its methods by any number of
-- requests. Each call has its own wall clock and its own failures of the driver. A call is one step:
-- the transactions lock the rows that they read (FOR UPDATE), other methods are one statement each.
pub mod Frames
pub mod Once
pub mod Acceptance
pub mod Invariants
pub mod SessionRows
pub mod AccountRows
pub mod Links
pub mod Authority
pub mod Authentication
use zenmind_official_server.Base.{ℕ, suc, ◌&&◌, Bool, true, false, List, [], ◌∷◌, if◌then◌else◌}
use zenmind_official_server.Text.{Text}
use zenmind_official_server.Auth.Store.Defs.{
  Db, GoogleIdentity, AuthentikIdentity, LoginLog, OauthRequest, Collation,
}
use zenmind_official_server.Auth.Store.Monad.{M, World, Result, is_ok}
use zenmind_official_server.Auth.Store.Tickets.{save_desktop_sso_ticket, consume_desktop_sso_ticket}
use zenmind_official_server.Auth.Store.Codes.{save_email_code, consume_email_code}
use zenmind_official_server.Auth.Store.Oauth.{save_oauth_request, consume_oauth_request}
use zenmind_official_server.Auth.Store.Sessions.{
  create_session, find_user_by_session, find_session_csrf, find_session_started_at, revoke_session,
}
use zenmind_official_server.Auth.Store.Users.Identity.{upsert_google_user, upsert_email_code_user}
use zenmind_official_server.Auth.Store.Users.Accounts.{
  touch_last_login, record_login, find_local_user_by_email, ensure_admin, upsert_authentik_user,
}

-- A call of a method of the interface, with its arguments.
pub data Op : Type 0 where
  op_ensure_admin : Bool → Text → Text → Op
  op_find_local : Text → Op
  op_find_by_session : Text → ℕ → Op
  op_upsert_google : GoogleIdentity → Op
  op_upsert_authentik : AuthentikIdentity → Op
  op_upsert_email_code : Text → Op
  op_save_code : Text → Text → ℕ → Op
  op_consume_code : Text → Text → ℕ → Op
  op_save_oauth : Text → OauthRequest → Op
  op_consume_oauth : Text → ℕ → Op
  op_create_session : ℕ → Text → Text → ℕ → Text → Text → Op
  op_find_csrf : Text → ℕ → Op
  op_find_started : Text → ℕ → Op
  op_revoke : Text → Op
  op_save_ticket : ℕ → Text → ℕ → Text → Text → Op
  op_consume_ticket : Text → ℕ → Op
  op_touch : ℕ → ℕ → Op
  op_record : LoginLog → Op

-- Whether the call succeeds, and the tables after it.
abbrev pub report : {A : Type 0} → M A → World → Bool × Db
report m w = let (r, w') = m w in (is_ok r, w'.db)

unfoldable pub perform : Collation → Op → World → Bool × Db
perform c (op_ensure_admin reports email hash) w = report (ensure_admin c reports email hash) w
perform c (op_find_local email) w = report (find_local_user_by_email c email) w
perform c (op_find_by_session token now) w = report (find_user_by_session c token now) w
perform c (op_upsert_google identity) w = report (upsert_google_user c identity) w
perform c (op_upsert_authentik identity) w = report (upsert_authentik_user c identity) w
perform c (op_upsert_email_code email) w = report (upsert_email_code_user c email) w
perform c (op_save_code email hash expires) w = report (save_email_code email hash expires) w
perform c (op_consume_code email hash now) w = report (consume_email_code c email hash now) w
perform c (op_save_oauth state request) w = report (save_oauth_request c state request) w
perform c (op_consume_oauth state now) w = report (consume_oauth_request c state now) w
perform c (op_create_session id token csrf expires agent ip) w =
    report (create_session c id token csrf expires agent ip) w
perform c (op_find_csrf token now) w = report (find_session_csrf c token now) w
perform c (op_find_started token now) w = report (find_session_started_at c token now) w
perform c (op_revoke token) w = report (revoke_session c token) w
perform c (op_save_ticket id hash expires ip agent) w =
    report (save_desktop_sso_ticket c id hash expires ip agent) w
perform c (op_consume_ticket hash now) w = report (consume_desktop_sso_ticket c hash now) w
perform c (op_touch id at) w = report (touch_last_login id at) w
perform c (op_record entry) w = report (record_login entry) w

-- A call with what it meets.
pub record Event : Type 0 where
  pub op : Op
  pub faults : List Bool
  pub clock : ℕ

abbrev pub world_at : Db → Event → World
world_at db e = record { db = db; faults = e.faults; clock = e.clock }

-- The results of the calls, in order.
unfoldable pub run : Collation → Db → List Event → List Bool
unfolding perform
run c db [] = []
run c db (e ∷ es) = let (good, next) = perform c e.op (world_at db e) in good ∷ run c next es

-- The tables after the calls.
unfoldable pub final : Collation → Db → List Event → Db
unfolding perform
final c db [] = db
final c db (e ∷ es) = final c (perform c e.op (world_at db e)).1 es

-- How many of the calls that `counts` picks have succeeded.
abbrev pub successes : (Op → Bool) → List Event → List Bool → ℕ
successes counts [] rs = 0
successes counts (e ∷ es) [] = 0
successes counts (e ∷ es) (r ∷ rs) =
    if counts e.op && r then suc (successes counts es rs) else successes counts es rs
