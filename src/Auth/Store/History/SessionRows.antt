-- ===== src/Auth/Store/History/SessionRows.antt =====
-- What every session in the table satisfies, after any sequence of calls.
use zenmind_official_server.Base.{ℕ, List, [], ◌∷◌, ◌++◌, arith, All, All-append}
use zenmind_official_server.Text.{Text}
use zenmind_official_server.Auth.Store.Defs.{Db, SessionRow, Collation}
use zenmind_official_server.Auth.Store.Monad.{World, modify}
use zenmind_official_server.Auth.Store.Keeps.{Keeps, keeps_rules}
use zenmind_official_server.Auth.Store.Table.{update, delete}
use zenmind_official_server.Auth.Store.Table.Laws.{All-update, All-delete}
use zenmind_official_server.Auth.Store.Sessions.{
  create_session, find_user_by_session, find_session_csrf, find_session_started_at, revoke_session,
  has_token, see, new_session,
}
use zenmind_official_server.Auth.Store.Tickets.{
  save_desktop_sso_ticket, consume_desktop_sso_ticket, consume_body,
}
use zenmind_official_server.Auth.Store.Codes.{
  save_email_code, consume_email_code, consume_email_code_body,
}
use zenmind_official_server.Auth.Store.Oauth.{
  save_oauth_request, consume_oauth_request, consume_oauth_body,
}
use zenmind_official_server.Auth.Store.Users.Identity.{
  upsert_google_user, upsert_email_code_user, upsert_identity_user, upsert_identity_body, linked_id,
  link_new, sign_in_as, account_id, link_identity,
}
use zenmind_official_server.Auth.Store.Users.Accounts.{
  touch_last_login, record_login, find_local_user_by_email, ensure_admin, upsert_authentik_user,
  insert_admin, admin_id, add_credential,
}
use zenmind_official_server.Auth.Store.History.Invariants.{Keeps-report, invariant-final}
use zenmind_official_server.Auth.Store.History.{
  Op, op_ensure_admin, op_find_local, op_find_by_session, op_upsert_google, op_upsert_authentik,
  op_upsert_email_code, op_save_code, op_consume_code, op_save_oauth, op_consume_oauth,
  op_create_session, op_find_csrf, op_find_started, op_revoke, op_save_ticket, op_consume_ticket,
  op_touch, op_record, perform, Event, final,
}

module _ (c : Collation) (Q : SessionRow → Type 0) where
  abbrev pub Holds : Db → Type 0
  Holds db = All Q db.sessions

  -- The rows that the call may insert satisfy Q.
  abbrev pub Inserts : Op → Type 0
  Inserts (op_create_session id token csrf expires agent ip) =
      (now : ℕ) → Q (new_session id token csrf expires now agent ip)
  Inserts _ = Unit

  module _ (seen : (s : SessionRow) (now : ℕ) → Q s → Q (see c now s)) where
    Keeps-see :
        (token : Text) (now : ℕ)
        → Keeps Holds (
            modify
              (λ db. record db { sessions = update (has_token c token) (see c now) db.sessions }))
    Keeps-see token now = record {
      at =
          λ w h. All-update Q (has_token c token) (see c now) (λ s q. seen s now q) w.db.sessions h;
    }

    Keeps-revoke :
        (token : Text)
        → Keeps Holds
            (modify (λ db. record db { sessions = delete (has_token c token) db.sessions }))
    Keeps-revoke token = record { at = λ w h. All-delete Q (has_token c token) w.db.sessions h }

    Keeps-insert :
        (row : SessionRow)
        → Q row
        → Keeps Holds (modify (λ db. record db { sessions = db.sessions ++ row ∷ [] }))
    Keeps-insert row q = record { at = λ w h. All-append Q w.db.sessions (row ∷ []) h (q, tt) }

    Keeps-add_credential : (id : ℕ) (hash : Text) → Keeps Holds (modify (add_credential c id hash))
    Keeps-add_credential id hash = record { at = λ w h. ground arith }

    ruleset session_rules =
        (keeps_rules, Keeps-see, Keeps-revoke, Keeps-insert, Keeps-add_credential)

    Holds-perform : (op : Op) (w : World) → Inserts op → Holds w.db → Holds (perform c op w).1
    unfolding perform ensure_admin insert_admin admin_id find_local_user_by_email
        find_user_by_session upsert_google_user upsert_authentik_user upsert_email_code_user
        upsert_identity_user upsert_identity_body sign_in_as linked_id link_new account_id
        link_identity save_email_code consume_email_code consume_email_code_body save_oauth_request
        consume_oauth_request consume_oauth_body create_session find_session_csrf
        find_session_started_at revoke_session save_desktop_sso_ticket consume_desktop_sso_ticket
        consume_body touch_last_login record_login
    Holds-perform (op_ensure_admin r e h) w i q =
        Keeps-report Holds (ensure_admin c r e h) w (search session_rules depth 30) q
    Holds-perform (op_find_local e) w i q =
        Keeps-report Holds (find_local_user_by_email c e) w (search session_rules depth 30) q
    Holds-perform (op_find_by_session t n) w i q =
        Keeps-report Holds (find_user_by_session c t n) w (search session_rules depth 30) q
    Holds-perform (op_upsert_google g) w i q =
        Keeps-report Holds (upsert_google_user c g) w (search session_rules depth 30) q
    Holds-perform (op_upsert_authentik a) w i q =
        Keeps-report Holds (upsert_authentik_user c a) w (search session_rules depth 30) q
    Holds-perform (op_upsert_email_code e) w i q =
        Keeps-report Holds (upsert_email_code_user c e) w (search session_rules depth 30) q
    Holds-perform (op_save_code e h x) w i q =
        Keeps-report Holds (save_email_code e h x) w (search session_rules depth 30) q
    Holds-perform (op_consume_code e h n) w i q =
        Keeps-report Holds (consume_email_code c e h n) w (search session_rules depth 30) q
    Holds-perform (op_save_oauth s r) w i q =
        Keeps-report Holds (save_oauth_request c s r) w (search session_rules depth 30) q
    Holds-perform (op_consume_oauth s n) w i q =
        Keeps-report Holds (consume_oauth_request c s n) w (search session_rules depth 30) q
    Holds-perform (op_create_session id t s x a p) w i q =
        Keeps-report Holds (create_session c id t s x a p) w (search session_rules depth 30) q
    Holds-perform (op_find_csrf t n) w i q =
        Keeps-report Holds (find_session_csrf c t n) w (search session_rules depth 30) q
    Holds-perform (op_find_started t n) w i q =
        Keeps-report Holds (find_session_started_at c t n) w (search session_rules depth 30) q
    Holds-perform (op_revoke t) w i q =
        Keeps-report Holds (revoke_session c t) w (search session_rules depth 30) q
    Holds-perform (op_save_ticket id h x p a) w i q =
        Keeps-report Holds (save_desktop_sso_ticket c id h x p a) w (search session_rules depth 30)
          q
    Holds-perform (op_consume_ticket h n) w i q =
        Keeps-report Holds (consume_desktop_sso_ticket c h n) w (search session_rules depth 30) q
    Holds-perform (op_touch id at) w i q =
        Keeps-report Holds (touch_last_login id at) w (search session_rules depth 30) q
    Holds-perform (op_record entry) w i q =
        Keeps-report Holds (record_login entry) w (search session_rules depth 30) q

    pub Holds-final :
        (db : Db) (es : List Event) → All (λ e. Inserts e.op) es → Holds db → Holds (final c db es)
    Holds-final db es i q = invariant-final c Holds Inserts Holds-perform db es i q
