-- ===== src/Auth/Store/History/AccountRows.antt =====
-- What every account in the table satisfies, after any sequence of calls.
use zenmind_official_server.Base.{
  ℕ, ◌<◌, Bool, true, List, [], ◌∷◌, if◌then◌else◌, arith, All, All-append,
}
use zenmind_official_server.Text.{Text, text}
use zenmind_official_server.Auth.Store.Defs.{Db, UserRow, Collation}
use zenmind_official_server.Auth.Store.Monad.{World, modify}
use zenmind_official_server.Auth.Store.Keeps.{Keeps, keeps_rules}
use zenmind_official_server.Auth.Store.Table.{update}
use zenmind_official_server.Auth.Store.Table.Laws.{All-update}
use zenmind_official_server.Auth.Store.Users.Rows.{insert_user}
use zenmind_official_server.Auth.Store.Sessions.{
  create_session, find_user_by_session, find_session_csrf, find_session_started_at, revoke_session,
}
use zenmind_official_server.Auth.Store.Tickets.{
  save_desktop_sso_ticket, consume_desktop_sso_ticket, consume_body,
}
use zenmind_official_server.Auth.Store.Codes.{
  save_email_code, consume_email_code, consume_email_code_body,
}
use zenmind_official_server.Auth.Store.Oauth.{
  save_oauth_request, consume_oauth_request, consume_oauth_body,
}
use zenmind_official_server.Auth.Store.Users.Identity.{
  upsert_google_user, upsert_email_code_user, upsert_identity_user, upsert_identity_body, linked_id,
  link_new, sign_in_as, account_id, link_identity, update_profile,
}
use zenmind_official_server.Auth.Store.Users.Accounts.{
  touch_last_login, record_login, find_local_user_by_email, ensure_admin, upsert_authentik_user,
  insert_admin, admin_id, add_credential,
}
use zenmind_official_server.Auth.Store.History.Invariants.{Keeps-report, invariant-final}
use zenmind_official_server.Auth.Store.History.{
  Op, op_ensure_admin, op_find_local, op_find_by_session, op_upsert_google, op_upsert_authentik,
  op_upsert_email_code, op_save_code, op_consume_code, op_save_oauth, op_consume_oauth,
  op_create_session, op_find_csrf, op_find_started, op_revoke, op_save_ticket, op_consume_ticket,
  op_touch, op_record, perform, Event, final,
}

-- A predicate of the id, the role and the flag of an account; `id` is the id of an old account.
module _ (c : Collation) (id : ℕ) (Q : ℕ → Text → Bool → Type 0) where
  abbrev pub IsGood : UserRow → Type 0
  IsGood u = Q u.id u.role u.enabled

  abbrev pub Holds : Db → Type 0
  Holds db = All IsGood db.users × (id < db.next_user_id)

  -- The role that EnsureAdmin leaves.
  abbrev admin_role : Text → Text
  admin_role role = if c.same role (text "admin") then role else text "admin"

  -- What EnsureAdmin writes satisfies Q.
  pub record AdminKeeps : Type 0 where
    pub new_admin : (n : ℕ) → id < n → Q n (text "admin") true
    pub old_admin : (n : ℕ) (role : Text) (on : Bool) → Q n role on → Q n (admin_role role) on

  abbrev pub Allowed : Op → Type 0
  Allowed (op_ensure_admin reports email hash) = AdminKeeps
  Allowed _ = Unit

  module _ (new_user : (n : ℕ) → id < n → Q n (text "user") true) where
    Keeps-update :
        (p : UserRow → Bool) (f : UserRow → UserRow)
        → ((u : UserRow) → IsGood u → IsGood (f u))
        → Keeps Holds (modify (λ db. record db { users = update p f db.users }))
    Keeps-update p f k = record { at = λ w (h, lt). (All-update IsGood p f k w.db.users h, lt) }

    Keeps-profile :
        (p : UserRow → Bool) (provider email name avatar : Text) (now : ℕ)
        → Keeps Holds (
            modify (λ db. record db {
              users = update p (update_profile c provider email name avatar now) db.users;
            }))
    unfolding update_profile
    Keeps-profile p provider email name avatar now = Keeps-update p _ (λ u h. h)

    Keeps-insert :
        (row : ℕ → UserRow)
        → ((n : ℕ) → id < n → IsGood (row n))
        → Keeps Holds (modify (insert_user row))
    Keeps-insert row k = record {
      at = λ w (h, lt). (
        All-append IsGood w.db.users (row w.db.next_user_id ∷ []) h (k w.db.next_user_id lt, tt),
        omega arith,
      );
    }

    Keeps-add_credential : (id : ℕ) (hash : Text) → Keeps Holds (modify (add_credential c id hash))
    Keeps-add_credential id hash = record { at = λ w h. ground arith }

    ruleset account_rules =
        (keeps_rules, Keeps-update, Keeps-profile, Keeps-insert, Keeps-add_credential)

    Keeps-ensure_admin : (r : Bool) (e h : Text) → AdminKeeps → Keeps Holds (ensure_admin c r e h)
    unfolding ensure_admin insert_admin admin_id
    Keeps-ensure_admin r e h k = search (account_rules, k.new_admin, k.old_admin) depth 30

    Holds-perform : (op : Op) (w : World) → Allowed op → Holds w.db → Holds (perform c op w).1
    unfolding perform ensure_admin insert_admin admin_id find_local_user_by_email
        find_user_by_session upsert_google_user upsert_authentik_user upsert_email_code_user
        upsert_identity_user upsert_identity_body sign_in_as linked_id link_new account_id
        link_identity save_email_code consume_email_code consume_email_code_body save_oauth_request
        consume_oauth_request consume_oauth_body create_session find_session_csrf
        find_session_started_at revoke_session save_desktop_sso_ticket consume_desktop_sso_ticket
        consume_body touch_last_login record_login
    Holds-perform (op_ensure_admin r e h) w i q =
        Keeps-report Holds (ensure_admin c r e h) w (Keeps-ensure_admin r e h i) q
    Holds-perform (op_find_local e) w i q =
        Keeps-report Holds (find_local_user_by_email c e) w (search account_rules depth 30) q
    Holds-perform (op_find_by_session t n) w i q =
        Keeps-report Holds (find_user_by_session c t n) w (search account_rules depth 30) q
    Holds-perform (op_upsert_google g) w i q =
        Keeps-report Holds (upsert_google_user c g) w (search account_rules depth 30) q
    Holds-perform (op_upsert_authentik a) w i q =
        Keeps-report Holds (upsert_authentik_user c a) w (search account_rules depth 30) q
    Holds-perform (op_upsert_email_code e) w i q =
        Keeps-report Holds (upsert_email_code_user c e) w (search account_rules depth 30) q
    Holds-perform (op_save_code e h x) w i q =
        Keeps-report Holds (save_email_code e h x) w (search account_rules depth 30) q
    Holds-perform (op_consume_code e h n) w i q =
        Keeps-report Holds (consume_email_code c e h n) w (search account_rules depth 30) q
    Holds-perform (op_save_oauth s r) w i q =
        Keeps-report Holds (save_oauth_request c s r) w (search account_rules depth 30) q
    Holds-perform (op_consume_oauth s n) w i q =
        Keeps-report Holds (consume_oauth_request c s n) w (search account_rules depth 30) q
    Holds-perform (op_create_session id t s x a p) w i q =
        Keeps-report Holds (create_session c id t s x a p) w (search account_rules depth 30) q
    Holds-perform (op_find_csrf t n) w i q =
        Keeps-report Holds (find_session_csrf c t n) w (search account_rules depth 30) q
    Holds-perform (op_find_started t n) w i q =
        Keeps-report Holds (find_session_started_at c t n) w (search account_rules depth 30) q
    Holds-perform (op_revoke t) w i q =
        Keeps-report Holds (revoke_session c t) w (search account_rules depth 30) q
    Holds-perform (op_save_ticket id h x p a) w i q =
        Keeps-report Holds (save_desktop_sso_ticket c id h x p a) w (search account_rules depth 30)
          q
    Holds-perform (op_consume_ticket h n) w i q =
        Keeps-report Holds (consume_desktop_sso_ticket c h n) w (search account_rules depth 30) q
    Holds-perform (op_touch id at) w i q =
        Keeps-report Holds (touch_last_login id at) w (search account_rules depth 30) q
    Holds-perform (op_record entry) w i q =
        Keeps-report Holds (record_login entry) w (search account_rules depth 30) q

    pub Holds-final :
        (db : Db) (es : List Event) → All (λ e. Allowed e.op) es → Holds db → Holds (final c db es)
    Holds-final db es i q = invariant-final c Holds Allowed Holds-perform db es i q
