-- ===== src/Auth/Store/History/Links.antt =====
-- To which account an identity is linked, over any sequence of calls.
use zenmind_official_server.Base.{
  ℕ, ◌≡◌, refl, Bool, some, List, [], ◌∷◌, ◌++◌, arith, inl, inr, Option-cases,
}
use zenmind_official_server.Text.{Text, trim_space}
use zenmind_official_server.Auth.Store.Defs.{Db, User, IdentityRow, GoogleIdentity, Collation}
use zenmind_official_server.Auth.Store.Monad.{World, ok, modify}
use zenmind_official_server.Auth.Store.Keeps.{Keeps, keeps_rules}
use zenmind_official_server.Auth.Store.Table.{find, update}
use zenmind_official_server.Auth.Store.Table.Laws.{find-append, find-update}
use zenmind_official_server.Auth.Store.Users.Linking.{IsLinked, account_of, google-IsLinked}
use zenmind_official_server.Auth.Store.Sessions.{
  create_session, find_user_by_session, find_session_csrf, find_session_started_at, revoke_session,
}
use zenmind_official_server.Auth.Store.Tickets.{
  save_desktop_sso_ticket, consume_desktop_sso_ticket, consume_body,
}
use zenmind_official_server.Auth.Store.Codes.{
  save_email_code, consume_email_code, consume_email_code_body,
}
use zenmind_official_server.Auth.Store.Oauth.{
  save_oauth_request, consume_oauth_request, consume_oauth_body,
}
use zenmind_official_server.Auth.Store.Users.Identity.{
  upsert_google_user, upsert_email_code_user, upsert_identity_user, upsert_identity_body, linked_id,
  is_identity, touch_identity, link_new, sign_in_as, account_id, link_identity,
}
use zenmind_official_server.Auth.Store.Users.Accounts.{
  touch_last_login, record_login, find_local_user_by_email, ensure_admin, upsert_authentik_user,
  insert_admin, admin_id, add_credential,
}
use zenmind_official_server.Auth.Store.History.Invariants.{
  Keeps-report, invariant-final, no_condition,
}
use zenmind_official_server.Auth.Store.History.{
  Op, op_ensure_admin, op_find_local, op_find_by_session, op_upsert_google, op_upsert_authentik,
  op_upsert_email_code, op_save_code, op_consume_code, op_save_oauth, op_consume_oauth,
  op_create_session, op_find_csrf, op_find_started, op_revoke, op_save_ticket, op_consume_ticket,
  op_touch, op_record, perform, Event, final,
}

module _ (c : Collation) (provider subject : Text) (id : ℕ) where
  append-account_of :
      (rows : List IdentityRow) (row : IdentityRow)
      → account_of c provider subject (find (is_identity c provider subject) rows) ≡ some id
      → account_of c provider subject (find (is_identity c provider subject) (rows ++ row ∷ []))
        ≡ some id
  append-account_of rows row h = elim (Option-cases (find (is_identity c provider subject) rows)) [
    | inl e ↦ cc (h, e)
    | inr (i, e) ↦ rw (find-append (is_identity c provider subject) rows (row ∷ []) i e) (rw e at h)
  ]

  update-account_of :
      (p : IdentityRow → Bool) (email : Text) (now : ℕ) (rows : List IdentityRow)
      → account_of c provider subject (find (is_identity c provider subject) rows) ≡ some id
      → account_of c provider subject
          (find (is_identity c provider subject) (update p (touch_identity c email now) rows))
        ≡ some id
  update-account_of p email now rows h =
      elim (Option-cases (find (is_identity c provider subject) rows)) [
        | inl e ↦ cc (h, e)
        | inr (i, e) ↦
            rw
              (find-update (is_identity c provider subject) p (touch_identity c email now)
                (λ r. refl) rows i e)
              (ground arith)
      ]

  Keeps-append :
      (row : IdentityRow)
      → Keeps
          (IsLinked c provider subject id)
          (modify (λ db. record db { identities = db.identities ++ row ∷ [] }))
  Keeps-append row = record { at = λ w h. append-account_of w.db.identities row h }

  Keeps-touch :
      (p : IdentityRow → Bool) (email : Text) (now : ℕ)
      → Keeps (IsLinked c provider subject id) (
          modify
            (λ db. record db { identities = update p (touch_identity c email now) db.identities }))
  Keeps-touch p email now = record { at = λ w h. update-account_of p email now w.db.identities h }

  Keeps-add_credential :
      (user : ℕ) (hash : Text)
      → Keeps (IsLinked c provider subject id) (modify (add_credential c user hash))
  Keeps-add_credential user hash = record { at = λ w h. ground arith }

  ruleset link_rules = (keeps_rules, Keeps-append, Keeps-touch, Keeps-add_credential)

  IsLinked-perform :
      (op : Op) (w : World)
      → IsLinked c provider subject id w.db
      → IsLinked c provider subject id (perform c op w).1
  unfolding perform ensure_admin insert_admin admin_id find_local_user_by_email find_user_by_session
      upsert_google_user upsert_authentik_user upsert_email_code_user upsert_identity_user
      upsert_identity_body sign_in_as linked_id link_new account_id link_identity save_email_code
      consume_email_code consume_email_code_body save_oauth_request consume_oauth_request
      consume_oauth_body create_session find_session_csrf find_session_started_at revoke_session
      save_desktop_sso_ticket consume_desktop_sso_ticket consume_body touch_last_login record_login
  IsLinked-perform (op_ensure_admin r e h) w q =
      Keeps-report (IsLinked c provider subject id) (ensure_admin c r e h) w
        (search link_rules depth 30) q
  IsLinked-perform (op_find_local e) w q =
      Keeps-report (IsLinked c provider subject id) (find_local_user_by_email c e) w
        (search link_rules depth 30) q
  IsLinked-perform (op_find_by_session t n) w q =
      Keeps-report (IsLinked c provider subject id) (find_user_by_session c t n) w
        (search link_rules depth 30) q
  IsLinked-perform (op_upsert_google g) w q =
      Keeps-report (IsLinked c provider subject id) (upsert_google_user c g) w
        (search link_rules depth 30) q
  IsLinked-perform (op_upsert_authentik a) w q =
      Keeps-report (IsLinked c provider subject id) (upsert_authentik_user c a) w
        (search link_rules depth 30) q
  IsLinked-perform (op_upsert_email_code e) w q =
      Keeps-report (IsLinked c provider subject id) (upsert_email_code_user c e) w
        (search link_rules depth 30) q
  IsLinked-perform (op_save_code e h x) w q =
      Keeps-report (IsLinked c provider subject id) (save_email_code e h x) w
        (search link_rules depth 30) q
  IsLinked-perform (op_consume_code e h n) w q =
      Keeps-report (IsLinked c provider subject id) (consume_email_code c e h n) w
        (search link_rules depth 30) q
  IsLinked-perform (op_save_oauth s r) w q =
      Keeps-report (IsLinked c provider subject id) (save_oauth_request c s r) w
        (search link_rules depth 30) q
  IsLinked-perform (op_consume_oauth s n) w q =
      Keeps-report (IsLinked c provider subject id) (consume_oauth_request c s n) w
        (search link_rules depth 30) q
  IsLinked-perform (op_create_session uid t s x a p) w q =
      Keeps-report (IsLinked c provider subject id) (create_session c uid t s x a p) w
        (search link_rules depth 30) q
  IsLinked-perform (op_find_csrf t n) w q =
      Keeps-report (IsLinked c provider subject id) (find_session_csrf c t n) w
        (search link_rules depth 30) q
  IsLinked-perform (op_find_started t n) w q =
      Keeps-report (IsLinked c provider subject id) (find_session_started_at c t n) w
        (search link_rules depth 30) q
  IsLinked-perform (op_revoke t) w q =
      Keeps-report (IsLinked c provider subject id) (revoke_session c t) w
        (search link_rules depth 30) q
  IsLinked-perform (op_save_ticket uid h x p a) w q =
      Keeps-report (IsLinked c provider subject id) (save_desktop_sso_ticket c uid h x p a) w
        (search link_rules depth 30) q
  IsLinked-perform (op_consume_ticket h n) w q =
      Keeps-report (IsLinked c provider subject id) (consume_desktop_sso_ticket c h n) w
        (search link_rules depth 30) q
  IsLinked-perform (op_touch uid at) w q =
      Keeps-report (IsLinked c provider subject id) (touch_last_login uid at) w
        (search link_rules depth 30) q
  IsLinked-perform (op_record entry) w q =
      Keeps-report (IsLinked c provider subject id) (record_login entry) w
        (search link_rules depth 30) q

  pub IsLinked-final :
      (db : Db) (es : List Event)
      → IsLinked c provider subject id db
      → IsLinked c provider subject id (final c db es)
  IsLinked-final db es h =
      invariant-final c (IsLinked c provider subject id) (λ op. Unit)
        (λ op w a k. IsLinked-perform op w k) db es (no_condition es) h

-- A Google account leads to one account of the server: after a sign-in with a Google identity, and
-- any calls of the store, a sign-in with the same subject returns the account of the same id,
-- whatever has become of the address and the name.
pub google-same_account :
    (c : Collation) (g g' : GoogleIdentity) (user user' : User) (v w : World) (es : List Event)
    → (upsert_google_user c g v).0 ≡ ok user
    → w.db ≡ final c (upsert_google_user c g v).1.db es
    → trim_space g'.subject ≡ trim_space g.subject
    → (upsert_google_user c g' w).0 ≡ ok user'
    → user'.id ≡ user.id
google-same_account c g g' user user' v w es first after subject second =
    let (ok_email, linked, old) = google-IsLinked c g user v first in
    let (ok_email', linked', same) = google-IsLinked c g' user' w second in
    same user.id (rw (after, subject) (IsLinked-final c _ _ user.id _ es linked))
