-- ===== src/Auth/Store/Users/Accounts.antt =====
-- internal/auth/store.go: the administrator, the local login, the Authentik bridge, the last login
-- and the login log.
use zenmind_official_server.Base.{
  ℕ, Bool, true, not, ◌&&◌, ◌||◌, Option, none, some, List, [], ◌∷◌, ◌++◌, if◌then◌else◌, ◌==◌,
}
use zenmind_official_server.Text.{Text, text, trim_space, truncate, normalize_email, is_blank}
use zenmind_official_server.Auth.Email.{valid_email}
use zenmind_official_server.Auth.Store.Defs.{
  Db, User, UserRow, CredentialRow, AuthentikIdentity, LoginLog, Collation,
}
use zenmind_official_server.Auth.Store.Monad.{
  M, not_found, driver, pure, raise, gets, modify, time_now, attempt, required, on_row, transaction,
  ◌>>=◌, ◌>>◌,
}
use zenmind_official_server.Auth.Store.Table.{find, update, is_none}
use zenmind_official_server.Auth.Store.Users.Rows.{scan_user, has_id, has_login, insert_user}

-- UPDATE auth_user SET LAST_LOGIN_AT_ = ?, UPDATED_AT_ = ? WHERE ID_ = ?
abbrev pub set_last_login : ℕ → UserRow → UserRow
set_last_login at u = record u { last_login_at = some at; updated_at = at }

unfoldable pub touch_last_login : ℕ → ℕ → M (Unit {0})
unfolding attempt ◌>>=◌ update
touch_last_login user_id logged_in_at = do
  attempt
  modify
      (λ db. record db { users = update (has_id user_id) (set_last_login logged_in_at) db.users })

-- The columns of an entry as they are stored.
unfoldable pub stored_log : LoginLog → ℕ → LoginLog
unfolding truncate trim_space normalize_email
stored_log entry now = record {
  user_id = entry.user_id;
  email = truncate (normalize_email entry.email) 255;
  display_name = truncate (trim_space entry.display_name) 255;
  auth_method = truncate (trim_space entry.auth_method) 32;
  login_result = truncate (trim_space entry.login_result) 16;
  failure_reason = truncate (trim_space entry.failure_reason) 128;
  ip = truncate (trim_space entry.ip) 64;
  user_agent = truncate (trim_space entry.user_agent) 512;
  login_at = if entry.login_at == 0 then now else entry.login_at;
}

-- FK_AUTH_LOGIN_LOG_USER: no user, or one that is there.
abbrev pub names_user : Option ℕ → List UserRow → Bool
names_user none users = true
names_user (some id) users = not (is_none (find (has_id id) users))

unfoldable pub record_login : LoginLog → M (Unit {0})
unfolding attempt ◌>>=◌ find stored_log
record_login entry = do
  now ← time_now
  attempt
  known ← gets (λ db. names_user entry.user_id db.users)
  if known
      then modify (λ db. record db { login_logs = db.login_logs ++ stored_log entry now ∷ [] })
      else raise driver

abbrev pub is_credential_of : ℕ → CredentialRow → Bool
is_credential_of id r = r.user_id == id

module _ (c : Collation) where
  -- ... FROM auth_user u INNER JOIN auth_local_credential c WHERE u.AUTH_PROVIDER_ = 'local' AND
  -- u.EMAIL_ = ?
  unfoldable pub local_user : Text → List CredentialRow → List UserRow → Option User
  unfolding find scan_user text
  local_user email credentials [] = none
  local_user email credentials (u ∷ us) =
      let rest = local_user email credentials us in
      if c.same u.auth_provider (text "local") && c.same u.email email
      then elim (find (is_credential_of u.id) credentials) [
        | some r ↦ some (scan_user u r.password_hash)
        | none ↦ rest
      ]
      else rest

  unfoldable pub find_local_user_by_email : Text → M User
  unfolding attempt ◌>>=◌ local_user normalize_email
  find_local_user_by_email email = do
    attempt
    row ← gets (λ db. local_user (normalize_email email) db.credentials db.users)
    required row

  abbrev pub make_admin : ℕ → UserRow → UserRow
  make_admin now u = record u {
    role = if c.same u.role (text "admin") then u.role else text "admin";
    updated_at = now;
  }

  -- INSERT INTO auth_user ... ON DUPLICATE KEY UPDATE, with LastInsertId: the id of the new row, and
  -- for an updated row its id or 0, as the server reports it.
  unfoldable pub insert_admin : Bool → Text → ℕ → M ℕ
  unfolding attempt ◌>>=◌ find update text
  insert_admin reports_updated email now = do
    attempt
    old ← gets (λ db. find (has_login c (text "local") email) db.users)
    next ← gets (λ db. db.next_user_id)
    on_row old
        (λ u. do
          modify (λ db. record db { users = update (has_id u.id) (make_admin now) db.users })
          pure (if reports_updated then u.id else 0))
        (do
          modify (
              insert_user (λ id. record {
                id = id;
                email = email;
                display_name = email;
                avatar_url = [];
                auth_provider = text "local";
                auth_sub = email;
                role = text "admin";
                enabled = true;
                created_at = now;
                updated_at = now;
                last_login_at = none;
              }))
          pure next)

  -- The id that LastInsertId returned, or else the selected one.
  unfoldable pub admin_id : Text → ℕ → M ℕ
  unfolding attempt ◌>>=◌ find text
  admin_id email inserted =
      if inserted == 0
      then (do
        attempt
        row ← gets (λ db. find (has_login c (text "local") email) db.users)
        found ← required row
        pure found.id)
      else pure inserted

  -- INSERT INTO auth_local_credential ... ON DUPLICATE KEY UPDATE PASSWORD_HASH_ = PASSWORD_HASH_
  abbrev pub add_credential : ℕ → Text → Db → Db
  add_credential id password_hash db =
      if is_none (find (is_credential_of id) db.credentials)
      then record db {
        credentials = db.credentials ++ record { user_id = id; password_hash = password_hash } ∷ [];
      }
      else db

  unfoldable pub ensure_admin : Bool → Text → Text → M (Unit {0})
  unfolding insert_admin admin_id transaction normalize_email
  ensure_admin reports_updated email password_hash = do
    now ← time_now
    transaction (do
      inserted ← insert_admin reports_updated (normalize_email email) now
      attempt
      id ← admin_id (normalize_email email) inserted
      attempt
      modify (add_credential id password_hash))

  -- The display name of an Authentik identity.
  unfoldable pub authentik_name : AuthentikIdentity → Text → Text
  unfolding trim_space is_blank
  authentik_name identity email =
      let name = trim_space identity.name in
      let username = trim_space identity.username in
      if is_blank name then (if is_blank username then email else username) else name

  unfoldable pub upsert_authentik_user : AuthentikIdentity → M User
  unfolding attempt ◌>>=◌ find update scan_user authentik_name valid_email normalize_email text
  upsert_authentik_user identity =
      let subject = trim_space identity.subject in
      let email = normalize_email identity.email in
      let name = authentik_name identity email in
      let picture = trim_space identity.picture in
      if is_blank subject || not (valid_email email) then raise not_found else do
        now ← time_now
        attempt
        old ← gets (λ db. find (has_login c (text "authentik") subject) db.users)
        on_row old
            (λ u. modify (λ db. record db {
              users =
                  update (has_id u.id)
                    (λ r. record r {
                      email = email;
                      display_name = name;
                      avatar_url = picture;
                      updated_at = now;
                      last_login_at = some now;
                    })
                    db.users;
            }))
            (modify (
              insert_user (λ id. record {
                id = id;
                email = email;
                display_name = name;
                avatar_url = picture;
                auth_provider = text "authentik";
                auth_sub = subject;
                role = text "user";
                enabled = true;
                created_at = now;
                updated_at = now;
                last_login_at = some now;
              })))
        attempt
        row ← gets (λ db. find (has_login c (text "authentik") subject) db.users)
        found ← required row
        pure (scan_user found [])
