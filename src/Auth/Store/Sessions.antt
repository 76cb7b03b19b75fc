-- ===== src/Auth/Store/Sessions.antt =====
-- internal/auth/store.go: the login sessions.
pub mod Laws
use zenmind_official_server.Base.{
  ℕ, ◌≡◌, Bool, true, false, not, ◌&&◌, Option, none, some, List, [], ◌∷◌, ◌++◌, if◌then◌else◌, ltb,
  ◌==◌,
}
use zenmind_official_server.Text.{Text, truncate, trim_space, is_blank}
use zenmind_official_server.Auth.Store.Defs.{Db, User, UserRow, SessionRow, Collation}
use zenmind_official_server.Auth.Store.Monad.{
  M, Error, not_found, disabled_user, driver, ok, err, pure, raise, gets, modify, time_now, attempt,
  required, ignore, or_not_found, ◌>>=◌, ◌>>◌,
}
use zenmind_official_server.Auth.Store.Table.{find, update, delete, is_none}
use zenmind_official_server.Auth.Store.Users.Rows.{scan_user}

-- The row that CreateSession inserts.
abbrev pub new_session : ℕ → Text → Text → ℕ → ℕ → Text → Text → SessionRow
new_session user_id token_hash csrf_token expires_at now user_agent ip = record {
  user_id = user_id;
  token_hash = token_hash;
  csrf_token = csrf_token;
  expires_at = expires_at;
  created_at = now;
  last_seen_at = now;
  user_agent = truncate (trim_space user_agent) 512;
  ip = truncate (trim_space ip) 64;
}

module _ (c : Collation) where
  abbrev pub has_token : Text → SessionRow → Bool
  has_token token_hash s = c.same s.token_hash token_hash

  -- TOKEN_HASH_ = ? AND EXPIRES_AT_ > ?
  abbrev pub is_live : Text → ℕ → SessionRow → Bool
  is_live token_hash now s = has_token token_hash s && ltb now s.expires_at

  -- The INSERT fails on a second row with the token (UK_AUTH_SESSION_TOKEN_HASH), and on a user that
  -- is not there (FK_AUTH_SESSION_USER).
  unfoldable pub create_session : ℕ → Text → Text → ℕ → Text → Text → M (Unit {0})
  unfolding attempt ◌>>=◌ find
  create_session user_id token_hash csrf_token expires_at user_agent ip = do
    now ← time_now
    attempt
    taken ← gets (λ db. find (has_token token_hash) db.sessions)
    owner ← gets (λ db. find (λ u. u.id == user_id) db.users)
    if is_none taken && not (is_none owner)
        then modify (λ db. record db {
          sessions =
              db.sessions
              ++ new_session user_id token_hash csrf_token expires_at now user_agent ip ∷ [];
        })
        else raise driver

  -- ... FROM auth_session sess INNER JOIN auth_user u WHERE (live)
  unfoldable pub session_user : Text → ℕ → List UserRow → List SessionRow → Option UserRow
  unfolding find
  session_user token_hash now users [] = none
  session_user token_hash now users (s ∷ ss) =
      let owner = find (λ u. u.id == s.user_id) users in
      if is_live token_hash now s && not (is_none owner)
      then owner
      else session_user token_hash now users ss

  abbrev pub see : ℕ → SessionRow → SessionRow
  see now s = record s { last_seen_at = now }

  unfoldable pub find_user_by_session : Text → ℕ → M User
  unfolding attempt ◌>>=◌ session_user update scan_user
  find_user_by_session token_hash now = do
    attempt
    row ← gets (λ db. session_user token_hash now db.users db.sessions)
    found ← required row
    let user = scan_user found []
    if not user.enabled then raise (disabled_user user) else do
      ignore (do
        attempt
        modify (λ db. record db { sessions = update (has_token token_hash) (see now) db.sessions }))
      pure user

  -- An error of the driver leaves the token empty, so it is ErrNotFound too.
  unfoldable pub find_session_csrf : Text → ℕ → M Text
  unfolding attempt ◌>>=◌ find is_blank
  find_session_csrf token_hash now = or_not_found (do
    attempt
    row ← gets (λ db. find (is_live token_hash now) db.sessions)
    found ← required row
    if is_blank found.csrf_token then raise not_found else pure found.csrf_token)

  unfoldable pub find_session_started_at : Text → ℕ → M ℕ
  unfolding attempt ◌>>=◌ find
  find_session_started_at token_hash now = do
    attempt
    row ← gets (λ db. find (is_live token_hash now) db.sessions)
    found ← required row
    if found.created_at == 0 then raise not_found else pure found.created_at

  unfoldable pub revoke_session : Text → M (Unit {0})
  unfolding attempt ◌>>=◌ delete
  revoke_session token_hash = do
    attempt
    modify (λ db. record db { sessions = delete (has_token token_hash) db.sessions })
