-- ===== src/Auth/Store/Oauth.antt =====
-- internal/auth/store.go: the pending Google sign-ins, one for each state.
pub mod Laws
use zenmind_official_server.Base.{
  ℕ, ◌≡◌, Bool, true, false, not, ◌&&◌, Option, none, some, List, [], ◌∷◌, ◌++◌, if◌then◌else◌, ltb,
  ◌==◌,
}
use zenmind_official_server.Text.{Text, truncate, trim_space}
use zenmind_official_server.Auth.Store.Defs.{Db, OauthRequest, OauthRow, Collation}
use zenmind_official_server.Auth.Store.Monad.{
  M, not_found, driver, pure, raise, gets, modify, time_now, attempt, required, transaction, ◌>>=◌,
  ◌>>◌,
}
use zenmind_official_server.Auth.Store.Table.{find, update, is_none}

-- The columns of a request as they are stored.
unfoldable pub stored_request : OauthRequest → OauthRequest
unfolding truncate trim_space
stored_request r = record {
  kind = truncate (trim_space r.kind) 32;
  nonce = truncate (trim_space r.nonce) 128;
  code_verifier = truncate (trim_space r.code_verifier) 128;
  return_to = truncate (trim_space r.return_to) 2048;
  callback_url = truncate (trim_space r.callback_url) 2048;
  desktop_state = truncate (trim_space r.desktop_state) 512;
  expires_at = r.expires_at;
}

-- The row that SaveOAuthRequest inserts.
abbrev pub new_request : Text → OauthRequest → ℕ → OauthRow
new_request state_hash request now = record {
  state_hash = state_hash;
  request = stored_request request;
  consumed_at = none;
  created_at = now;
}

module _ (c : Collation) where
  abbrev pub has_state : Text → OauthRow → Bool
  has_state state_hash r = c.same r.state_hash state_hash

  -- The INSERT fails on a second row with the state (UK_AUTH_OAUTH_REQUEST_STATE_HASH).
  unfoldable pub save_oauth_request : Text → OauthRequest → M (Unit {0})
  unfolding attempt ◌>>=◌ find stored_request
  save_oauth_request state_hash request = do
    now ← time_now
    attempt
    taken ← gets (λ db. find (has_state state_hash) db.oauth_requests)
    if is_none taken
        then modify (λ db. record db {
          oauth_requests = db.oauth_requests ++ new_request state_hash request now ∷ [];
        })
        else raise driver

  abbrev pub consume_request : ℕ → OauthRow → OauthRow
  consume_request now r = record r { consumed_at = some now }

  unfoldable pub consume_oauth_body : Text → ℕ → M OauthRequest
  unfolding attempt ◌>>=◌ find update
  consume_oauth_body state_hash now = do
    attempt
    row ← gets (λ db. find (λ r. has_state state_hash r && is_none r.consumed_at) db.oauth_requests)
    found ← required row
    let request = found.request
    if not (ltb now request.expires_at) then raise not_found else do
      attempt
      modify (λ db. record db {
        oauth_requests = update (has_state state_hash) (consume_request now) db.oauth_requests;
      })
      pure request

  unfoldable pub consume_oauth_request : Text → ℕ → M OauthRequest
  unfolding transaction consume_oauth_body
  consume_oauth_request state_hash now = transaction (consume_oauth_body state_hash now)
