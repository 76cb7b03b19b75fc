-- ===== src/Auth/Server/Tokens.antt =====
-- internal/auth/server.go: the identity token that desktopSsoToken issues.
use zenmind_official_server.Base.{ℕ}
use zenmind_official_server.Text.{Text, text}
use zenmind_official_server.Auth.Avatar.{AvatarProxy, public_url}
use zenmind_official_server.Auth.Jwt.{
  Keys, IdentityJwtSigner, IdentityJwtResult, Issued, issued, refused, issue,
}
use zenmind_official_server.Auth.Store.Defs.{User, Collation}
use zenmind_official_server.Auth.Store.Monad.{Error, not_found, disabled_user, driver}
use zenmind_official_server.Auth.Store.Sessions.{find_session_started_at}
use zenmind_official_server.Auth.Server.Defs.{
  Outside, Config, Request, Reply, H, ◌>>=◌, pure, now, store, on_result, on_option,
}
use zenmind_official_server.Auth.Server.Cookies.{session_token, current_user, require_csrf}

pub data TokenReply : Type 0 where
  failure : ℕ → Text → TokenReply
  -- the refusal of requireCSRF
  csrf_refused : Reply → TokenReply
  -- publicUser with its avatar URL, and the token
  token_reply : User → Text → IdentityJwtResult → TokenReply

unfoldable pub refuse_user : Error → TokenReply
unfolding text
refuse_user not_found = failure 401 (text "unauthorized")
refuse_user (disabled_user u) = failure 403 (text "account_disabled")
refuse_user driver = failure 403 (text "account_disabled")

unfoldable pub refuse_start : Error → TokenReply
unfolding text
refuse_start not_found = failure 401 (text "unauthorized")
refuse_start (disabled_user u) = failure 500 (text "server_error")
refuse_start driver = failure 500 (text "server_error")

-- The user with the URL of the proxy in place of the URL of the picture.
unfoldable pub token_user : Outside → AvatarProxy → User → User
unfolding public_url
token_user out p user = record user { avatar_url = public_url out p user }

module _ (k : Keys) (s : IdentityJwtSigner k.Key) (p : AvatarProxy) where
  module _ (c : Collation) (out : Outside) (cfg : Config) where
    unfoldable pub issue_reply : User → Issued → TokenReply
    unfolding public_url text
    issue_reply user (issued r) = token_reply user (public_url out p user) r
    issue_reply user (refused e) = failure 503 (text "sso_jwt_not_configured")

    unfoldable pub issue_for : User → Text → H TokenReply
    unfolding ◌>>=◌ find_session_started_at issue token_user issue_reply refuse_start
    issue_for user token = do
      at ← now
      started ← store (find_session_started_at c (out.sha256_hex token) at)
      on_result started
          (λ from. do
            result ← issue k s (token_user out p user) at (out.sha256_hex token) from
            pure (issue_reply user result))
          (λ e. pure (refuse_start e))

    unfoldable pub desktop_sso_token : Request → H TokenReply
    unfolding ◌>>=◌ text
    desktop_sso_token r = do
      barred ← require_csrf c out cfg r
      on_option barred (λ answer. pure (csrf_refused answer))
          (do
            found ← current_user c out cfg r
            on_result found
                (λ user.
                  on_option (session_token r) (λ token. issue_for user token)
                    (pure (failure 401 (text "unauthorized"))))
                (λ e. pure (refuse_user e)))
