-- ===== src/Auth/Server/Sso.antt =====
-- internal/auth/server.go: the pages by which a browser hands its session on to the Desktop, with
-- the cookies that keep the callback between them.
use zenmind_official_server.Base.{not, ◌||◌, Option, none, some, [], if◌then◌else◌}
use zenmind_official_server.Text.{Text, text, trim_space, is_blank}
use zenmind_official_server.Auth.Store.Defs.{User, Collation}
use zenmind_official_server.Auth.Store.Monad.{Error, not_found, disabled_user, driver}
use zenmind_official_server.Auth.Server.Defs.{
  Outside, Config, Request, Reply, failure, redirect, desktop_success, desktop_failure, Response,
  answer, H, ◌>>=◌, ◌>>◌, pure, on_result, on_option,
}
use zenmind_official_server.Auth.Server.Requests.{
  is_allowed_desktop_callback_url, is_trusted_bridge, desktop_sso_auth_method,
}
use zenmind_official_server.Auth.Server.Cookies.{
  failed_login, successful_login, log_login, current_user, create_desktop_sso_ticket,
}
use zenmind_official_server.Auth.Server.Desktop.{DesktopContext, complete_desktop_sso_bridge}

-- A request with the two bridge cookies.
pub record SsoRequest : Type 0 where
  pub request : Request
  pub callback_cookie : Option Text
  pub state_cookie : Option Text

-- What happens to the bridge cookies.
pub data BridgeCookies : Type 0 where
  keep_bridge : BridgeCookies
  -- the callback and the state
  set_bridge : Text → Text → BridgeCookies
  clear_bridge : BridgeCookies

pub record SsoResponse : Type 0 where
  pub response : Response
  pub bridge : BridgeCookies

abbrev pub with_bridge : BridgeCookies → Response → SsoResponse
with_bridge b r = record { response = r; bridge = b }

abbrev pub sso_reply : BridgeCookies → Reply → H SsoResponse
sso_reply b r = pure (with_bridge b (answer r))

module _ (out : Outside) where
  abbrev pub make_context : Text → Text → DesktopContext
  make_context callback state = record { callback_url = callback; desktop_state = state }

  -- readDesktopSsoBridgeContext, `none` where it has no context or an error
  unfoldable pub read_bridge_context : SsoRequest → Option DesktopContext
  unfolding trim_space is_blank
  read_bridge_context r =
      on_option r.callback_cookie
        (λ callback.
          on_option r.state_cookie
            (λ state.
              if is_blank (trim_space state)
                || not (is_allowed_desktop_callback_url out (trim_space callback))
              then none
              else some (make_context (trim_space callback) (trim_space state)))
            none)
        none

-- `login_url` is the URL of the login page with `return_to` and `desktop` in its query (net/url).
module _ (c : Collation) (out : Outside) (cfg : Config) (login_url : Text) where
  abbrev continue_url : Text
  continue_url = text "/api/auth/desktop-sso/continue"

  -- The answer to a request without a callback.
  unfoldable pub refuse_callback : BridgeCookies → Request → H SsoResponse
  unfolding ◌>>=◌ log_login failed_login desktop_sso_auth_method text
  refuse_callback b r = do
    log_login c out cfg r
        (failed_login [] [] (desktop_sso_auth_method cfg) (text "invalid_desktop_callback"))
    sso_reply b (failure 400 (text "invalid_request"))

  -- completeDesktopSsoBridge with what is done to the cookies.
  unfoldable pub complete_bridge : BridgeCookies → Request → DesktopContext → H SsoResponse
  unfolding ◌>>=◌ complete_desktop_sso_bridge
  complete_bridge b r context = do
    response ← complete_desktop_sso_bridge c out cfg r context
    pure (with_bridge b response)

  unfoldable pub desktop_sso_start : Request → H SsoResponse
  unfolding ◌>>=◌ text
  desktop_sso_start r =
      let callback = trim_space (r.query (text "callback")) in
      let state = trim_space (r.query (text "state")) in
      if not (is_allowed_desktop_callback_url out callback) || is_blank state
      then refuse_callback keep_bridge r
      else if is_trusted_bridge cfg r
      then complete_bridge keep_bridge r (make_context out callback state)
      else (do
        found ← current_user c out cfg r
        sso_reply (set_bridge callback state)
            (on_result found (λ user. redirect continue_url) (λ e. redirect login_url)))

  unfoldable pub finish_continue : Request → DesktopContext → User → H SsoResponse
  unfolding ◌>>=◌ text
  finish_continue r context user =
      if not user.enabled
      then sso_reply clear_bridge
          (desktop_failure context.callback_url context.desktop_state (text "account_disabled"))
      else (do
        ticket ← create_desktop_sso_ticket c out cfg r user.id
        on_option ticket
            (λ t. do
              log_login c out cfg r (successful_login user (text "desktop_first_party"))
              sso_reply clear_bridge (desktop_success context.callback_url context.desktop_state t))
            (sso_reply clear_bridge (
              desktop_failure context.callback_url context.desktop_state
                (text "desktop_ticket_failed"))))

  -- What desktopSsoContinue answers without a user.
  unfoldable pub refuse_continue : DesktopContext → Error → H SsoResponse
  unfolding text
  refuse_continue context not_found = sso_reply keep_bridge (redirect login_url)
  refuse_continue context (disabled_user u) =
      sso_reply clear_bridge
        (desktop_failure context.callback_url context.desktop_state (text "account_disabled"))
  refuse_continue context driver =
      sso_reply clear_bridge
        (desktop_failure context.callback_url context.desktop_state (text "account_disabled"))

  unfoldable pub continue_with : Request → DesktopContext → H SsoResponse
  unfolding ◌>>=◌
  continue_with r context =
      if is_trusted_bridge cfg r then complete_bridge clear_bridge r context else (do
        found ← current_user c out cfg r
        on_result found (finish_continue r context) (refuse_continue context))

  unfoldable pub desktop_sso_continue : SsoRequest → H SsoResponse
  desktop_sso_continue r =
      on_option (read_bridge_context out r) (continue_with r.request)
        (refuse_callback clear_bridge r.request)
