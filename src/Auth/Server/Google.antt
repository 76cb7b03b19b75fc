-- ===== src/Auth/Server/Google.antt =====
-- internal/auth/server.go: the sign-in with Google, in the browser.
use zenmind_official_server.Base.{◌+◌, ◌*◌, Bool, not, ◌||◌, [], ◌++◌, if◌then◌else◌}
use zenmind_official_server.Text.{Text, text, text_eq, trim_space, is_blank}
use zenmind_official_server.Auth.RateLimiter.{minute, allow}
use zenmind_official_server.Auth.Store.Defs.{User, OauthRequest, Collation}
use zenmind_official_server.Auth.Store.Monad.{Error, not_found, disabled_user, driver}
use zenmind_official_server.Auth.Store.Oauth.{save_oauth_request, consume_oauth_request}
use zenmind_official_server.Auth.Store.Users.Identity.{upsert_google_user}
use zenmind_official_server.Auth.Server.Defs.{
  Outside, Config, Request, failure, redirect, redirect_failure, desktop_success, desktop_failure,
  session_cookie, Response, H, ◌>>=◌, ◌>>◌, pure, reply, now, store, on_result, on_option,
  allow_request, random_token,
}
use zenmind_official_server.Auth.Server.Requests.{
  request_ip, safe_relative_redirect, is_allowed_desktop_callback_url,
}
use zenmind_official_server.Auth.Server.Cookies.{
  failed_login, failed_user, successful_login, log_login, create_session, create_desktop_sso_ticket,
  welcome,
}

-- An OAuthRequest before startGoogleOAuth completes it.
abbrev pub plain_request : Text → Text → Text → Text → OauthRequest
plain_request kind return_to callback_url desktop_state = record {
  kind = kind;
  nonce = [];
  code_verifier = [];
  return_to = return_to;
  callback_url = callback_url;
  desktop_state = desktop_state;
  expires_at = 0;
}

unfoldable pub is_desktop : OauthRequest → Bool
unfolding text_eq text
is_desktop request = text_eq request.kind (text "desktop")

module _ (c : Collation) (out : Outside) (cfg : Config) where
  unfoldable pub start_google_oauth : OauthRequest → H Response
  unfolding ◌>>=◌ random_token save_oauth_request is_blank text
  start_google_oauth request =
      let refused : H Response = reply (failure 500 (text "server_error")) in
      do
        state' ← random_token
        on_option state'
            (λ state. do
              nonce' ← random_token
              on_option nonce'
                  (λ nonce. do
                    verifier' ← random_token
                    on_option verifier'
                        (λ code_verifier. do
                          at ← now
                          saved ← store (
                              save_oauth_request c (out.sha256_hex state) (record request {
                                nonce = nonce;
                                code_verifier = code_verifier;
                                expires_at = at + 10 * minute;
                                return_to =
                                    if is_blank request.return_to
                                    then text "/"
                                    else request.return_to;
                              }))
                          on_result saved
                              (λ _. reply (
                                redirect (
                                  out.auth_code_url state nonce (out.sha256_base64 code_verifier))))
                              (λ e. refused))
                        refused)
                  refused)
            refused

  unfoldable pub google_start : Request → H Response
  unfolding ◌>>=◌ request_ip allow start_google_oauth safe_relative_redirect text
  google_start r =
      if not out.google_configured
      then reply (redirect_failure (text "google_not_configured"))
      else (do
        allowed ← allow_request (text "google:" ++ request_ip out cfg r) 30 (15 * minute)
        if not allowed
            then reply (failure 429 (text "rate_limited"))
            else start_google_oauth (
                plain_request (text "web") (safe_relative_redirect out (r.query (text "return_to")))
                  [] []))

  unfoldable pub google_desktop_start : Request → H Response
  unfolding start_google_oauth is_allowed_desktop_callback_url is_blank trim_space text
  google_desktop_start r =
      let callback = trim_space (r.query (text "callback")) in
      let desktop_state = trim_space (r.query (text "state")) in
      if not out.google_configured
      then reply (failure 503 (text "google_not_configured"))
      else if not (is_allowed_desktop_callback_url out callback) || is_blank desktop_state
      then reply (failure 400 (text "invalid_request"))
      else start_google_oauth (plain_request (text "desktop") [] callback desktop_state)

  -- A failure without a user: the entry in the log, and the redirection.
  unfoldable pub refuse_google : Request → Text → Text → Text → Text → H Response
  unfolding ◌>>=◌ log_login failed_login text
  refuse_google r email name reason page = do
    log_login c out cfg r (failed_login email name (text "google") reason)
    reply (redirect_failure page)

  unfoldable pub refuse_disabled : Request → OauthRequest → User → H Response
  unfolding ◌>>=◌ log_login failed_user is_desktop text
  refuse_disabled r request user = do
    log_login c out cfg r (failed_user user (text "google") (text "account_disabled"))
    reply (
        if is_desktop request
        then desktop_failure request.callback_url request.desktop_state (text "account_disabled")
        else redirect_failure (text "account_disabled"))

  -- The end of a sign-in that the Desktop started: a ticket.
  unfoldable pub finish_desktop : Request → OauthRequest → User → H Response
  unfolding ◌>>=◌ create_desktop_sso_ticket log_login successful_login text
  finish_desktop r request user = do
    ticket ← create_desktop_sso_ticket c out cfg r user.id
    on_option ticket
        (λ t. do
          log_login c out cfg r (successful_login user (text "desktop_google"))
          reply (desktop_success request.callback_url request.desktop_state t))
        (reply (
          desktop_failure request.callback_url request.desktop_state
            (text "desktop_ticket_failed")))

  -- The end of a sign-in that the browser started: a session.
  unfoldable pub finish_web : Request → OauthRequest → User → H Response
  unfolding ◌>>=◌ create_session welcome safe_relative_redirect text
  finish_web r request user = do
    session ← create_session c out cfg r user.id
    on_option session
        (λ (token, csrf_token, expires_at). do
          welcome c out cfg r user (text "google")
          pure (record {
            reply = redirect (safe_relative_redirect out request.return_to);
            cookie = session_cookie token expires_at;
          }))
        (reply (redirect_failure (text "google_session_failed")))

  unfoldable pub finish_google : Request → OauthRequest → User → H Response
  unfolding refuse_disabled finish_desktop finish_web is_desktop
  finish_google r request user =
      if not user.enabled
      then refuse_disabled r request user
      else if is_desktop request
      then finish_desktop r request user
      else finish_web r request user

  -- The callback once the state is known.
  unfoldable pub exchange : Request → OauthRequest → H Response
  unfolding ◌>>=◌ refuse_google finish_google upsert_google_user is_blank trim_space text
  exchange r request =
      let code = trim_space (r.query (text "code")) in
      if is_blank code
      then refuse_google r [] [] (text "missing_code") (text "missing_code")
      else on_option (out.exchange_code code request.code_verifier request.nonce)
          (λ identity. do
            found ← store (upsert_google_user c identity)
            on_result found (finish_google r request) (λ e.
                refuse_google r identity.email identity.name (text "user_upsert_failed")
                  (text "google_user_failed")))
          (refuse_google r [] [] (text "exchange_failed") (text "google_exchange_failed"))

  unfoldable pub refuse_state : Request → Bool → Error → H Response
  unfolding refuse_google text
  refuse_state r no_state not_found =
      refuse_google r [] [] (text "invalid_state") (text "invalid_state")
  refuse_state r no_state (disabled_user u) =
      if no_state
      then refuse_google r [] [] (text "invalid_state") (text "invalid_state")
      else reply (redirect_failure (text "google_state_failed"))
  refuse_state r no_state driver =
      if no_state
      then refuse_google r [] [] (text "invalid_state") (text "invalid_state")
      else reply (redirect_failure (text "google_state_failed"))

  unfoldable pub google_callback : Request → H Response
  unfolding ◌>>=◌ consume_oauth_request refuse_google refuse_state exchange is_blank trim_space text
  google_callback r =
      let state = trim_space (r.query (text "state")) in
      do
        at ← now
        consumed ← store (consume_oauth_request c (out.sha256_hex state) at)
        on_result consumed
            (λ request.
              if is_blank state
              then refuse_google r [] [] (text "invalid_state") (text "invalid_state")
              else exchange r request)
            (refuse_state r (is_blank state))
