-- ===== src/Auth/Server/Desktop.antt =====
-- internal/auth/server.go: the sessions of the Desktop, and the sign-in through the Authentik bridge.
use zenmind_official_server.Base.{not, ◌||◌, Option, some, [], if◌then◌else◌}
use zenmind_official_server.Text.{Text, text, text_eq, trim_space, to_lower, is_blank}
use zenmind_official_server.Auth.Email.{valid_email}
use zenmind_official_server.Auth.Store.Defs.{User, AuthentikIdentity, LoginLog, Collation}
use zenmind_official_server.Auth.Store.Monad.{Error, not_found, disabled_user, driver}
use zenmind_official_server.Auth.Store.Tickets.{consume_desktop_sso_ticket}
use zenmind_official_server.Auth.Store.Users.Identity.{upsert_google_user}
use zenmind_official_server.Auth.Store.Users.Accounts.{upsert_authentik_user}
use zenmind_official_server.Auth.Server.Defs.{
  Outside, Config, Request, failure, user_reply, redirect, redirect_failure, desktop_success,
  desktop_failure, session_cookie, Response, H, ◌>>=◌, ◌>>◌, pure, reply, now, store, on_result,
  on_option,
}
use zenmind_official_server.Auth.Server.Requests.{
  valid_request_origin, safe_relative_redirect, desktop_sso_auth_method, is_trusted_bridge,
  authentik_identity,
}
use zenmind_official_server.Auth.Server.Cookies.{
  failed_login, failed_user, successful_login, log_login, create_session, create_desktop_sso_ticket,
  welcome,
}

pub record DesktopSsoSessionRequest : Type 0 where
  pub provider : Text
  pub id_token : Text
  pub ticket : Text

pub record DesktopContext : Type 0 where
  pub callback_url : Text
  pub desktop_state : Text

module _ (c : Collation) (out : Outside) (cfg : Config) where
  unfoldable pub write_session_response : Request → User → Text → H Response
  unfolding ◌>>=◌ create_session welcome log_login failed_user text
  write_session_response r user method = do
    session ← create_session c out cfg r user.id
    on_option session
        (λ (token, csrf_token, expires_at). do
          user' ← welcome c out cfg r user method
          pure (record {
            reply = user_reply user' (some expires_at);
            cookie = session_cookie token expires_at;
          }))
        (do
          log_login c out cfg r (failed_user user method (text "session_create_failed"))
          reply (failure 500 (text "server_error")))

  unfoldable pub refuse_ticket : Request → Error → H Response
  unfolding ◌>>=◌ log_login failed_login failed_user desktop_sso_auth_method text
  refuse_ticket r not_found = do
    log_login c out cfg r (failed_login [] [] (desktop_sso_auth_method cfg) (text "invalid_ticket"))
    reply (failure 401 (text "invalid_ticket"))
  refuse_ticket r (disabled_user user) = do
    log_login c out cfg r (failed_user user (desktop_sso_auth_method cfg) (text "account_disabled"))
    reply (failure 403 (text "account_disabled"))
  refuse_ticket r driver = reply (failure 500 (text "server_error"))

  unfoldable pub ticket_session : Request → Text → H Response
  unfolding ◌>>=◌ consume_desktop_sso_ticket write_session_response refuse_ticket
      desktop_sso_auth_method
  ticket_session r ticket = do
    at ← now
    found ← store (consume_desktop_sso_ticket c (out.sha256_hex ticket) at)
    on_result found (λ user. write_session_response r user (desktop_sso_auth_method cfg))
        (refuse_ticket r)

  abbrev desktop_google : Text
  desktop_google = text "desktop_google"

  unfoldable pub token_session : Request → Text → H Response
  unfolding ◌>>=◌ upsert_google_user write_session_response log_login failed_login failed_user text
  token_session r id_token =
      on_option (out.verify_id_token id_token)
        (λ identity. do
          found ← store (upsert_google_user c identity)
          on_result found
              (λ user.
                if not user.enabled
                then (do
                  log_login c out cfg r (failed_user user desktop_google (text "account_disabled"))
                  reply (failure 403 (text "account_disabled")))
                else write_session_response r user desktop_google)
              (λ e. do
                log_login c out cfg r (
                    failed_login identity.email identity.name desktop_google
                      (text "user_upsert_failed"))
                reply (failure 500 (text "server_error"))))
        (do
          log_login c out cfg r (failed_login [] [] desktop_google (text "invalid_token"))
          reply (failure 401 (text "invalid_token")))

  unfoldable pub desktop_sso_session : Request → Option DesktopSsoSessionRequest → H Response
  unfolding valid_request_origin ticket_session token_session trim_space to_lower is_blank text
      text_eq
  desktop_sso_session r body =
      if not (valid_request_origin out cfg r)
      then reply (failure 403 (text "origin_failed"))
      else on_option body
          (λ req.
            if not (is_blank (trim_space req.ticket))
            then ticket_session r (trim_space req.ticket)
            else if not (text_eq (to_lower (trim_space req.provider)) (text "google"))
            then reply (failure 400 (text "invalid_request"))
            else if not out.google_configured
            then reply (failure 503 (text "google_not_configured"))
            else if is_blank (trim_space req.id_token)
            then reply (failure 400 (text "invalid_request"))
            else token_session r (trim_space req.id_token))
          (reply (failure 400 (text "invalid_json")))

  abbrev authentik : Text
  authentik = text "authentik"

  unfoldable pub refuse_bridge : Request → AuthentikIdentity → Text → Text → H Response
  unfolding ◌>>=◌ log_login failed_login text
  refuse_bridge r identity reason page = do
    log_login c out cfg r (failed_login identity.email identity.name authentik reason)
    reply (redirect_failure page)

  unfoldable pub refuse_bridge_user : Request → User → Text → Text → H Response
  unfolding ◌>>=◌ log_login failed_user text
  refuse_bridge_user r user reason page = do
    log_login c out cfg r (failed_user user authentik reason)
    reply (redirect_failure page)

  unfoldable pub finish_bridge : Request → User → H Response
  unfolding ◌>>=◌ create_session welcome refuse_bridge_user safe_relative_redirect text
  finish_bridge r user =
      if not user.enabled
      then refuse_bridge_user r user (text "account_disabled") (text "account_disabled")
      else (do
        session ← create_session c out cfg r user.id
        on_option session
            (λ (token, csrf_token, expires_at). do
              welcome c out cfg r user authentik
              pure (record {
                reply = redirect (safe_relative_redirect out (r.query (text "rd")));
                cookie = session_cookie token expires_at;
              }))
            (refuse_bridge_user r user (text "session_create_failed") (text "sso_session_failed")))

  unfoldable pub authentik_sso_session : Request → H Response
  unfolding ◌>>=◌ is_trusted_bridge authentik_identity upsert_authentik_user refuse_bridge
      finish_bridge log_login failed_login valid_email is_blank trim_space text
  authentik_sso_session r =
      let identity = authentik_identity r in
      if not (is_trusted_bridge cfg r)
      then (do
        log_login c out cfg r (failed_login [] [] authentik (text "untrusted_bridge"))
        reply (redirect_failure (text "sso_untrusted_bridge")))
      else if is_blank (trim_space identity.subject) || not (valid_email identity.email)
      then refuse_bridge r identity (text "missing_identity") (text "sso_missing_identity")
      else (do
        found ← store (upsert_authentik_user c identity)
        on_result found (finish_bridge r)
            (λ e. refuse_bridge r identity (text "user_upsert_failed") (text "sso_user_failed")))

  -- What completeDesktopSsoBridge answers to a failure.
  unfoldable pub fail_bridge : Request → DesktopContext → LoginLog → Text → H Response
  unfolding ◌>>=◌ log_login
  fail_bridge r context entry reason = do
    log_login c out cfg r entry
    reply (desktop_failure context.callback_url context.desktop_state reason)

  unfoldable pub finish_desktop_bridge : Request → DesktopContext → User → H Response
  unfolding ◌>>=◌ create_desktop_sso_ticket fail_bridge log_login failed_user successful_login
      desktop_sso_auth_method text
  finish_desktop_bridge r context user =
      let method = desktop_sso_auth_method cfg in
      if not user.enabled
      then fail_bridge r context (failed_user user method (text "account_disabled"))
          (text "account_disabled")
      else (do
        ticket ← create_desktop_sso_ticket c out cfg r user.id
        on_option ticket
            (λ t. do
              log_login c out cfg r (successful_login user method)
              reply (desktop_success context.callback_url context.desktop_state t))
            (fail_bridge r context (failed_user user method (text "ticket_create_failed"))
              (text "desktop_ticket_failed")))

  unfoldable pub complete_desktop_sso_bridge : Request → DesktopContext → H Response
  unfolding ◌>>=◌ authentik_identity upsert_authentik_user fail_bridge finish_desktop_bridge
      failed_login desktop_sso_auth_method valid_email is_blank trim_space text
  complete_desktop_sso_bridge r context =
      let identity = authentik_identity r in
      let method = desktop_sso_auth_method cfg in
      if is_blank (trim_space identity.subject) || not (valid_email identity.email)
      then fail_bridge r context
          (failed_login identity.email identity.name method (text "missing_identity"))
          (text "sso_missing_identity")
      else (do
        found ← store (upsert_authentik_user c identity)
        on_result found (finish_desktop_bridge r context) (λ e.
            fail_bridge r context
              (failed_login identity.email identity.name method (text "user_upsert_failed"))
              (text "sso_user_failed")))
