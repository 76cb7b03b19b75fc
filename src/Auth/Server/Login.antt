-- ===== src/Auth/Server/Login.antt =====
-- internal/auth/server.go: login with a password, and with a code sent by mail.
use zenmind_official_server.Base.{
  ◌+◌, ◌*◌, Bool, false, not, ◌||◌, Option, none, some, [], ◌++◌, if◌then◌else◌,
}
use zenmind_official_server.Text.{Text, text, trim_space, normalize_email}
use zenmind_official_server.Auth.Email.{valid_email, valid_email_code, random_digits}
use zenmind_official_server.Auth.RateLimiter.{minute, allow}
use zenmind_official_server.Auth.Store.Defs.{User, Collation}
use zenmind_official_server.Auth.Store.Monad.{Error, not_found, disabled_user, driver}
use zenmind_official_server.Auth.Store.Codes.{save_email_code, consume_email_code}
use zenmind_official_server.Auth.Store.Users.Identity.{upsert_email_code_user}
use zenmind_official_server.Auth.Store.Users.Accounts.{find_local_user_by_email}
use zenmind_official_server.Auth.Server.Defs.{
  Outside, Config, Request, Reply, failure, user_reply, code_sent, session_cookie, Response, H,
  ◌>>=◌, ◌>>◌, pure, reply, now, store, on_result, on_option, allow_request,
}
use zenmind_official_server.Auth.Server.Requests.{request_ip, valid_request_origin}
use zenmind_official_server.Auth.Server.Cookies.{
  failed_login, failed_user, log_login, create_session, welcome,
}

pub record LoginRequest : Type 0 where
  pub email : Text
  pub password : Text

pub record EmailCodeVerifyRequest : Type 0 where
  pub email : Text
  pub code : Text

-- randomDigits(6)
unfoldable pub draw_code : H (Option Text)
unfolding random_digits
draw_code s =
    on_option (random_digits 6 s.bytes) (λ (code, rest). (some code, record s { bytes = rest }))
      (none, record s { bytes = [] })

module _ (c : Collation) (out : Outside) (cfg : Config) where
  unfoldable pub email_code_hash : Text → Text → Text
  unfolding normalize_email trim_space text
  email_code_hash email code = out.sha256_hex (normalize_email email ++ text ":" ++ trim_space code)

  abbrev pub login_key : Request → Text → Text
  login_key r email = text "admin:" ++ request_ip out cfg r ++ text ":" ++ normalize_email email

  -- The session of a user who has proved who he is.
  unfoldable pub open_session : Request → User → Text → Reply → H Response
  unfolding ◌>>=◌ create_session welcome
  open_session r user method refused = do
    session ← create_session c out cfg r user.id
    on_option session
        (λ (token, csrf_token, expires_at). do
          user' ← welcome c out cfg r user method
          pure (record { reply = user_reply user' none; cookie = session_cookie token expires_at }))
        (reply refused)

  -- What login does with the user of the address.
  unfoldable pub check_password : Request → LoginRequest → User → H Response
  unfolding ◌>>=◌ log_login failed_login failed_user open_session text
  check_password r req user =
      if not (out.password_matches user.password_hash req.password)
      then (do
        log_login c out cfg r
            (failed_login req.email [] (text "local") (text "invalid_credentials"))
        reply (failure 401 (text "invalid_credentials")))
      else if not user.enabled
      then (do
        log_login c out cfg r (failed_user user (text "local") (text "account_disabled"))
        reply (failure 403 (text "account_disabled")))
      else open_session r user (text "local") (failure 500 (text "server_error"))

  unfoldable pub unknown_user : Request → LoginRequest → Error → H Response
  unfolding ◌>>=◌ log_login failed_login text
  unknown_user r req not_found = do
    log_login c out cfg r (failed_login req.email [] (text "local") (text "invalid_credentials"))
    reply (failure 401 (text "invalid_credentials"))
  unknown_user r req (disabled_user u) = reply (failure 500 (text "server_error"))
  unknown_user r req driver = reply (failure 500 (text "server_error"))

  -- The body is `none` if it is no JSON.
  unfoldable pub login : Request → Option LoginRequest → H Response
  unfolding ◌>>=◌ valid_request_origin request_ip normalize_email allow find_local_user_by_email
      check_password unknown_user text
  login r body =
      if not (valid_request_origin out cfg r)
      then reply (failure 403 (text "origin_failed"))
      else on_option body
          (λ req. do
            allowed ← allow_request (login_key r req.email) 5 (15 * minute)
            if not allowed then reply (failure 429 (text "rate_limited")) else do
              found ← store (find_local_user_by_email c req.email)
              on_result found (check_password r req) (unknown_user r req))
          (reply (failure 400 (text "invalid_json")))

  -- The second limiter is asked only if the first allows.
  unfoldable pub allow_mail : Request → Text → H Bool
  unfolding ◌>>=◌ request_ip allow text
  allow_mail r email = do
    first ← allow_request (text "email-send:address:" ++ email) 3 (15 * minute)
    if first
        then allow_request (text "email-send:ip:" ++ request_ip out cfg r) 10 (15 * minute)
        else pure false

  unfoldable pub send_code : Text → Text → H Response
  unfolding ◌>>=◌ save_email_code email_code_hash text
  send_code email code = do
    at ← now
    saved ← store (save_email_code email (email_code_hash email code) (at + 10 * minute))
    on_result saved
        (λ _. reply (
          if out.send_email_code email code
          then code_sent (at + 10 * minute)
          else failure 500 (text "email_not_configured")))
        (λ e. reply (failure 500 (text "server_error")))

  unfoldable pub email_code_start : Request → Option Text → H Response
  unfolding ◌>>=◌ valid_request_origin normalize_email valid_email allow_mail draw_code send_code
      text
  email_code_start r body =
      if not (valid_request_origin out cfg r)
      then reply (failure 403 (text "origin_failed"))
      else on_option body
          (λ address.
            let email = normalize_email address in
            if not (valid_email email) then reply (failure 400 (text "invalid_email")) else do
              allowed ← allow_mail r email
              if not allowed then reply (failure 429 (text "rate_limited")) else do
                code ← draw_code
                on_option code (send_code email) (reply (failure 500 (text "server_error"))))
          (reply (failure 400 (text "invalid_json")))

  unfoldable pub refuse_code : Request → Text → H Response
  unfolding ◌>>=◌ log_login failed_login text
  refuse_code r email = do
    log_login c out cfg r (failed_login email [] (text "email_code") (text "invalid_code"))
    reply (failure 401 (text "invalid_code"))

  -- The login of a user whose code was accepted.
  unfoldable pub enter_with_code : Request → User → H Response
  unfolding ◌>>=◌ log_login failed_user create_session welcome text
  enter_with_code r user =
      if not user.enabled
      then (do
        log_login c out cfg r (failed_user user (text "email_code") (text "account_disabled"))
        reply (failure 403 (text "account_disabled")))
      else (do
        session ← create_session c out cfg r user.id
        on_option session
            (λ (token, csrf_token, expires_at). do
              user' ← welcome c out cfg r user (text "email_code")
              pure (record {
                reply = user_reply user' none;
                cookie = session_cookie token expires_at;
              }))
            (do
              log_login c out cfg r
                  (failed_user user (text "email_code") (text "session_create_failed"))
              reply (failure 500 (text "server_error"))))

  unfoldable pub email_code_verify : Request → Option EmailCodeVerifyRequest → H Response
  unfolding ◌>>=◌ valid_request_origin request_ip normalize_email allow trim_space valid_email
      valid_email_code consume_email_code email_code_hash upsert_email_code_user refuse_code
      enter_with_code log_login failed_login text
  email_code_verify r body =
      if not (valid_request_origin out cfg r)
      then reply (failure 403 (text "origin_failed"))
      else on_option body
          (λ req.
            let email = normalize_email req.email in
            let code = trim_space req.code in
            do
              allowed ←
                  allow_request (text "email-verify:" ++ request_ip out cfg r ++ text ":" ++ email)
                    10 (15 * minute)
              if not allowed
                  then reply (failure 429 (text "rate_limited"))
                  else if not (valid_email email) || not (valid_email_code code)
                  then refuse_code r email
                  else (do
                    at ← now
                    accepted ← store (consume_email_code c email (email_code_hash email code) at)
                    on_result accepted
                        (λ _. do
                          found ← store (upsert_email_code_user c email)
                          on_result found (enter_with_code r) (λ e. do
                            log_login c out cfg r (
                                failed_login email [] (text "email_code")
                                  (text "user_upsert_failed"))
                            reply (failure 500 (text "server_error"))))
                        (λ e. refuse_code r email)))
          (reply (failure 400 (text "invalid_json")))
