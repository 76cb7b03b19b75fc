-- ===== src/Auth/Server/Cookies.antt =====
-- internal/auth/server.go and internal/auth/request_security.go: the session of a request, and the
-- handlers that need no more.
use zenmind_official_server.Base.{
  ℕ, ◌+◌, not, ◌||◌, Option, none, some, [], if◌then◌else◌, ◌==◌, length,
}
use zenmind_official_server.Text.{Text, text, text_eq, trim_space, is_blank}
use zenmind_official_server.Auth.Store.Defs.{User, LoginLog, Collation}
use zenmind_official_server.Auth.Store.Monad.{Error, not_found, disabled_user, driver, Result, err}
use zenmind_official_server.Auth.Store.Sessions as Sessions
use zenmind_official_server.Auth.Store.Sessions.{
  find_user_by_session, find_session_csrf, revoke_session,
}
use zenmind_official_server.Auth.Store.Tickets.{save_desktop_sso_ticket}
use zenmind_official_server.Auth.Store.Users.Accounts.{record_login, touch_last_login}
use zenmind_official_server.Auth.Server.Defs.{
  Outside, Config, Request, Reply, failure, done, user_reply, csrf_reply, expired_cookie, Response,
  H, ◌>>=◌, ◌>>◌, pure, reply, now, store, on_result, on_option, random_token,
}
use zenmind_official_server.Auth.Server.Requests.{request_ip, valid_request_origin}

-- An entry of the login log, before recordLogin adds the address and the time.
abbrev pub entry : Option ℕ → Text → Text → Text → Text → Text → LoginLog
entry id email name method result reason = record {
  user_id = id;
  email = email;
  display_name = name;
  auth_method = method;
  login_result = result;
  failure_reason = reason;
  ip = [];
  user_agent = [];
  login_at = 0;
}

-- A failure of somebody unknown, a failure of a user, and a success.
unfoldable pub failed_login : Text → Text → Text → Text → LoginLog
unfolding text
failed_login email name method reason = entry none email name method (text "failure") reason

unfoldable pub failed_user : User → Text → Text → LoginLog
unfolding text
failed_user u method reason =
    entry (some u.id) u.email u.display_name method (text "failure") reason

unfoldable pub successful_login : User → Text → LoginLog
unfolding text
successful_login u method = entry (some u.id) u.email u.display_name method (text "success") []

-- `strings.TrimSpace(cookie.Value)`, or ErrNotFound
unfoldable pub session_token : Request → Option Text
unfolding trim_space is_blank
session_token r =
    on_option r.session_cookie
      (λ value. if is_blank (trim_space value) then none else some (trim_space value)) none

module _ (c : Collation) (out : Outside) (cfg : Config) where
  -- s.recordLogin
  unfoldable pub log_login : Request → LoginLog → H (Unit {0})
  unfolding ◌>>=◌ request_ip record_login
  log_login r e = do
    at ← now
    store (
        record_login
          (record e { ip = request_ip out cfg r; user_agent = r.user_agent; login_at = at }))
    pure tt

  unfoldable pub current_user : Request → H (Result User)
  unfolding ◌>>=◌ find_user_by_session is_blank
  current_user r =
      on_option r.session_cookie
        (λ value.
          if is_blank value
          then pure (err not_found)
          else (do at ← now; store (find_user_by_session c (out.sha256_hex value) at)))
        (pure (err not_found))

  -- The answer that refuses the request, if it is refused.
  unfoldable pub require_csrf : Request → H (Option Reply)
  unfolding ◌>>=◌ session_token find_session_csrf trim_space text_eq text valid_request_origin
  require_csrf r =
      on_option (session_token r)
        (λ token. do
          at ← now
          found ← store (find_session_csrf c (out.sha256_hex token) at)
          pure (
              on_result found
                (λ expected.
                  let provided = trim_space (r.header (text "X-CSRF-Token")) in
                  if not (length expected == length provided) || not (text_eq expected provided)
                  then some (failure 403 (text "csrf_failed"))
                  else if not (valid_request_origin out cfg r)
                  then some (failure 403 (text "origin_failed"))
                  else none)
                (λ e. some (failure 401 (text "unauthorized")))))
        (pure (some (failure 401 (text "unauthorized"))))

  -- The token, the CSRF token and the end of a new session.
  unfoldable pub create_session : Request → ℕ → H (Option (Text × Text × ℕ))
  unfolding ◌>>=◌ random_token request_ip Sessions.create_session
  create_session r user_id = do
    token ← random_token
    on_option token
        (λ t. do
          csrf_token ← random_token
          on_option csrf_token
              (λ k. do
                at ← now
                saved ← store (
                    Sessions.create_session c user_id (out.sha256_hex t) k (at + cfg.session_ttl)
                      r.user_agent (request_ip out cfg r))
                pure (on_result saved (λ _. some (t, k, at + cfg.session_ttl)) (λ e. none)))
              (pure none))
        (pure none)

  unfoldable pub create_desktop_sso_ticket : Request → ℕ → H (Option Text)
  unfolding ◌>>=◌ random_token request_ip save_desktop_sso_ticket
  create_desktop_sso_ticket r user_id = do
    ticket ← random_token
    on_option ticket
        (λ t. do
          at ← now
          saved ← store (
              save_desktop_sso_ticket c user_id (out.sha256_hex t) (at + cfg.desktop_ticket_ttl)
                (request_ip out cfg r) r.user_agent)
          pure (on_result saved (λ _. some t) (λ e. none)))
        (pure none)

  -- What the handlers do after a session is created: TouchLastLogin, and the entry in the log.
  unfoldable pub welcome : Request → User → Text → H User
  unfolding ◌>>=◌ log_login successful_login touch_last_login
  welcome r user method = do
    at ← now
    store (touch_last_login user.id at)
    log_login r (successful_login user method)
    pure (record user { last_login_at = some at })

  -- The refusal of a disabled user, or of a failed lookup.
  unfoldable pub refusal : Error → Reply
  unfolding text
  refusal not_found = failure 401 (text "unauthorized")
  refusal (disabled_user u) = failure 403 (text "account_disabled")
  refusal driver = failure 500 (text "server_error")

  unfoldable pub me : Request → H Response
  unfolding ◌>>=◌ current_user refusal
  me r = do found ← current_user r; reply (on_result found (λ user. user_reply user none) refusal)

  unfoldable pub csrf : Request → H Response
  unfolding ◌>>=◌ session_token find_session_csrf text
  csrf r =
      on_option (session_token r)
        (λ token. do
          at ← now
          found ← store (find_session_csrf c (out.sha256_hex token) at)
          reply (on_result found csrf_reply (λ e. failure 401 (text "unauthorized"))))
        (reply (failure 401 (text "unauthorized")))

  -- The revocation of the session of the cookie, whose failure is ignored.
  unfoldable pub revoke_cookie : Request → H (Unit {0})
  unfolding ◌>>=◌ revoke_session is_blank
  revoke_cookie r =
      on_option r.session_cookie
        (λ value.
          if is_blank value
          then pure tt
          else (do store (revoke_session c (out.sha256_hex value)); pure tt))
        (pure tt)

  unfoldable pub log_out : Request → H Response
  unfolding ◌>>=◌ revoke_cookie
  log_out r = do revoke_cookie r; pure (record { reply = done; cookie = expired_cookie })

  unfoldable pub logout : Request → H Response
  unfolding ◌>>=◌ session_token require_csrf log_out
  logout r =
      on_option (session_token r)
        (λ token. do refused ← require_csrf r; on_option refused reply (log_out r)) (log_out r)
