-- ===== src/Settings.antt =====
-- internal/config/config.go: the settings from the environment.
pub mod Laws
use zenmind_official_server.Base.{
  ℕ, ◌*◌, Bool, true, false, not, ◌&&◌, ◌||◌, Option, none, some, List, [], ◌∷◌, ◌++◌, reverse,
  if◌then◌else◌, ◌==◌, length, all,
}
use zenmind_official_server.Text.{Text, text, text_eq, trim_space, is_blank, split}
use zenmind_official_server.Text.Parts.{mem, distinct}
use zenmind_official_server.Auth.RateLimiter.{minute}
use zenmind_official_server.Auth.Server.Defs.{Outside, on_option}
use zenmind_official_server.Auth.Avatar.{AvatarProxyConfig}

-- The environment and the parsers of the library; durations that are not positive are 0, which is
-- how the server takes them.
pub record Env : Type 0 where
  -- os.Getenv
  pub getenv : Text → Text
  -- time.ParseDuration
  pub parse_duration : Text → Option ℕ
  -- strconv.ParseInt(s, 10, 64), of the values that are not negative
  pub parse_int : Text → Option ℕ
  pub outside : Outside

pub record Settings : Type 0 where
  pub addr : Text
  pub database_url : Text
  pub init_admin_email : Text
  pub init_admin_password : Text
  pub cookie_name : Text
  pub cookie_secure : Bool
  pub session_ttl : ℕ
  pub trusted_proxy_cidrs : List Text
  pub google_client_id : Text
  pub google_desktop_id : Text
  pub google_secret : Text
  pub google_redirect_url : Text
  pub sso_bridge_token : Text
  pub desktop_sso_provider : Text
  pub desktop_sso_ticket_ttl : ℕ
  pub sso_jwt_private_key_file : Text
  pub sso_jwt_private_key_pem : Text
  pub sso_jwt_issuer : Text
  pub sso_jwt_audiences : List Text
  pub sso_jwt_key_id : Text
  pub sso_jwt_ttl : ℕ
  pub market_jwt_audience : Text
  pub market_jwt_ttl : ℕ
  pub auth_login_url : Text
  pub auth_success_url : Text
  pub auth_failure_url : Text
  pub auth_public_origin : Text
  pub avatar_proxy_enabled : Bool
  pub avatar_upstream_origins : List Text
  pub avatar_cache_dir : Text
  pub avatar_cache_ttl : ℕ
  pub avatar_fetch_timeout : ℕ
  pub avatar_max_bytes : ℕ
  pub smtp_host : Text
  pub smtp_port : Text
  pub smtp_username : Text
  pub smtp_password : Text
  pub smtp_from : Text
  pub market_server_url : Text
  pub market_proxy_token : Text
  pub sqlite_db_path : Text
  pub updates_dir : Text

pub data ConfigError : Type 0 where
  -- DATABASE_URL or MYSQL_PASSWORD is required
  database_missing : ConfigError
  -- INIT_ADMIN_EMAIL and INIT_ADMIN_PASSWORD are required
  admin_missing : ConfigError
  -- AUTH_PUBLIC_ORIGIN must be an HTTPS origin
  public_origin_invalid : ConfigError
  -- AVATAR_UPSTREAM_ORIGINS is required, or contains an invalid HTTPS origin
  upstream_missing : ConfigError
  upstream_invalid : ConfigError

-- strings.TrimRight(s, "/")
unfoldable pub drop_slashes : Text → Text
drop_slashes [] = []
drop_slashes (c ∷ s) = let rest = drop_slashes s in if c == b'/' then rest else c ∷ s

unfoldable pub trim_right_slashes : Text → Text
unfolding drop_slashes
trim_right_slashes s = reverse (drop_slashes (reverse s))

-- strconv.ParseBool
unfoldable pub parse_bool : Text → Option Bool
unfolding mem text
parse_bool s =
    if mem s (text "1" ∷ text "t" ∷ text "T" ∷ text "TRUE" ∷ text "true" ∷ text "True" ∷ [])
    then some true
    else if mem s (text "0" ∷ text "f" ∷ text "F" ∷ text "FALSE" ∷ text "false" ∷ text "False" ∷ [])
    then some false
    else none

-- The settings of the avatar proxy that the server is started with.
unfoldable pub avatar_proxy_config : Settings → AvatarProxyConfig
avatar_proxy_config cfg = record {
  enabled = cfg.avatar_proxy_enabled;
  public_origin = cfg.auth_public_origin;
  allowed_origins = cfg.avatar_upstream_origins;
  cache_dir = cfg.avatar_cache_dir;
  cache_ttl = cfg.avatar_cache_ttl;
  fetch_timeout = cfg.avatar_fetch_timeout;
  max_bytes = cfg.avatar_max_bytes;
}

module _ (e : Env) where
  unfoldable pub env : Text → Text → Text
  unfolding is_blank
  env key fallback = let value = e.getenv key in if is_blank value then fallback else value

  unfoldable pub csv_env : Text → Text → List Text
  unfolding env distinct split
  csv_env key fallback = distinct (split b',' (env key fallback))

  unfoldable pub env_bool : Text → Bool → Bool
  unfolding is_blank parse_bool
  env_bool key fallback =
      let value = e.getenv key in
      if is_blank value then fallback else on_option (parse_bool value) (λ b. b) fallback

  unfoldable pub env_duration : Text → ℕ → ℕ
  unfolding is_blank
  env_duration key fallback =
      let value = e.getenv key in
      if is_blank value then fallback else on_option (e.parse_duration value) (λ d. d) fallback

  unfoldable pub env_int64 : Text → ℕ → ℕ
  unfolding trim_space is_blank
  env_int64 key fallback =
      let value = trim_space (e.getenv key) in
      if is_blank value
      then fallback
      else on_option (e.parse_int value) (λ n. if n == 0 then fallback else n) fallback

  unfoldable pub is_https_origin : Text → Bool
  unfolding trim_space text text_eq is_blank
  is_https_origin value =
      on_option (e.outside.parse_url (trim_space value))
        (λ parsed.
          text_eq parsed.scheme (text "https")
          && not (is_blank parsed.host)
          && not parsed.has_user
          && (is_blank parsed.path || text_eq parsed.path (text "/"))
          && is_blank parsed.raw_query
          && is_blank parsed.fragment)
        false

  unfoldable pub settings_from_env : Settings
  unfolding env csv_env env_bool env_duration env_int64 trim_space trim_right_slashes text
  settings_from_env = record {
    addr = env (text "APP_ADDR") (text ":8080");
    database_url = e.getenv (text "DATABASE_URL");
    init_admin_email = e.getenv (text "INIT_ADMIN_EMAIL");
    init_admin_password = e.getenv (text "INIT_ADMIN_PASSWORD");
    cookie_name = env (text "COOKIE_NAME") (text "zenmind_session");
    cookie_secure = env_bool (text "COOKIE_SECURE") true;
    session_ttl = env_duration (text "SESSION_TTL") (1440 * minute);
    trusted_proxy_cidrs = csv_env (text "TRUSTED_PROXY_CIDRS") (text "172.20.0.0/16");
    google_client_id = e.getenv (text "GOOGLE_CLIENT_ID");
    google_desktop_id = e.getenv (text "GOOGLE_DESKTOP_CLIENT_ID");
    google_secret = e.getenv (text "GOOGLE_CLIENT_SECRET");
    google_redirect_url = e.getenv (text "GOOGLE_REDIRECT_URL");
    sso_bridge_token = e.getenv (text "SSO_BRIDGE_TOKEN");
    desktop_sso_provider = env (text "DESKTOP_SSO_PROVIDER") (text "first_party");
    desktop_sso_ticket_ttl = env_duration (text "DESKTOP_SSO_TICKET_TTL") (2 * minute);
    sso_jwt_private_key_file = trim_space (e.getenv (text "SSO_JWT_PRIVATE_KEY_FILE"));
    sso_jwt_private_key_pem = trim_space (e.getenv (text "SSO_JWT_PRIVATE_KEY_PEM"));
    sso_jwt_issuer = trim_space (e.getenv (text "SSO_JWT_ISSUER"));
    sso_jwt_audiences =
        csv_env (text "SSO_JWT_AUDIENCES") (text "market,tunnel,kanban,zenmind-im-server");
    sso_jwt_key_id = env (text "SSO_JWT_KEY_ID") (text "default");
    sso_jwt_ttl = env_duration (text "SSO_JWT_TTL") (720 * minute);
    market_jwt_audience = env (text "MARKET_JWT_AUDIENCE") (text "market");
    market_jwt_ttl = env_duration (text "MARKET_JWT_TTL") 90_000_000_000;
    auth_login_url = env (text "AUTH_LOGIN_URL") (text "/login");
    auth_success_url = env (text "AUTH_SUCCESS_URL") (text "http://localhost:5173/login");
    auth_failure_url = env (text "AUTH_FAILURE_URL") (text "http://localhost:5173/login");
    auth_public_origin = trim_right_slashes (trim_space (e.getenv (text "AUTH_PUBLIC_ORIGIN")));
    avatar_proxy_enabled = env_bool (text "AVATAR_PROXY_ENABLED") false;
    avatar_upstream_origins = csv_env (text "AVATAR_UPSTREAM_ORIGINS") [];
    avatar_cache_dir = env (text "AVATAR_CACHE_DIR") (text "/data/avatars");
    avatar_cache_ttl = env_duration (text "AVATAR_CACHE_TTL") (1440 * minute);
    avatar_fetch_timeout = env_duration (text "AVATAR_FETCH_TIMEOUT") 10_000_000_000;
    avatar_max_bytes = env_int64 (text "AVATAR_MAX_BYTES") (1024 * 1024);
    smtp_host = env (text "SMTP_HOST") (text "smtp.gmail.com");
    smtp_port = env (text "SMTP_PORT") (text "587");
    smtp_username = env (text "SMTP_USERNAME") (text "linlay.zenmind@gmail.com");
    smtp_password = e.getenv (text "SMTP_PASSWORD");
    smtp_from = env (text "SMTP_FROM") (text "linlay.zenmind@gmail.com");
    market_server_url =
        trim_right_slashes
          (env (text "MARKET_SERVER_URL") (text "http://zenmind-market-server:8088"));
    market_proxy_token = e.getenv (text "MARKET_PROXY_TOKEN");
    sqlite_db_path = env (text "SQLITE_DB_PATH") (text "/data/data.sqlite");
    updates_dir = env (text "UPDATES_DIR") (text "/data/updates");
  }

  -- fmt.Sprintf of the parts of the data source name
  unfoldable pub mysql_url : Text → Text
  unfolding env text
  mysql_url password =
      env (text "MYSQL_USER") (text "zenmind")
      ++ text ":"
      ++ password
      ++ text "@tcp("
      ++ env (text "MYSQL_HOST") (text "mysql")
      ++ text ":"
      ++ env (text "MYSQL_PORT") (text "3306")
      ++ text ")/"
      ++ env (text "MYSQL_DATABASE") (text "zenmind_website")
      ++ text "?parseTime=true&charset=utf8mb4&collation=utf8mb4_unicode_ci"

  -- The checks of the avatar proxy.
  unfoldable pub check_avatar_proxy : Settings → Option ConfigError
  unfolding is_https_origin all
  check_avatar_proxy cfg =
      if not cfg.avatar_proxy_enabled
      then none
      else if not (is_https_origin cfg.auth_public_origin)
      then some public_origin_invalid
      else if length cfg.avatar_upstream_origins == 0
      then some upstream_missing
      else if not (all is_https_origin cfg.avatar_upstream_origins)
      then some upstream_invalid
      else none

  unfoldable pub check_admin : Settings → Option ConfigError
  unfolding is_blank check_avatar_proxy
  check_admin cfg =
      if is_blank cfg.init_admin_email || is_blank cfg.init_admin_password
      then some admin_missing
      else check_avatar_proxy cfg

  -- The checks of the settings, which complete the data source name.
  unfoldable pub check_settings : Settings → Text → Settings × Option ConfigError
  unfolding is_blank mysql_url check_admin
  check_settings cfg password =
      if not (is_blank cfg.database_url)
      then (cfg, check_admin cfg)
      else if is_blank password
      then (cfg, some database_missing)
      else let cfg' = record cfg { database_url = mysql_url password } in (cfg', check_admin cfg')

  -- FromEnv: the settings with the error.
  unfoldable pub from_env : Settings × Option ConfigError
  unfolding settings_from_env check_settings text
  from_env = check_settings settings_from_env (e.getenv (text "MYSQL_PASSWORD"))
