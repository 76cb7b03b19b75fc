-- ===== src/Examples/Handlers.antt =====
-- internal/auth/server.go: requests to the handlers.
use zenmind_official_server.Base.{
  if◌then◌else◌, ◌*◌, ◌≡◌, refl, ◌↔◌, ◌⊎◌, inl, true, false, none, some, [], ◌∷◌,
}
use zenmind_official_server.Text.{Text, text, text_eq, trim_space, normalize_email, is_blank}
use zenmind_official_server.Regex.{match_string}
use zenmind_official_server.Auth.Email.{valid_email, valid_email_code, email_pattern}
use zenmind_official_server.Auth.RateLimiter.{allow, minute}
use zenmind_official_server.Auth.Store.Defs.{User, UserRow, Db, GoogleIdentity, OauthRequest}
use zenmind_official_server.Auth.Store.Monad.{Result, ok, is_ok, World}
use zenmind_official_server.Auth.Store.Codes.{consume_email_code}
use zenmind_official_server.Auth.Store.Users.Identity.{upsert_email_code_user}
use zenmind_official_server.Auth.Store.Users.Accounts.{
  find_local_user_by_email, upsert_authentik_user,
}
use zenmind_official_server.Auth.Store.Oauth.{consume_oauth_request}
use zenmind_official_server.Auth.Server.Defs.{Outside, Config, Request, Machine, session_cookie}
use zenmind_official_server.Auth.Server.Requests.{
  valid_request_origin, is_trusted_bridge, authentik_identity,
}
use zenmind_official_server.Auth.Server.Cookies.{require_csrf, session_token}
use zenmind_official_server.Auth.Server.Login.{
  LoginRequest, EmailCodeVerifyRequest, login, login_key, email_code_hash, email_code_verify,
}
use zenmind_official_server.Auth.Server.Google.{google_callback}
use zenmind_official_server.Auth.Server.Desktop.{
  DesktopSsoSessionRequest, desktop_sso_session, authentik_sso_session,
}
use zenmind_official_server.Auth.Server.Grants.Password.{login-session}
use zenmind_official_server.Auth.Server.Grants.Code.{email_code_verify-session}
use zenmind_official_server.Auth.Server.Grants.Google.{Vouched, google_callback-LetsIn}
use zenmind_official_server.Auth.Server.Grants.Desktop.{
  Redeemed, Signed, desktop_sso_session-session, authentik_sso_session-session,
}
use zenmind_official_server.Auth.Server.Grants.Logout.{Genuine, require_csrf_iff}
use zenmind_official_server.Examples.Tables.{binary, no_rows, ann, quiet}

abbrev vouched : GoogleIdentity
vouched = record {
  subject = text "g-1";
  email = text "ann@example.com";
  email_verified = true;
  name = text "Ann";
  picture = [];
}

-- Hashes that change nothing, and a Google that knows one user.
abbrev pub outside : Outside
outside = record {
  sha256_hex = λ s. s;
  sha256_base64 = λ s. s;
  password_matches = text_eq;
  parse_addr = some;
  prefix_contains = λ p a. false;
  split_host = some;
  parse_port = λ s. none;
  parse_url = λ s. none;
  url_string = λ u. [];
  google_configured = true;
  auth_code_url = λ state nonce challenge. state;
  exchange_code = λ code verifier nonce. some vouched;
  verify_id_token = λ token. some vouched;
  send_email_code = λ email code. true;
}

abbrev pub config : Config
config = record {
  session_ttl = 50;
  desktop_ticket_ttl = 20;
  trusted_proxies = [];
  auth_origin = [];
  sso_bridge_token = text "bridge";
  desktop_sso_provider = [];
}

abbrev pub header : Text → Text
header name =
    if text_eq name (text "X-ZenMind-SSO-Bridge-Token")
    then text "bridge"
    else if text_eq name (text "X-Authentik-Uid")
    then text "a-1"
    else if text_eq name (text "X-Authentik-Email")
    then text "ann@b.c"
    else if text_eq name (text "X-CSRF-Token")
    then text "k"
    else []

abbrev pub query : Text → Text
query name = if text_eq name (text "state") then text "s" else text "code"

abbrev pub request : Request
request = record {
  remote_addr = text "1";
  host = text "h";
  tls = false;
  user_agent = [];
  header = header;
  query = query;
  session_cookie = some (text "t");
}

abbrev pub machine : Db → Machine
machine db = record {
  world = quiet db 10;
  limiter = [];
  tokens = some (text "n") ∷ some (text "k") ∷ [];
  bytes = [];
}

abbrev admin_row : UserRow
admin_row = record ann {
  email = text "a@b.c";
  auth_provider = text "local";
  auth_sub = text "a@b.c";
  role = text "admin";
}

abbrev with_admin : Db
with_admin = record no_rows {
  users = admin_row ∷ [];
  credentials = record { user_id = 1; password_hash = text "pw" } ∷ [];
  next_user_id = 2;
}

abbrev credentials : LoginRequest
credentials = record { email = text "a@b.c"; password = text "pw" }

logged_in :
    (login binary outside config request (some credentials) (machine with_admin)).0.cookie
    ≡ session_cookie (text "n") 60
unfolding login text text_eq
logged_in = refl

login-session_example :
    (valid_request_origin outside config request ≡ true)
    × ((allow [] (login_key binary outside config request (text "a@b.c")) 5 (15 * minute) 10).0
        ≡ true)
    × ((user : User) × ((find_local_user_by_email binary (text "a@b.c") (quiet with_admin 10)).0
          ≡ ok user)
        × (text_eq user.password_hash (text "pw") ≡ true)
        × (user.enabled ≡ true))
login-session_example =
    login-session binary outside config request credentials (machine with_admin) (text "n") 60
      logged_in

abbrev with_code : Db
with_code = record no_rows {
  email_codes =
      record {
        id = 1;
        email = text "a@b.c";
        code_hash = text "a@b.c:123456";
        expires_at = 100;
        consumed_at = none;
        created_at = 1;
      }
      ∷ [];
}

abbrev verification : EmailCodeVerifyRequest
verification = record { email = text "A@b.c"; code = text "123456" }

verified :
    (email_code_verify binary outside config request
      (some verification)
      (machine with_code)).0.cookie
    ≡ session_cookie (text "n") 60
unfolding email_code_verify text text_eq match_string email_pattern
verified = refl

abbrev consumed : Result (Unit {0}) × World
consumed =
    consume_email_code binary (normalize_email (text "A@b.c"))
      (email_code_hash binary outside config (normalize_email (text "A@b.c"))
        (trim_space (text "123456")))
      10 (quiet with_code 10)

email_code_verify-session_example :
    (valid_request_origin outside config request ≡ true)
    × (valid_email (normalize_email (text "A@b.c")) ≡ true)
    × (valid_email_code (trim_space (text "123456")) ≡ true)
    × (is_ok consumed.0 ≡ true)
    × ((user : User) × ((upsert_email_code_user binary
            (normalize_email (text "A@b.c"))
            consumed.1).0
          ≡ ok user)
        × (user.enabled ≡ true))
email_code_verify-session_example =
    email_code_verify-session binary outside config request verification (machine with_code)
      (text "n") 60 verified

abbrev with_state : Db
with_state = record no_rows {
  oauth_requests =
      record {
        state_hash = text "s";
        request = record {
          kind = text "web";
          nonce = text "n";
          code_verifier = text "v";
          return_to = text "/";
          callback_url = [];
          desktop_state = [];
          expires_at = 100;
        };
        consumed_at = none;
        created_at = 1;
      }
      ∷ [];
}

called_back :
    (google_callback binary outside config request (machine with_state)).0.cookie
    ≡ session_cookie (text "n") 60
unfolding google_callback text text_eq match_string email_pattern
called_back = refl

abbrev taken : Result OauthRequest × World
taken = consume_oauth_request binary (trim_space (query (text "state"))) 10 (quiet with_state 10)

google_callback-LetsIn_example :
    (r : OauthRequest) × (taken.0 ≡ ok r) × Vouched binary outside config request r taken.1
google_callback-LetsIn_example =
    google_callback-LetsIn binary outside config request (machine with_state)
      (inl (text "n", 60, called_back))

bridged :
    (authentik_sso_session binary outside config request (machine no_rows)).0.cookie
    ≡ session_cookie (text "n") 60
unfolding authentik_sso_session text text_eq match_string email_pattern
bridged = refl

authentik_sso_session-session_example :
    (is_trusted_bridge config request ≡ true)
    × (is_blank (trim_space (authentik_identity request).subject) ≡ false)
    × (valid_email (authentik_identity request).email ≡ true)
    × ((user : User) × ((upsert_authentik_user binary
            (authentik_identity request)
            (quiet no_rows 10)).0
          ≡ ok user)
        × (user.enabled ≡ true))
authentik_sso_session-session_example =
    authentik_sso_session-session binary outside config request (machine no_rows) (text "n") 60
      bridged

abbrev signed : DesktopSsoSessionRequest
signed = record { provider = text "google"; id_token = text "x"; ticket = [] }

desktop_session :
    (desktop_sso_session binary outside config request (some signed) (machine no_rows)).0.cookie
    ≡ session_cookie (text "n") 60
unfolding desktop_sso_session text text_eq match_string email_pattern
desktop_session = refl

desktop_sso_session-session_example :
    (valid_request_origin outside config request ≡ true)
    × (Redeemed binary outside config request (trim_space []) (quiet no_rows 10)
        ⊎ Signed binary outside config request (trim_space (text "x")) (quiet no_rows 10))
desktop_sso_session-session_example =
    desktop_sso_session-session binary outside config request signed (machine no_rows) (text "n") 60
      desktop_session

require_csrf_iff_example :
    ((require_csrf binary outside config request (machine no_rows)).0 ≡ none)
    ↔ Genuine binary outside config request (text "t") (quiet no_rows 10)
unfolding session_token text
require_csrf_iff_example =
    require_csrf_iff binary outside config request (text "t") (machine no_rows) refl
