-- ===== src/Examples/Sessions.antt =====
-- internal/auth/server.go: requests with a session.
use zenmind_official_server.Base.{◌≡◌, refl, ◌⊎◌, true, false, none, some, [], ◌∷◌}
use zenmind_official_server.Text.{Text, text, text_eq}
use zenmind_official_server.Regex.{match_string}
use zenmind_official_server.Release.Manifest.{valid_update_name, validate_desktop_manifest}
use zenmind_official_server.Release.Feeds.{UpdateFeedInput, Feeds, ok}
use zenmind_official_server.Release.Listing.{list_update_feeds, update_feed_history}
use zenmind_official_server.Auth.Avatar.{AvatarProxy}
use zenmind_official_server.Auth.Jwt.{
  Keys, IdentityJwtSigner, IdentityJwtResult, key, desktop_sso_scope, configured, issue_with_policy,
}
use zenmind_official_server.Auth.Store.Defs.{Db, User}
use zenmind_official_server.Auth.Server.Defs.{Machine, Url, Outside, desktop_success}
use zenmind_official_server.Auth.Server.Requests.{
  is_trusted_bridge, is_allowed_desktop_callback_url,
}
use zenmind_official_server.Auth.Server.Cookies.{
  require_csrf, current_user, create_desktop_sso_ticket,
}
use zenmind_official_server.Auth.Server.Tokens.{token_reply, issue_for, desktop_sso_token}
use zenmind_official_server.Auth.Server.Market.{
  MarketRequest, Outgoing, MarketConfig, forwarded, market_proxy, market_user, is_unsafe_method,
  forward_user, forward_token, director, strip_identity_headers,
}
use zenmind_official_server.Auth.Server.Updates.{
  DesktopUpdateCatalog, UpdateReply, one_object, update_admin, admin_update_save, save_admitted,
  is_admin, admit_user, save_body, save_as,
}
use zenmind_official_server.Auth.Server.Catalogs.{sqlite_catalog}
use zenmind_official_server.Auth.Server.Sso.{
  SsoRequest, clear_bridge, desktop_sso_continue, read_bridge_context, continue_with,
  finish_continue,
}
use zenmind_official_server.Auth.Server.Grants.Token.{
  Entitled, IsSessionToken, issue_time, desktop_sso_token-IsSessionToken,
}
use zenmind_official_server.Auth.Server.Grants.Market.{InName, market_proxy-InName}
use zenmind_official_server.Auth.Server.Grants.Updates.{
  IsAdministered, admin_update_save-IsAdministered,
}
use zenmind_official_server.Auth.Server.Grants.Continue.{
  Asks, IsLoggedIn, desktop_sso_continue-IsLoggedIn,
}
use zenmind_official_server.Examples.Feeds.{formats, input, feed, item, no_feeds}
use zenmind_official_server.Examples.Handlers.{outside, config, request, machine}
use zenmind_official_server.Examples.Tables.{ann, binary, one_user}

abbrev pub with_session : Db
with_session = record one_user {
  sessions =
      record {
        user_id = 1;
        token_hash = text "t";
        csrf_token = text "k";
        expires_at = 100;
        created_at = 7;
        last_seen_at = 7;
        user_agent = [];
        ip = [];
      }
      ∷ [];
}

abbrev keys : Keys
keys = record {
  Key = Text;
  read_file = some;
  pem_decode = some;
  parse_pkcs1 = some;
  parse_pkcs8 = λ s. none;
  sign = λ k id claims. some (text "jwt");
}

abbrev signer : IdentityJwtSigner Text
signer = record {
  private_key = key (text "key");
  issuer = text "iss";
  audiences = text "market" ∷ text "im" ∷ [];
  key_id = text "default";
  ttl = 60;
}

abbrev proxy : AvatarProxy
proxy = record {
  configured = false;
  enabled = false;
  public_origin = [];
  allowed_origins = [];
  cache_dir = [];
  cache_ttl = 1;
  max_bytes = 1;
  fetch_timeout = 1;
}

abbrev user : User
user = record {
  id = 1;
  email = text "ann@example.com";
  display_name = text "Ann";
  avatar_url = [];
  auth_provider = text "google";
  auth_sub = text "g-1";
  role = text "user";
  enabled = true;
  last_login_at = none;
  password_hash = [];
}

abbrev token_result : IdentityJwtResult
token_result = record {
  token = text "jwt";
  issuer = text "iss";
  audiences = text "market" ∷ text "im" ∷ [];
  scope = desktop_sso_scope;
  expires_at = 70;
}

issued_token :
    (desktop_sso_token keys signer proxy binary outside config request (machine with_session)).0
    ≡ token_reply user [] token_result
unfolding desktop_sso_token text text_eq require_csrf current_user issue_for
issued_token = refl

desktop_sso_token-IsSessionToken_example :
    let m = machine with_session in
    (token : Text) × Entitled keys signer proxy binary outside config request token user m
    × IsSessionToken keys signer proxy binary outside config request user token
        (issue_time keys signer proxy binary outside config request m)
        token_result
desktop_sso_token-IsSessionToken_example =
    desktop_sso_token-IsSessionToken keys signer proxy binary outside config request
      (machine with_session) user [] token_result issued_token

-- A host to which requests go.
abbrev url : Url
url = record {
  scheme = text "http";
  host = text "localhost:90";
  hostname = text "localhost";
  port = text "90";
  path = text "/api/auth/oidc/callback";
  raw_query = [];
  fragment = [];
  has_user = false;
}

abbrev with_url : Outside
with_url = record outside { parse_url = λ s. some url; parse_port = λ s. some 90 }

abbrev market : MarketConfig
market = record {
  market_server_url = text "http://localhost:90";
  market_jwt_audience = text "market";
  market_jwt_ttl = 90;
}

abbrev market_request : MarketRequest
market_request = record {
  request = request;
  method = text "POST";
  path = text "/api/market/items";
  raw_query = [];
  headers =
      (text "authorization", text "Bearer x")
      ∷ (text "X-Forwarded-User", text "root")
      ∷ (text "Accept", text "*/*")
      ∷ (text "Cookie", text "t")
      ∷ [];
}

abbrev sent : Outgoing
sent = record {
  scheme = text "http";
  host = text "localhost:90";
  path = text "/api/auth/oidc/callback/api/items";
  raw_query = [];
  headers = (text "Accept", text "*/*") ∷ (text "Authorization", text "Bearer jwt") ∷ [];
}

forwards :
    (market_proxy keys signer proxy market binary with_url config market_request
      (machine with_session)).0
    ≡ forwarded sent
unfolding market_proxy text text_eq require_csrf current_user configured market_user
    is_unsafe_method forward_user forward_token issue_with_policy director
forwards = refl

market_proxy-InName_example :
    (target : Url) × (with_url.parse_url market.market_server_url ≡ some target)
    × InName keys signer proxy market binary with_url config market_request target
        (machine with_session)
        sent
market_proxy-InName_example =
    market_proxy-InName keys signer proxy market binary with_url config market_request
      (machine with_session) sent forwards

-- A header with a subject that the bridge reads is not among those that are deleted.
subject_kept :
    strip_identity_headers
      ((text "X-Authentik-Subject", text "7") ∷ (text "X-Authentik-Uid", text "7") ∷ [])
    ≡ (text "X-Authentik-Subject", text "7") ∷ []
unfolding strip_identity_headers text
subject_kept = refl

-- The session is that of an administrator.
abbrev administered : Db
administered = record with_session { users = record ann { role = text "admin" } ∷ [] }

abbrev catalog : DesktopUpdateCatalog Feeds
catalog = sqlite_catalog formats 9

abbrev put_feed : (UpdateReply × Feeds) × Machine
put_feed =
    admin_update_save formats (some catalog) binary outside config (text "PUT") request feed
      (one_object input) no_feeds (machine administered)

-- The feed that the administrator has saved is listed, and its history has one item.
one_feed :
    (list_update_feeds put_feed.0.1
      ≡ ok (record item { updated_at = 9; updated_by = 1; manifest = none } ∷ []))
    × (update_feed_history formats feed put_feed.0.1
        ≡ ok (record item { updated_at = 9; updated_by = 1 } ∷ []))
unfolding list_update_feeds update_feed_history admin_update_save sqlite_catalog text text_eq
    match_string valid_update_name validate_desktop_manifest update_admin require_csrf current_user
    save_admitted is_admin admit_user save_body save_as
one_feed = (refl, refl)

admin_update_save-IsAdministered_example :
    (put_feed.0.1 ≡ no_feeds)
    ⊎ ((found : User) × (given : UpdateFeedInput) × (cat : DesktopUpdateCatalog Feeds)
        × IsAdministered formats
            (some catalog)
            binary
            outside
            config
            request
            found
            (machine administered)
        × (one_object input ≡ one_object given)
        × (some catalog ≡ some cat)
        × (put_feed.0.1 ≡ (cat.save_update_feed feed given found.id no_feeds).1))
admin_update_save-IsAdministered_example =
    admin_update_save-IsAdministered formats (some catalog) binary outside config request feed
      (one_object input) no_feeds (machine administered)

abbrev sso_request : SsoRequest
sso_request = record {
  request = record request { header = λ name. [] };
  callback_cookie = some (text "http://localhost:90/api/auth/oidc/callback");
  state_cookie = some (text "s");
}

continued :
    (desktop_sso_continue binary with_url config
      (text "/login")
      sso_request
      (machine with_session)).0.response.reply
    ≡ desktop_success (text "http://localhost:90/api/auth/oidc/callback") (text "s") (text "n")
unfolding desktop_sso_continue text text_eq current_user is_trusted_bridge read_bridge_context
    is_allowed_desktop_callback_url continue_with finish_continue create_desktop_sso_ticket
continued = refl

desktop_sso_continue-IsLoggedIn_example :
    let m = machine with_session in
    let callback = text "http://localhost:90/api/auth/oidc/callback" in
    Asks binary with_url config sso_request callback (text "s")
    × ((is_trusted_bridge config sso_request.request ≡ true)
        ⊎ IsLoggedIn binary with_url config sso_request.request m)
    × ((desktop_sso_continue binary with_url config (text "/login") sso_request m).0.bridge
        ≡ clear_bridge)
desktop_sso_continue-IsLoggedIn_example =
    desktop_sso_continue-IsLoggedIn binary with_url config (text "/login") sso_request
      (machine with_session) (text "http://localhost:90/api/auth/oidc/callback") (text "s")
      (text "n") continued
