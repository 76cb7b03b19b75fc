-- ===== src/Auth/Server/Market.antt =====
-- internal/auth/server.go: marketProxy, which forwards requests to the market server. What
-- net/http/httputil adds to a request behind the director (X-Forwarded-For, the removal of
-- hop-by-hop headers) is the library's.
use zenmind_official_server.Base.{
  ℕ, Bool, not, ◌&&◌, ◌||◌, Option, none, some, List, [], ◌∷◌, ◌++◌, if◌then◌else◌, drop, length,
  reverse,
}
use zenmind_official_server.Text.{Text, text, text_eq, is_blank, has_prefix}
use zenmind_official_server.Auth.Avatar.{AvatarProxy}
use zenmind_official_server.Auth.Jwt.{
  Keys, IdentityJwtSigner, Issued, issued, refused, configured, issue_with_policy,
}
use zenmind_official_server.Auth.Store.Defs.{User, Collation}
use zenmind_official_server.Auth.Store.Monad.{Error, not_found, disabled_user, driver}
use zenmind_official_server.Auth.Server.Defs.{
  Url, Outside, Config, Request, Reply, H, ◌>>=◌, pure, now, on_result, on_option,
}
use zenmind_official_server.Auth.Server.Requests.{equal_fold}
use zenmind_official_server.Auth.Server.Cookies.{session_token, current_user, require_csrf}
use zenmind_official_server.Auth.Server.Tokens.{token_user}

-- The headers of a request, an entry for each value.
abbrev pub Headers : Type 0
Headers = List (Text × Text)

pub record MarketRequest : Type 0 where
  pub request : Request
  pub method : Text
  pub path : Text
  pub raw_query : Text
  pub headers : Headers

-- What the director hands over to the transport.
pub record Outgoing : Type 0 where
  pub scheme : Text
  pub host : Text
  pub path : Text
  pub raw_query : Text
  pub headers : Headers

-- The fields of Server that only marketProxy reads.
pub record MarketConfig : Type 0 where
  pub market_server_url : Text
  pub market_jwt_audience : Text
  pub market_jwt_ttl : ℕ

pub data MarketReply : Type 0 where
  failure : ℕ → Text → MarketReply
  csrf_refused : Reply → MarketReply
  -- the answer of the market server to the request, or 502
  forwarded : Outgoing → MarketReply

-- header.Del(name)
unfoldable pub del : Text → Headers → Headers
unfolding equal_fold
del name [] = []
del name (h ∷ hs) = let rest = del name hs in if equal_fold h.0 name then rest else h ∷ rest

unfoldable pub del_all : List Text → Headers → Headers
unfolding del
del_all [] hs = hs
del_all (name ∷ names) hs = del_all names (del name hs)

unfoldable pub strip_identity_headers : Headers → Headers
unfolding del_all text
strip_identity_headers hs =
    del_all
      (text "Authorization"
        ∷ text "X-ZenMind-User-ID"
        ∷ text "X-ZenMind-User-Email"
        ∷ text "X-ZenMind-User-Role"
        ∷ text "X-ZenMind-Market-Proxy-Token"
        ∷ text "X-Forwarded-User"
        ∷ text "X-Forwarded-Email"
        ∷ text "X-Forwarded-Groups"
        ∷ text "X-Authentik-Username"
        ∷ text "X-Authentik-Email"
        ∷ text "X-Authentik-Name"
        ∷ text "X-Authentik-Uid"
        ∷ [])
      hs

unfoldable pub is_unsafe_method : Text → Bool
unfolding text text_eq
is_unsafe_method method =
    not (
      text_eq method (text "GET")
      || text_eq method (text "HEAD")
      || text_eq method (text "OPTIONS"))

unfoldable pub single_joining_slash : Text → Text → Text
unfolding has_prefix text
single_joining_slash left right =
    let left_slash = has_prefix (reverse left) (text "/") in
    let right_slash = has_prefix right (text "/") in
    if left_slash && right_slash
    then left ++ drop 1 right
    else if not left_slash && not right_slash
    then left ++ text "/" ++ right
    else left ++ right

unfoldable pub trim_prefix : Text → Text → Text
unfolding has_prefix
trim_prefix s prefix = if has_prefix s prefix then drop (length prefix) s else s

-- proxy.Director, with the token or ""
unfoldable pub director : Url → MarketRequest → Text → Outgoing
unfolding strip_identity_headers del trim_prefix single_joining_slash is_blank text
director target r gateway_token =
    let suffix = trim_prefix r.path (text "/api/market") in
    let clean = del (text "Cookie") (strip_identity_headers r.headers) in
    record {
      scheme = target.scheme;
      host = target.host;
      path =
          single_joining_slash target.path
            (text "/api" ++ (if is_blank suffix then text "/" else suffix));
      raw_query = r.raw_query;
      headers =
          if is_blank gateway_token
          then clean
          else clean ++ (text "Authorization", text "Bearer " ++ gateway_token) ∷ [];
    }

abbrev pub or_empty : Option Text → Text
or_empty none = []
or_empty (some s) = s

module _ (k : Keys) (s : IdentityJwtSigner k.Key) (p : AvatarProxy) (m : MarketConfig) where
  module _ (c : Collation) (out : Outside) (cfg : Config) where
    unfoldable pub forward_token : Url → MarketRequest → Issued → MarketReply
    unfolding text
    forward_token target r (issued t) = forwarded (director target r t.token)
    forward_token target r (refused e) = failure 503 (text "market_not_configured")

    -- A request of somebody who is logged in.
    unfoldable pub forward_user : Url → MarketRequest → User → H MarketReply
    unfolding ◌>>=◌ text
    forward_user target r user = do
      at ← now
      result ←
          issue_with_policy k s (token_user out p user) at
            (out.sha256_hex (or_empty (session_token r.request))) (m.market_jwt_audience ∷ [])
            (text "market") m.market_jwt_ttl 0
      pure (forward_token target r result)

    unfoldable pub market_user : Url → MarketRequest → User → H MarketReply
    unfolding ◌>>=◌
    market_user target r user =
        if is_unsafe_method r.method
        then (do
          barred ← require_csrf c out cfg r.request
          on_option barred (λ answer. pure (csrf_refused answer)) (forward_user target r user))
        else forward_user target r user

    unfoldable pub market_nobody : Url → MarketRequest → Error → MarketReply
    unfolding text
    market_nobody target r not_found = forwarded (director target r [])
    market_nobody target r (disabled_user u) = failure 403 (text "account_disabled")
    market_nobody target r driver = failure 403 (text "account_disabled")

    unfoldable pub market_proxy : MarketRequest → H MarketReply
    unfolding ◌>>=◌ text
    market_proxy r =
        if is_blank m.market_server_url || not (configured k s)
        then pure (failure 503 (text "market_not_configured"))
        else on_option (out.parse_url m.market_server_url)
            (λ target. do
              found ← current_user c out cfg r.request
              on_result found (market_user target r) (λ e. pure (market_nobody target r e)))
            (pure (failure 503 (text "market_not_configured")))
