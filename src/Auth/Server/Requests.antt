-- ===== src/Auth/Server/Requests.antt =====
-- internal/auth/request_security.go and internal/auth/server.go: where a request comes from, and
-- the texts of a request that a handler checks.
use zenmind_official_server.Base.{
  ℕ, Bool, true, false, not, ◌&&◌, ◌||◌, Option, none, some, List, [], ◌∷◌, ◌++◌, if◌then◌else◌,
  leb, ltb, ◌==◌,
}
use zenmind_official_server.Text.{
  Text, text, text_eq, trim_space, to_lower, is_blank, has_prefix, contains_byte, split,
  normalize_email,
}
use zenmind_official_server.Auth.Email.{valid_email}
use zenmind_official_server.Auth.Store.Defs.{AuthentikIdentity}
use zenmind_official_server.Auth.Server.Defs.{Outside, Config, Request, on_option}

-- strings.EqualFold
unfoldable pub equal_fold : Text → Text → Bool
unfolding to_lower text_eq
equal_fold a b = text_eq (to_lower a) (to_lower b)

abbrev pub or_blank : Option Text → Text
or_blank (some s) = s
or_blank none = []

abbrev pub first_part : List Text → Text
first_part [] = []
first_part (s ∷ ss) = s

-- headerFirst
unfoldable pub header_first : Request → List Text → Text
unfolding trim_space is_blank
header_first r [] = []
header_first r (name ∷ names) =
    let rest = header_first r names in
    let value = trim_space (r.header name) in if not (is_blank value) then value else rest

-- normalizeDesktopSSOProvider
abbrev pub is_name_byte : ℕ → Bool
is_name_byte c = (leb b'a' c && leb c b'z') || (leb b'0' c && leb c b'9') || c == b'_' || c == b'-'

unfoldable pub filter_name : Text → Text
filter_name [] = []
filter_name (c ∷ s) = let rest = filter_name s in if is_name_byte c then c ∷ rest else rest

unfoldable pub normalize_desktop_sso_provider : Text → Text
unfolding to_lower trim_space is_blank text filter_name
normalize_desktop_sso_provider value =
    let value' = to_lower (trim_space value) in
    if is_blank value'
    then text "first_party"
    else if is_blank (filter_name value')
    then text "first_party"
    else filter_name value'

unfoldable pub desktop_sso_auth_method : Config → Text
unfolding normalize_desktop_sso_provider text
desktop_sso_auth_method cfg =
    text "desktop_" ++ normalize_desktop_sso_provider cfg.desktop_sso_provider

-- isTrustedDesktopSsoBridgeRequest
unfoldable pub is_trusted_bridge : Config → Request → Bool
unfolding is_blank text_eq trim_space text
is_trusted_bridge cfg r =
    not (is_blank cfg.sso_bridge_token)
    && text_eq (trim_space (r.header (text "X-ZenMind-SSO-Bridge-Token"))) cfg.sso_bridge_token

-- authentikIdentityFromRequest
unfoldable pub authentik_identity : Request → AuthentikIdentity
unfolding header_first normalize_email is_blank valid_email text
authentik_identity r =
    let username = header_first r (text "X-Authentik-Username" ∷ []) in
    let email = normalize_email (header_first r (text "X-Authentik-Email" ∷ [])) in
    record {
      subject =
          header_first r
            (text "X-Authentik-Uid" ∷ text "X-Authentik-Subject" ∷ text "X-Authentik-User-Id" ∷ []);
      email = if is_blank email && valid_email username then normalize_email username else email;
      name = header_first r (text "X-Authentik-Name" ∷ []);
      username = username;
      picture = header_first r (text "X-Authentik-Picture" ∷ text "X-Authentik-Avatar" ∷ []);
    }

module _ (out : Outside) where
  unfoldable pub valid_header_ip : Text → Text
  unfolding trim_space is_blank
  valid_header_ip value =
      if is_blank (trim_space value) then [] else or_blank (out.parse_addr (trim_space value))

  -- firstValidForwardedIP, over the parts of the header
  unfoldable pub first_valid_ip : List Text → Text
  unfolding valid_header_ip is_blank
  first_valid_ip [] = []
  first_valid_ip (part ∷ parts) =
      let rest = first_valid_ip parts in
      let ip = valid_header_ip part in if not (is_blank ip) then ip else rest

  unfoldable pub valid_remote_ip : Text → Text
  unfolding valid_header_ip trim_space is_blank
  valid_remote_ip value =
      if is_blank (trim_space value)
      then []
      else valid_header_ip
          (on_option (out.split_host (trim_space value)) (λ host. host) (trim_space value))

  unfoldable pub in_prefixes : Text → List Text → Bool
  in_prefixes addr [] = false
  in_prefixes addr (p ∷ ps) = out.prefix_contains p addr || in_prefixes addr ps

  unfoldable pub is_ip_in_prefixes : Text → List Text → Bool
  unfolding in_prefixes
  is_ip_in_prefixes value prefixes =
      on_option (out.parse_addr value) (λ addr. in_prefixes addr prefixes) false

  unfoldable pub request_ip : Config → Request → Text
  unfolding valid_remote_ip is_ip_in_prefixes first_valid_ip valid_header_ip is_blank split text
  request_ip cfg r =
      let remote = valid_remote_ip r.remote_addr in
      let forwarded = first_valid_ip (split b',' (r.header (text "X-Forwarded-For"))) in
      let real = valid_header_ip (r.header (text "X-Real-IP")) in
      if is_blank remote || not (is_ip_in_prefixes remote cfg.trusted_proxies)
      then remote
      else if not (is_blank forwarded)
      then forwarded
      else if not (is_blank real)
      then real
      else remote

  -- The scheme under which the server was called.
  unfoldable pub request_scheme : Config → Request → Text
  unfolding is_ip_in_prefixes valid_remote_ip trim_space split text text_eq
  request_scheme cfg r =
      let direct = if r.tls then text "https" else text "http" in
      let forwarded = trim_space (first_part (split b',' (r.header (text "X-Forwarded-Proto")))) in
      if is_ip_in_prefixes (valid_remote_ip r.remote_addr) cfg.trusted_proxies
        && (text_eq forwarded (text "http") || text_eq forwarded (text "https"))
      then forwarded
      else direct

  unfoldable pub valid_request_origin : Config → Request → Bool
  unfolding trim_space is_blank text request_scheme equal_fold
  valid_request_origin cfg r =
      let raw = trim_space (r.header (text "Origin")) in
      if is_blank raw
      then true
      else on_option (out.parse_url raw)
          (λ origin.
            if is_blank origin.scheme || is_blank origin.host
            then false
            else if equal_fold raw (request_scheme cfg r ++ text "://" ++ r.host)
            then true
            else not (is_blank cfg.auth_origin) && equal_fold raw cfg.auth_origin)
          false

  unfoldable pub safe_relative_redirect : Text → Text
  unfolding trim_space is_blank has_prefix contains_byte text
  safe_relative_redirect value =
      let v = trim_space value in
      if is_blank v
        || has_prefix v (text "//")
        || contains_byte 13 v
        || contains_byte 10 v
        || contains_byte 92 v
      then text "/"
      else on_option (out.parse_url v)
          (λ parsed.
            if not (is_blank parsed.scheme)
              || not (is_blank parsed.host)
              || not (has_prefix parsed.path (text "/"))
            then text "/"
            else out.url_string parsed)
          (text "/")

  unfoldable pub is_allowed_desktop_callback_url : Text → Bool
  unfolding trim_space to_lower is_blank text text_eq
  is_allowed_desktop_callback_url value =
      on_option (out.parse_url (trim_space value))
        (λ parsed.
          let hostname = to_lower parsed.hostname in
          if not (text_eq parsed.scheme (text "http"))
            || (not (text_eq hostname (text "127.0.0.1"))
                && not (text_eq hostname (text "localhost")))
            || is_blank parsed.port
          then false
          else on_option (out.parse_port parsed.port)
              (λ port.
                if leb port 0 || ltb 65535 port
                then false
                else if not (text_eq parsed.path (text "/api/auth/oidc/callback"))
                then false
                else not parsed.has_user && is_blank parsed.raw_query && is_blank parsed.fragment)
              false)
        false
