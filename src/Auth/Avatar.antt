-- ===== src/Auth/Avatar.antt =====
-- internal/auth/avatar_proxy.go: the settings of the proxy and the URLs of the avatars. NewServer
-- always makes a proxy, so the tests for a nil one are left out.
pub mod Download
pub mod Cache
pub mod Files
pub mod Owners
pub mod Laws
use zenmind_official_server.Base.{
  ℕ, ◌+◌, ◌*◌, Bool, true, false, not, ◌&&◌, ◌||◌, Option, none, some, List, [], ◌∷◌, ◌++◌,
  if◌then◌else◌, ◌==◌, take, length, ltb,
}
use zenmind_official_server.Text.{Text, text, text_eq, trim_space, to_lower, is_blank}
use zenmind_official_server.Text.Decimal.{format_int}
use zenmind_official_server.Text.Parts.{mem}
use zenmind_official_server.Auth.RateLimiter.{minute}
use zenmind_official_server.Auth.Store.Defs.{User}
use zenmind_official_server.Auth.Server.Defs.{Url, Outside, on_option}

pub record AvatarProxyConfig : Type 0 where
  pub enabled : Bool
  pub public_origin : Text
  pub allowed_origins : List Text
  pub cache_dir : Text
  pub cache_ttl : ℕ
  pub fetch_timeout : ℕ
  pub max_bytes : ℕ

-- The map of the allowed origins is the list of its keys.
pub record AvatarProxy : Type 0 where
  pub configured : Bool
  pub enabled : Bool
  pub public_origin : Text
  pub allowed_origins : List Text
  pub cache_dir : Text
  pub cache_ttl : ℕ
  pub max_bytes : ℕ
  -- the timeout of the HTTP client
  pub fetch_timeout : ℕ

abbrev pub or_else : ℕ → ℕ → ℕ
or_else n fallback = if n == 0 then fallback else n

unfoldable pub origin_of : Url → Text
unfolding text to_lower
origin_of u = to_lower (u.scheme ++ text "://" ++ u.host)

module _ (out : Outside) where
  -- "" if it is no HTTPS origin
  unfoldable pub normalize_avatar_origin : Text → Text
  unfolding trim_space text text_eq is_blank
  normalize_avatar_origin value =
      on_option (out.parse_url (trim_space value))
        (λ parsed.
          if not (text_eq parsed.scheme (text "https"))
            || is_blank parsed.host
            || parsed.has_user
            || (not (is_blank parsed.path) && not (text_eq parsed.path (text "/")))
            || not (is_blank parsed.raw_query)
            || not (is_blank parsed.fragment)
          then []
          else origin_of parsed)
        []

  unfoldable pub normalize_avatar_origins : List Text → List Text
  unfolding normalize_avatar_origin is_blank
  normalize_avatar_origins [] = []
  normalize_avatar_origins (value ∷ values) =
      let rest = normalize_avatar_origins values in
      let origin = normalize_avatar_origin value in
      if not (is_blank origin) then origin ∷ rest else rest

  unfoldable pub new_avatar_proxy : AvatarProxyConfig → AvatarProxy
  unfolding normalize_avatar_origin normalize_avatar_origins is_blank trim_space text
  new_avatar_proxy config =
      let public_origin = normalize_avatar_origin config.public_origin in
      let allowed_origins = normalize_avatar_origins config.allowed_origins in
      let cache_dir = trim_space config.cache_dir in
      record {
        configured = config.enabled;
        enabled =
            config.enabled && not (is_blank public_origin) && not (length allowed_origins == 0);
        public_origin = public_origin;
        allowed_origins = allowed_origins;
        cache_dir = if is_blank cache_dir then text "/data/avatars" else cache_dir;
        cache_ttl = or_else config.cache_ttl (1440 * minute);
        max_bytes = or_else config.max_bytes (1024 * 1024);
        fetch_timeout = or_else config.fetch_timeout 10_000_000_000;
      }

  -- Whether sourceURL returns true; its URL is not used.
  unfoldable pub source_url : AvatarProxy → Text → Bool
  unfolding trim_space text text_eq is_blank origin_of mem
  source_url p value =
      if not p.enabled
      then false
      else on_option (out.parse_url (trim_space value))
          (λ parsed.
            if not (text_eq parsed.scheme (text "https")) || is_blank parsed.host || parsed.has_user
            then false
            else mem (origin_of parsed) p.allowed_origins)
          false

  -- hex.EncodeToString(sum[:12]) is the first half of 24 digits.
  unfoldable pub avatar_version : User → Text
  unfolding format_int trim_space
  avatar_version user =
      take 24 (out.sha256_hex (format_int user.id ++ 0 ∷ trim_space user.avatar_url))

  unfoldable pub public_url : AvatarProxy → User → Text
  unfolding trim_space is_blank source_url avatar_version text
  public_url p user =
      let raw_url = trim_space user.avatar_url in
      if is_blank raw_url
      then []
      else if not p.configured
      then raw_url
      else if not p.enabled
      then []
      else if user.id == 0
      then []
      else if not (source_url p user.avatar_url)
      then []
      else p.public_origin ++ text "/api/auth/avatar/" ++ avatar_version user
