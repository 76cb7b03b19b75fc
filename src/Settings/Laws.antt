-- ===== src/Settings/Laws.antt =====
-- Which settings are accepted, and that the server takes them as they were checked.
use zenmind_official_server.Base.{
  ℕ, ◌≡◌, refl, true, false, not, none, List, [], ◌∷◌, ◌++◌, ◌⊎◌, inl, inr, ◌↔◌, ◌==◌, length, all,
  arith, Option-cases,
}
use zenmind_official_server.Text.{Text, text, trim_space, to_lower, is_blank}
use zenmind_official_server.Text.Parts.Laws.{distinct-split_again}
use zenmind_official_server.Auth.Server.Defs.{Url}
use zenmind_official_server.Auth.Avatar.{
  origin_of, normalize_avatar_origin, normalize_avatar_origins, new_avatar_proxy,
}
use zenmind_official_server.Auth.Jwt.{normalize_jwt_audiences}
use zenmind_official_server.Settings.{
  Env, Settings, csv_env, env, is_https_origin, settings_from_env, avatar_proxy_config,
  check_avatar_proxy, check_admin, check_settings, from_env,
}

is_blank-to_lower : (s t r : Text) (c : ℕ) → is_blank (to_lower ((s ++ c ∷ t) ++ r)) ≡ false
unfolding to_lower is_blank
is_blank-to_lower [] t r c = refl
is_blank-to_lower (d ∷ s) t r c = refl

origin_of_ink : (u : Url) → is_blank (origin_of u) ≡ false
unfolding origin_of text
origin_of_ink u = is_blank-to_lower u.scheme (b'/' ∷ b'/' ∷ []) u.host b':'

module _ (e : Env) where
  -- The signer of the tokens takes a list of the environment as it was read: normalizeJWTAudiences
  -- changes nothing of what csvEnv returns.
  normalize_jwt_audiences-csv_env :
      (key fallback : Text)
      → normalize_jwt_audiences (csv_env e key fallback) ≡ csv_env e key fallback
  unfolding normalize_jwt_audiences csv_env
  normalize_jwt_audiences-csv_env key fallback = distinct-split_again b',' (env e key fallback)

  -- What FromEnv asks for.
  abbrev pub IsComplete : Settings → Text → Type 0
  IsComplete cfg password =
      ((is_blank cfg.database_url ≡ false) ⊎ (is_blank password ≡ false))
      × (is_blank cfg.init_admin_email ≡ false)
      × (is_blank cfg.init_admin_password ≡ false)

  -- What it asks for the avatar proxy, if this is on.
  abbrev pub HasOrigins : Settings → Type 0
  HasOrigins cfg =
      (is_https_origin e cfg.auth_public_origin ≡ true)
      × ((length cfg.avatar_upstream_origins == 0) ≡ false)
      × (all (is_https_origin e) cfg.avatar_upstream_origins ≡ true)

  check_avatar_proxy_iff :
      (cfg : Settings)
      → (check_avatar_proxy e cfg ≡ none) ↔ ((cfg.avatar_proxy_enabled ≡ false) ⊎ HasOrigins cfg)
  unfolding check_avatar_proxy
  check_avatar_proxy_iff cfg = ground arith

  check_settings_iff :
      (cfg : Settings) (password : Text)
      → ((check_settings e cfg password).1 ≡ none)
        ↔ (IsComplete cfg password × ((cfg.avatar_proxy_enabled ≡ false) ⊎ HasOrigins cfg))
  unfolding check_settings check_admin check_avatar_proxy
  check_settings_iff cfg password = ground arith

  -- FromEnv returns no error exactly if DATABASE_URL or MYSQL_PASSWORD is set, the address and the
  -- password of the first administrator are set, and, where the avatar proxy is on, the public
  -- origin is an HTTPS origin and there are upstream origins, all of them HTTPS origins.
  pub from_env_iff :
      let cfg = settings_from_env e in
      ((from_env e).1 ≡ none) ↔ (
        IsComplete cfg (e.getenv (text "MYSQL_PASSWORD"))
        × ((cfg.avatar_proxy_enabled ≡ false) ⊎ HasOrigins cfg))
  unfolding from_env
  from_env_iff = check_settings_iff (settings_from_env e) (e.getenv (text "MYSQL_PASSWORD"))

  normalize_avatar_origin-is_https_origin :
      (value : Text)
      → is_blank (normalize_avatar_origin e.outside value) ≡ not (is_https_origin e value)
  unfolding normalize_avatar_origin is_https_origin
  normalize_avatar_origin-is_https_origin value =
      elim (Option-cases (e.outside.parse_url (trim_space value))) [
        | inl bad ↦ rw bad refl
        | inr (u, parsed) ↦ rw parsed (ground (arith, origin_of_ink u))
      ]

  normalize_avatar_origins-length :
      (values : List Text)
      → all (is_https_origin e) values ≡ true
      → length (normalize_avatar_origins e.outside values) ≡ length values
  unfolding normalize_avatar_origins all
  normalize_avatar_origins-length [] h = refl
  normalize_avatar_origins-length (v ∷ vs) h =
      ground (arith, normalize_avatar_origin-is_https_origin v, normalize_avatar_origins-length vs)

  new_avatar_proxy-enabled :
      (cfg : Settings)
      → cfg.avatar_proxy_enabled ≡ true
      → HasOrigins cfg
      → let p = new_avatar_proxy e.outside (avatar_proxy_config cfg) in
        (p.enabled ≡ true) × (length p.allowed_origins ≡ length cfg.avatar_upstream_origins)
  unfolding new_avatar_proxy avatar_proxy_config
  new_avatar_proxy-enabled cfg on (public, some_there, good) =
      let kept = normalize_avatar_origins-length cfg.avatar_upstream_origins good in
      (
        rw
            (
              on,
              normalize_avatar_origin-is_https_origin cfg.auth_public_origin,
              public,
              kept,
              some_there,
            )
            refl,
        kept,
      )

  check_settings-HasOrigins :
      (cfg : Settings) (password : Text)
      → (check_settings e cfg password).1 ≡ none
      → (check_settings e cfg password).0.avatar_proxy_enabled ≡ true
      → HasOrigins (check_settings e cfg password).0
  unfolding check_settings check_admin check_avatar_proxy
  check_settings-HasOrigins cfg password h on = ground arith

  -- An avatar proxy that the settings turn on is on: where FromEnv returns no error with it, the
  -- proxy of the server is enabled, and every upstream origin is allowed.
  from_env-enables :
      let cfg = (from_env e).0 in
      (from_env e).1 ≡ none
      → cfg.avatar_proxy_enabled ≡ true
      → let p = new_avatar_proxy e.outside (avatar_proxy_config cfg) in
        (p.enabled ≡ true) × (length p.allowed_origins ≡ length cfg.avatar_upstream_origins)
  unfolding from_env
  from_env-enables h on =
      let password = e.getenv (text "MYSQL_PASSWORD") in
      new_avatar_proxy-enabled (check_settings e (settings_from_env e) password).0 on
        (check_settings-HasOrigins (settings_from_env e) password h on)
