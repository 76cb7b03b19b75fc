-- ===== src/Auth/Jwt.antt =====
-- internal/auth/desktop_jwt.go: the identity tokens and their signer. Times are counted from the
-- zero time; the rounding of jwt.NewNumericDate to seconds is the library's.
pub mod Laws
use zenmind_official_server.Base.{
  ℕ, ◌-◌, ◌*◌, ◌/◌, Bool, true, false, not, ◌&&◌, ◌||◌, Option, none, some, List, [], ◌∷◌, ◌++◌,
  ◌+◌, if◌then◌else◌, ◌==◌, length,
}
use zenmind_official_server.Text.{Text, text, text_eq, trim_space, is_blank}
use zenmind_official_server.Text.Decimal.{format_int}
use zenmind_official_server.Text.Parts.{distinct, split_all}
use zenmind_official_server.Auth.RateLimiter.{minute}
use zenmind_official_server.Auth.Store.Defs.{User}
use zenmind_official_server.Auth.Server.Defs.{H, ◌>>=◌, pure, on_option, random_token}

pub record DesktopJwtConfig : Type 0 where
  pub private_key_file : Text
  pub private_key_pem : Text
  pub issuer : Text
  pub audiences : List Text
  pub key_id : Text
  pub ttl : ℕ

pub data JwtError : Type 0 where
  -- errDesktopJWTNotConfigured
  not_configured : JwtError
  -- a key that cannot be read
  bad_key : JwtError
  no_random : JwtError
  not_signed : JwtError

pub record IdentityClaims : Type 0 where
  pub user_id : Text
  pub email : Text
  pub name : Text
  pub picture : Text
  pub role : Text
  pub auth_provider : Text
  pub auth_sub : Text
  pub scope : Text
  pub session_id : Text
  -- 0 is left out
  pub session_started_at_ms : ℕ
  pub issuer : Text
  pub subject : Text
  pub audience : List Text
  pub expires_at : ℕ
  pub not_before : ℕ
  pub issued_at : ℕ
  pub jti : Text

-- The libraries. A key is what crypto/x509 reads.
pub record Keys : Type 1 where
  pub Key : Type 0
  -- os.ReadFile
  pub read_file : Text → Option Text
  -- the bytes of pem.Decode
  pub pem_decode : Text → Option Text
  pub parse_pkcs1 : Text → Option Key
  -- `none` if it fails, `some none` if the key is not RSA
  pub parse_pkcs8 : Text → Option (Option Key)
  -- the token with the claims, signed with RS256 under the key id
  pub sign : Key → Text → IdentityClaims → Option Text

pub data Loaded (A : Type 0) : Type 0 where
  key : A → Loaded A
  unusable : JwtError → Loaded A

pub record IdentityJwtSigner (A : Type 0) : Type 0 where
  pub private_key : Loaded A
  pub issuer : Text
  pub audiences : List Text
  pub key_id : Text
  pub ttl : ℕ

pub record IdentityJwtResult : Type 0 where
  pub token : Text
  pub issuer : Text
  pub audiences : List Text
  pub scope : Text
  pub expires_at : ℕ

pub data Issued : Type 0 where
  issued : IdentityJwtResult → Issued
  refused : JwtError → Issued

unfoldable pub normalize_jwt_audiences : List Text → List Text
unfolding distinct split_all
normalize_jwt_audiences values = distinct (split_all b',' values)

-- strings.ReplaceAll(s, `\n`, "\n")
unfoldable pub unescape_newlines : Text → Text
unescape_newlines [] = []
unescape_newlines (a ∷ []) = a ∷ []
unescape_newlines (a ∷ b ∷ s) =
    let replaced = 10 ∷ unescape_newlines s in
    let kept = a ∷ unescape_newlines (b ∷ s) in if a == 92 && b == b'n' then replaced else kept

-- time.Time.UnixMilli, of the times since 1970
unfoldable pub unix_milli : ℕ → ℕ
unix_milli t = (t - 62_135_596_800_000_000_000) / 1_000_000

abbrev pub desktop_sso_scope : Text
desktop_sso_scope = text "profile market tunnel kanban im"

-- now.Add(-5 * time.Second)
abbrev pub five_seconds : ℕ
five_seconds = 5_000_000_000

module _ (k : Keys) where
  abbrev rsa_key : Option (Option k.Key) → Loaded k.Key
  rsa_key none = unusable bad_key
  rsa_key (some none) = unusable bad_key
  rsa_key (some (some x)) = key x

  unfoldable pub parse_jwt_private_key_pem : Text → Loaded k.Key
  unfolding trim_space
  parse_jwt_private_key_pem value = elim (k.pem_decode (trim_space value)) [
    | none ↦ unusable bad_key
    | some block ↦ elim (k.parse_pkcs1 block) [
      | some x ↦ key x
      | none ↦ rsa_key (k.parse_pkcs8 block)
    ]
  ]

  unfoldable pub load_jwt_private_key : Text → Text → Loaded k.Key
  unfolding trim_space is_blank parse_jwt_private_key_pem unescape_newlines
  load_jwt_private_key file_path pem_value =
      if not (is_blank (trim_space file_path))
      then on_option (k.read_file (trim_space file_path))
          (λ content. parse_jwt_private_key_pem content) (unusable bad_key)
      else if is_blank (trim_space pem_value)
      then unusable not_configured
      else parse_jwt_private_key_pem (unescape_newlines (trim_space pem_value))

  unfoldable pub new_identity_jwt_signer : DesktopJwtConfig → IdentityJwtSigner k.Key
  unfolding trim_space is_blank text normalize_jwt_audiences load_jwt_private_key
  new_identity_jwt_signer config =
      let key_id = trim_space config.key_id in
      record {
        private_key = load_jwt_private_key config.private_key_file config.private_key_pem;
        issuer = trim_space config.issuer;
        audiences = normalize_jwt_audiences config.audiences;
        key_id = if is_blank key_id then text "default" else key_id;
        ttl = if config.ttl == 0 then 720 * minute else config.ttl;
      }

  abbrev has_key : Loaded k.Key → Bool
  has_key (key x) = true
  has_key (unusable e) = false

  unfoldable pub configured : IdentityJwtSigner k.Key → Bool
  unfolding is_blank
  configured s = has_key s.private_key && not (is_blank s.issuer) && not (length s.audiences == 0)

  unfoldable pub claims_of :
      IdentityJwtSigner k.Key → User → ℕ → Text → List Text → Text → ℕ → ℕ → Text → IdentityClaims
  unfolding format_int text unix_milli
  claims_of s user now session_id audiences scope ttl started jti = record {
    user_id = format_int user.id;
    email = user.email;
    name = user.display_name;
    picture = user.avatar_url;
    role = user.role;
    auth_provider = user.auth_provider;
    auth_sub = user.auth_sub;
    scope = scope;
    session_id = session_id;
    session_started_at_ms = if started == 0 then 0 else unix_milli started;
    issuer = s.issuer;
    subject = text "user:" ++ format_int user.id;
    audience = audiences;
    expires_at = now + ttl;
    not_before = now - five_seconds;
    issued_at = now;
    jti = jti;
  }

  abbrev signed : IdentityJwtSigner k.Key → List Text → Text → ℕ → Option Text → Issued
  signed s audiences scope expires_at none = refused not_signed
  signed s audiences scope expires_at (some token) = issued (record {
    token = token;
    issuer = s.issuer;
    audiences = audiences;
    scope = scope;
    expires_at = expires_at;
  })

  -- issueWithPolicy with a key; `started` is 0 for the zero time.
  unfoldable pub issue_with_key :
      k.Key → IdentityJwtSigner k.Key → User → ℕ → Text → List Text → Text → ℕ → ℕ → H Issued
  unfolding ◌>>=◌ random_token claims_of
  issue_with_key x s user now session_id audiences scope ttl started = do
    drawn ← random_token
    pure (
        on_option drawn
          (λ jti.
            signed s audiences scope (now + ttl)
              (k.sign x s.key_id (claims_of s user now session_id audiences scope ttl started jti)))
          (refused no_random))

  unfoldable pub issue_with_policy :
      IdentityJwtSigner k.Key → User → ℕ → Text → List Text → Text → ℕ → ℕ → H Issued
  unfolding is_blank normalize_jwt_audiences issue_with_key
  issue_with_policy s user now session_id audiences scope ttl started =
      let audiences' = normalize_jwt_audiences audiences in
      elim s.private_key [
        | unusable e ↦ pure (refused e)
        | key x ↦
            if is_blank s.issuer || length audiences' == 0 || ttl == 0
            then pure (refused not_configured)
            else issue_with_key x s user now session_id audiences' scope ttl started
      ]

  unfoldable pub issue : IdentityJwtSigner k.Key → User → ℕ → Text → ℕ → H Issued
  unfolding issue_with_policy text
  issue s user now session_id started =
      issue_with_policy s user now session_id s.audiences desktop_sso_scope s.ttl started
