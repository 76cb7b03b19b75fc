-- ===== src/Auth/Server/Defs.antt =====
-- internal/auth/server.go: what a handler reads and writes, and its answers.
use zenmind_official_server.Base.{ℕ, Bool, Option, none, some, List, [], ◌∷◌}
use zenmind_official_server.Text.{Text}
use zenmind_official_server.Auth.RateLimiter.{RateLimiter, allow}
use zenmind_official_server.Auth.Store.Defs.{User, GoogleIdentity}
use zenmind_official_server.Auth.Store.Monad.{M, World, Result, ok, err, Error}

-- The parts of a parsed URL (net/url).
pub record Url : Type 0 where
  pub scheme : Text
  pub host : Text
  pub hostname : Text
  pub port : Text
  pub path : Text
  pub raw_query : Text
  pub fragment : Text
  pub has_user : Bool

-- The libraries and services that a handler calls.
pub record Outside : Type 0 where
  -- hex.EncodeToString(sha256.Sum256(s))
  pub sha256_hex : Text → Text
  -- base64.RawURLEncoding.EncodeToString(sha256.Sum256(s))
  pub sha256_base64 : Text → Text
  -- bcrypt.CompareHashAndPassword(hash, password) == nil
  pub password_matches : Text → Text → Bool
  -- netip.ParseAddr, printed
  pub parse_addr : Text → Option Text
  -- netip.Prefix.Contains
  pub prefix_contains : Text → Text → Bool
  -- the host of net.SplitHostPort
  pub split_host : Text → Option Text
  -- strconv.Atoi, of the values that are no error and not negative
  pub parse_port : Text → Option ℕ
  pub parse_url : Text → Option Url
  -- URL.String
  pub url_string : Url → Text
  pub google_configured : Bool
  pub auth_code_url : Text → Text → Text → Text
  pub exchange_code : Text → Text → Text → Option GoogleIdentity
  pub verify_id_token : Text → Option GoogleIdentity
  -- SendEmailCode(email, code) == nil
  pub send_email_code : Text → Text → Bool

-- The fields of Server that the handlers read.
pub record Config : Type 0 where
  pub session_ttl : ℕ
  pub desktop_ticket_ttl : ℕ
  pub trusted_proxies : List Text
  pub auth_origin : Text
  pub sso_bridge_token : Text
  pub desktop_sso_provider : Text

pub record Request : Type 0 where
  pub remote_addr : Text
  pub host : Text
  pub tls : Bool
  pub user_agent : Text
  -- Header.Get
  pub header : Text → Text
  -- URL.Query().Get
  pub query : Text → Text
  -- the cookie with the session
  pub session_cookie : Option Text

-- What is sent to the browser.
pub data Reply : Type 0 where
  -- writeError
  failure : ℕ → Text → Reply
  -- {"ok": true}
  done : Reply
  -- {"user": ...}, with "expiresAt" of a Desktop session
  user_reply : User → Option ℕ → Reply
  csrf_reply : Text → Reply
  code_sent : ℕ → Reply
  redirect : Text → Reply
  -- redirectFailure
  redirect_failure : Text → Reply
  -- redirectDesktopSuccess with the ticket, redirectDesktopFailure with the reason: the callback
  -- URL, the state, the value
  desktop_success : Text → Text → Text → Reply
  desktop_failure : Text → Text → Text → Reply

-- What happens to the session cookie.
pub data Cookie : Type 0 where
  keep_cookie : Cookie
  -- sessionCookie(token, expiresAt)
  session_cookie : Text → ℕ → Cookie
  -- expiredCookie()
  expired_cookie : Cookie

pub record Response : Type 0 where
  pub reply : Reply
  pub cookie : Cookie

abbrev pub answer : Reply → Response
answer r = record { reply = r; cookie = keep_cookie }

-- The store with its clock, the limiter, and what crypto/rand will return: tokens for randomToken
-- (`none` where it fails) and bytes for randomDigits.
pub record Machine : Type 0 where
  pub world : World
  pub limiter : RateLimiter
  pub tokens : List (Option Text)
  pub bytes : List ℕ

abbrev pub H : Type 0 → Type 0
H A = Machine → A × Machine

infixl 10 ◌>>=◌ ◌>>◌
unfoldable pub ◌>>=◌ : {A B : Type 0} → H A → (A → H B) → H B
◌>>=◌ h f s = let (a, s') = h s in f a s'

abbrev pub ◌>>◌ : {A B : Type 0} → H A → H B → H B
h >> k = h >>= λ _. k

abbrev pub pure : {A : Type 0} → A → H A
pure a s = (a, s)

abbrev pub reply : Reply → H Response
reply r = pure (answer r)

-- s.now(): a request reads one instant.
abbrev pub now : H ℕ
now s = (s.world.clock, s)

-- A call of a method of the store.
abbrev pub store : {A : Type 0} → M A → H (Result A)
store m s = let (r, w) = m s.world in (r, record s { world = w })

abbrev pub on_result : {A B : Type 0} → Result A → (A → B) → (Error → B) → B
on_result (ok a) f g = f a
on_result (err e) f g = g e

abbrev pub on_option : {A B : Type 0} → Option A → (A → B) → B → B
on_option (some a) f b = f a
on_option none f b = b

-- s.rateLimiter.allow(key, limit, window, now)
abbrev pub allow_request : Text → ℕ → ℕ → H Bool
allow_request key limit window s =
    let (allowed, l) = allow s.limiter key limit window s.world.clock in
    (allowed, record s { limiter = l })

abbrev take_token : List (Option Text) → Option Text × List (Option Text)
take_token [] = (none, [])
take_token (t ∷ ts) = (t, ts)

-- randomToken()
unfoldable pub random_token : H (Option Text)
random_token s = let (t, ts) = take_token s.tokens in (t, record s { tokens = ts })
