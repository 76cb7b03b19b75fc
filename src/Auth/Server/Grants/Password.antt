-- ===== src/Auth/Server/Grants/Password.antt =====
-- Who gets a session by a password.
use zenmind_official_server.Base.{ℕ, ◌*◌, ◌≡◌, true, some, arith, inl, inr, Bool-cases}
use zenmind_official_server.Text.{Text}
use zenmind_official_server.Auth.RateLimiter.{minute, allow}
use zenmind_official_server.Auth.Store.Defs.{User, Collation}
use zenmind_official_server.Auth.Store.Monad.{ok, Result-cases, Error}
use zenmind_official_server.Auth.Store.Users.Accounts.{find_local_user_by_email}
use zenmind_official_server.Auth.Server.Defs.{
  Outside, Config, Request, session_cookie, Machine, ◌>>=◌,
}
use zenmind_official_server.Auth.Server.Requests.{valid_request_origin}
use zenmind_official_server.Auth.Server.Login.{
  LoginRequest, login, login_key, check_password, unknown_user,
}

module _ (c : Collation) (out : Outside) (cfg : Config) (r : Request) where
  check_password-session :
      (req : LoginRequest) (user : User) (s : Machine) (token : Text) (expires : ℕ)
      → (check_password c out cfg r req user s).0.cookie ≡ session_cookie token expires
      → (out.password_matches user.password_hash req.password ≡ true) × (user.enabled ≡ true)
  unfolding check_password ◌>>=◌
  check_password-session req user s token expires h = ground arith

  unknown-session :
      (req : LoginRequest) (e : Error) (s : Machine) (token : Text) (expires : ℕ)
      → (unknown_user c out cfg r req e s).0.cookie ≡ session_cookie token expires
      → ⊥
  unfolding unknown_user ◌>>=◌
  unknown-session req e s token expires h = ground arith

  -- login sets a session cookie only if the origin is allowed, the limiter lets the request pass,
  -- the store has a local user of the address whose password matches, and this user is enabled.
  pub login-session :
      (req : LoginRequest) (s : Machine) (token : Text) (expires : ℕ)
      → (login c out cfg r (some req) s).0.cookie ≡ session_cookie token expires
      → (valid_request_origin out cfg r ≡ true)
        × ((allow s.limiter (login_key c out cfg r req.email) 5 (15 * minute) s.world.clock).0
            ≡ true)
        × ((user : User) × ((find_local_user_by_email c req.email s.world).0 ≡ ok user)
            × (out.password_matches user.password_hash req.password ≡ true)
            × (user.enabled ≡ true))
  unfolding login ◌>>=◌
  login-session req s token expires h = elim (Bool-cases (valid_request_origin out cfg r)) [
    | inr bad ↦ let refused = (rw bad at h) in cc
    | inl good ↦
        let key = login_key c out cfg r req.email in
        elim (Bool-cases (allow s.limiter key 5 (15 * minute) s.world.clock).0) [
          | inr full ↦ let refused = (rw (good, full) at h) in cc
          | inl fine ↦ elim (Result-cases (find_local_user_by_email c req.email s.world).0) [
            | inl (user, e) ↦
                let (known, on) =
                  check_password-session req user _ token expires (rw (good, fine, e) at h) in
                (good, fine, (user, e, known, on))
            | inr (x, e) ↦ absurd (unknown-session req x _ token expires (rw (good, fine, e) at h))
          ]
        ]
  ]
