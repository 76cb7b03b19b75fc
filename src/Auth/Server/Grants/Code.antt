-- ===== src/Auth/Server/Grants/Code.antt =====
-- Who gets a session by a code that was sent by mail.
use zenmind_official_server.Base.{
  ℕ, ◌*◌, ◌≡◌, refl, Bool, true, false, not, ◌||◌, some, ◌++◌, arith, inl, inr, Bool-cases,
}
use zenmind_official_server.Text.{Text, text, trim_space, normalize_email}
use zenmind_official_server.Auth.Email.{valid_email, valid_email_code}
use zenmind_official_server.Auth.RateLimiter.{minute, allow}
use zenmind_official_server.Auth.Store.Defs.{User, Collation}
use zenmind_official_server.Auth.Store.Monad.{World, Result, ok, is_ok, Result-cases}
use zenmind_official_server.Auth.Store.Codes.{consume_email_code}
use zenmind_official_server.Auth.Store.Users.Identity.{upsert_email_code_user}
use zenmind_official_server.Auth.Server.Defs.{
  Outside, Config, Request, session_cookie, Machine, ◌>>=◌,
}
use zenmind_official_server.Auth.Server.Requests.{request_ip, valid_request_origin}
use zenmind_official_server.Auth.Server.Login.{
  EmailCodeVerifyRequest, email_code_hash, email_code_verify, refuse_code, enter_with_code,
}

well_formed : (a b : Bool) → (not a || not b) ≡ false → (a ≡ true) × (b ≡ true)
well_formed a b h = ground arith

module _ (c : Collation) (out : Outside) (cfg : Config) (r : Request) where
  enter-session :
      (user : User) (s : Machine) (token : Text) (expires : ℕ)
      → (enter_with_code c out cfg r user s).0.cookie ≡ session_cookie token expires
      → user.enabled ≡ true
  unfolding enter_with_code ◌>>=◌
  enter-session user s token expires h = ground arith

  -- The world after the code of the request is consumed, with the result.
  abbrev consumed : EmailCodeVerifyRequest → World → Result (Unit {0}) × World
  consumed req w =
      consume_email_code c (normalize_email req.email)
        (email_code_hash c out cfg (normalize_email req.email) (trim_space req.code)) w.clock w

  -- emailCodeVerify sets a session cookie only if the origin is allowed, the address and the code
  -- are well formed, the store has accepted the code, and the user that the store then returns for
  -- the address is enabled.
  pub email_code_verify-session :
      (req : EmailCodeVerifyRequest) (s : Machine) (token : Text) (expires : ℕ)
      → (email_code_verify c out cfg r (some req) s).0.cookie ≡ session_cookie token expires
      → (valid_request_origin out cfg r ≡ true)
        × (valid_email (normalize_email req.email) ≡ true)
        × (valid_email_code (trim_space req.code) ≡ true)
        × (is_ok (consumed req s.world).0 ≡ true)
        × ((user : User) × ((upsert_email_code_user c
                (normalize_email req.email)
                (consumed req s.world).1).0
              ≡ ok user)
            × (user.enabled ≡ true))
  unfolding email_code_verify refuse_code ◌>>=◌
  email_code_verify-session req s token expires h =
      elim (Bool-cases (valid_request_origin out cfg r)) [
        | inr bad ↦ let refused = (rw bad at h) in cc
        | inl good ↦
            let email = normalize_email req.email in
            let code = trim_space req.code in
            let key = text "email-verify:" ++ request_ip out cfg r ++ text ":" ++ email in
            elim (Bool-cases (allow s.limiter key 10 (15 * minute) s.world.clock).0) [
              | inr full ↦ let refused = (rw (good, full) at h) in cc
              | inl fine ↦
                  elim (Bool-cases (not (valid_email email) || not (valid_email_code code))) [
                    | inl bad ↦ let refused = (rw (good, fine, bad) at h) in cc
                    | inr fit ↦
                        let (well, formed) =
                          well_formed (valid_email email) (valid_email_code code) fit in
                        elim (Result-cases (consumed req s.world).0) [
                          | inr (x, e) ↦ let refused = (rw (good, fine, fit, e) at h) in cc
                          | inl (u, e) ↦
                              elim (Result-cases
                                (upsert_email_code_user c email (consumed req s.world).1).0) [
                                  | inr (x, e') ↦
                                      let refused = (rw (good, fine, fit, e, e') at h) in cc
                                  | inl (user, e') ↦
                                      let on =
                                        enter-session user _ token expires
                                          (rw (good, fine, fit, e, e') at h) in
                                      (good, well, formed, rw e refl, (user, e', on))
                                ]
                        ]
                  ]
            ]
      ]
