-- ===== src/Auth/Jwt/Laws.antt =====
-- What stands in a token that is issued.
use zenmind_official_server.Base.{
  ℕ, ◌+◌, ◌≡◌, refl, ◌||◌, some, List, ◌⊎◌, inl, inr, arith, ◌==◌, length, Bool-cases, Option-cases,
}
use zenmind_official_server.Text.{Text, is_blank}
use zenmind_official_server.Auth.Store.Defs.{User}
use zenmind_official_server.Auth.Server.Defs.{Machine, ◌>>=◌, random_token}
use zenmind_official_server.Auth.Jwt.{
  Keys, Loaded, key, unusable, JwtError, IdentityJwtSigner, IdentityJwtResult, Issued, issued,
  refused, normalize_jwt_audiences, claims_of, issue_with_key, issue_with_policy,
}

pub Issued-cases :
    (i : Issued) → ((e : JwtError) × (i ≡ refused e)) ⊎ ((r : IdentityJwtResult) × (i ≡ issued r))
Issued-cases (refused e) = inl (e, refl)
Issued-cases (issued r) = inr (r, refl)

module _ (k : Keys) (s : IdentityJwtSigner k.Key) where
  -- The result holds a token that the key of the server has signed, with the claims of the user, of
  -- the session and of the instant, for the audiences as they are normalized.
  abbrev pub IsToken : User → ℕ → Text → List Text → Text → ℕ → ℕ → IdentityJwtResult → Type 0
  IsToken user now session_id audiences scope ttl started r =
      ((x : k.Key) × (jti : Text) × (s.private_key ≡ key x)
        × (k.sign x s.key_id (
              claims_of k s user now session_id (normalize_jwt_audiences audiences) scope ttl
                started jti)
            ≡ some r.token))
      × (r.audiences ≡ normalize_jwt_audiences audiences)
      × (r.expires_at ≡ now + ttl)
      × (r.scope ≡ scope)

  Loaded-cases :
      (l : Loaded k.Key) → ((e : JwtError) × (l ≡ unusable e)) ⊎ ((x : k.Key) × (l ≡ key x))
  Loaded-cases (unusable e) = inl (e, refl)
  Loaded-cases (key x) = inr (x, refl)

  pub issue_with_policy-IsToken :
      (user : User) (now : ℕ) (session_id : Text) (audiences : List Text) (scope : Text)
      (ttl started : ℕ) (m : Machine) (r : IdentityJwtResult)
      → (issue_with_policy k s user now session_id audiences scope ttl started m).0 ≡ issued r
      → IsToken user now session_id audiences scope ttl started r
  unfolding issue_with_policy issue_with_key ◌>>=◌ random_token
  issue_with_policy-IsToken user now session_id audiences scope ttl started m r h =
      let audiences' = normalize_jwt_audiences audiences in
      elim (Loaded-cases s.private_key) [
        | inl (e, bad) ↦ let no_token = (rw bad at h) in cc
        | inr (x, good) ↦
            elim (Bool-cases (is_blank s.issuer || length audiences' == 0 || ttl == 0)) [
              | inl bad ↦ let no_token = (rw (good, bad) at h) in cc
              | inr fit ↦ elim (Option-cases (random_token m).0) [
                | inl undrawn ↦ let no_token = (rw (good, fit, undrawn) at h) in cc
                | inr (jti, drawn) ↦
                    elim (Option-cases (
                      k.sign x s.key_id
                        (claims_of k s user now session_id audiences' scope ttl started jti))) [
                          | inl unsigned ↦
                              let no_token = (rw (good, fit, drawn, unsigned) at h) in cc
                          | inr (token, signed) ↦
                              let e = (rw (good, fit, drawn, signed) at h) in
                              (
                                (x, jti, good, ground arith),
                                ground arith,
                                ground arith,
                                ground arith,
                              )
                        ]
              ]
            ]
      ]
