-- ===== src/Auth/GoogleProvider/Laws.antt =====
-- Whose identity the provider returns.
use zenmind_official_server.Base.{
  ◌≡◌, refl, ◌⊎◌, inl, inr, ◌&&◌, true, false, not, some, List, [], ◌∷◌, Any, arith, Bool-cases,
  Option-cases,
}
use zenmind_official_server.Text.{Text, text_eq, trim_space, is_blank, normalize_email}
use zenmind_official_server.Text.Laws.{text_eq_iff}
use zenmind_official_server.Auth.Email.{valid_email}
use zenmind_official_server.Auth.Store.Defs.{GoogleIdentity}
use zenmind_official_server.Auth.GoogleProvider.{
  GoogleProvider, live, disabled, LiveGoogleProvider, GoogleClaims, IdToken, Oidc, identity_of,
  accept_token, verify_google_id_token, exchange_code,
}

-- The identity is that of the claims: it has their subject and their address, which is verified and
-- well formed.
abbrev pub IsOf : GoogleClaims → GoogleIdentity → Type 0
IsOf c i =
    (i.subject ≡ trim_space c.subject)
    × (is_blank i.subject ≡ false)
    × (c.email_verified ≡ true)
    × (valid_email c.email ≡ true)
    × (i.email ≡ normalize_email c.email)
    × (i.email_verified ≡ true)

identity_of-IsOf : (c : GoogleClaims) (i : GoogleIdentity) → identity_of c ≡ some i → IsOf c i
unfolding identity_of
identity_of-IsOf c i h = ground arith

-- The token has the nonce that is asked for, and the identity is that of its claims.
abbrev pub IsFrom : Text → IdToken → GoogleIdentity → Type 0
IsFrom nonce token i =
    ((nonce ≡ []) ⊎ (token.nonce ≡ nonce))
    × ((c : GoogleClaims) × (token.claims ≡ some c) × IsOf c i)

is_blank→nil : (s : Text) → is_blank s ≡ true → s ≡ []
unfolding is_blank
is_blank→nil [] h = refl
is_blank→nil (c ∷ s) h = cc

accept_token-IsFrom :
    (nonce : Text) (token : IdToken) (i : GoogleIdentity)
    → accept_token nonce token ≡ some i
    → IsFrom nonce token i
unfolding accept_token
accept_token-IsFrom nonce token i h =
    elim (Bool-cases (not (is_blank nonce) && not (text_eq token.nonce nonce))) [
      | inl bad ↦ let none_given = (rw bad at h) in cc
      | inr fit ↦ elim (Option-cases token.claims) [
        | inl undecoded ↦ let none_given = (rw (fit, undecoded) at h) in cc
        | inr (c, decoded) ↦ (
          ground (arith, is_blank→nil nonce, text_eq_iff token.nonce nonce),
          (c, decoded, identity_of-IsOf c i (rw (fit, decoded) at h)),
        )
      ]
    ]

module _ (o : Oidc) where
  -- One of the verifiers accepts the token, for this identity.
  abbrev pub IsVerified : Text → Text → List Text → GoogleIdentity → Type 0
  IsVerified raw nonce audiences i =
      Any
        (λ audience.
          (token : IdToken) × (o.verify audience (trim_space raw) ≡ some token)
          × IsFrom nonce token i)
        audiences

  pub verify_google_id_token-IsVerified :
      (raw nonce : Text) (audiences : List Text) (i : GoogleIdentity)
      → verify_google_id_token o raw nonce audiences ≡ some i
      → IsVerified raw nonce audiences i
  unfolding verify_google_id_token
  verify_google_id_token-IsVerified raw nonce [] i h = cc
  verify_google_id_token-IsVerified raw nonce (a ∷ as_) i h =
      elim (Option-cases (o.verify a (trim_space raw))) [
        | inl bad ↦ inr (verify_google_id_token-IsVerified raw nonce as_ i (rw bad at h))
        | inr (token, good) ↦ inl (token, good, accept_token-IsFrom nonce token i (rw good at h))
      ]

  -- The Google provider vouches only for verified addresses: an identity that ExchangeCode returns
  -- comes from a token that Google has given for the code and the verifier, that verifies for the
  -- client id of the server and has the nonce that is asked for, if one is; the address in the
  -- claims of the token is verified and well formed, and is the one of the identity, normalized.
  pub exchange_code-IsVerified :
      (p : GoogleProvider) (code code_verifier nonce : Text) (i : GoogleIdentity)
      → exchange_code o p code code_verifier nonce ≡ some i
      → (l : LiveGoogleProvider) × (raw : Text) × (p ≡ live l)
        × (o.exchange l (trim_space code) code_verifier ≡ some raw)
        × IsVerified raw nonce (l.client_id ∷ []) i
  unfolding exchange_code
  exchange_code-IsVerified disabled code code_verifier nonce i h = cc
  exchange_code-IsVerified (live l) code code_verifier nonce i h =
      elim (Option-cases (o.exchange l (trim_space code) code_verifier)) [
        | inl bad ↦ let none_given = (rw bad at h) in cc
        | inr (raw, given) ↦ elim (Bool-cases (is_blank (trim_space raw))) [
          | inl empty ↦ let none_given = (rw (given, empty) at h) in cc
          | inr sent ↦ (
            l,
            raw,
            refl,
            given,
            verify_google_id_token-IsVerified raw nonce (l.client_id ∷ []) i
                (rw (given, sent) at h),
          )
        ]
      ]
