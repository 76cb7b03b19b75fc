-- ===== src/Auth/Server/Grants/Logout.antt =====
-- What a request needs to end a session.
use zenmind_official_server.Base.{
  ◌≡◌, ◌≢◌, Option-cases, true, false, not, ◌||◌, none, some, ◌==◌, arith, inl, inr, ◌↔◌, ◌∙◌,
  Bool-cases, length, ap,
}
use zenmind_official_server.Text.{Text, text, text_eq, trim_space}
use zenmind_official_server.Text.Laws.{text_eq_iff, text_eq_refl}
use zenmind_official_server.Auth.Store.Defs.{Collation}
use zenmind_official_server.Auth.Store.Monad.{World, ok, Result-cases}
use zenmind_official_server.Auth.Store.Sessions.{find_session_csrf}
use zenmind_official_server.Auth.Server.Defs.{Outside, Config, Request, Machine, ◌>>=◌}
use zenmind_official_server.Auth.Server.Requests.{valid_request_origin}
use zenmind_official_server.Auth.Server.Cookies.{session_token, require_csrf}

module _ (c : Collation) (out : Outside) (cfg : Config) (r : Request) where
  -- The request carries the CSRF token of its session, and its origin is allowed.
  abbrev pub Genuine : Text → World → Type 0
  Genuine token w =
      ((find_session_csrf c (out.sha256_hex token) w.clock w).0
        ≡ ok (trim_space (r.header (text "X-CSRF-Token"))))
      × (valid_request_origin out cfg r ≡ true)

  same_text :
      (expected provided : Text)
      → (not (length expected == length provided) || not (text_eq expected provided)) ≡ false
      → expected ≡ provided
  same_text expected provided h = (text_eq_iff expected provided).0 (ground arith)

  -- requireCSRF lets a request with a session pass exactly if it carries the CSRF token of the
  -- session and its origin is allowed.
  pub require_csrf_iff :
      (token : Text) (s : Machine)
      → session_token r ≡ some token
      → ((require_csrf c out cfg r s).0 ≡ none) ↔ Genuine token s.world
  unfolding require_csrf ◌>>=◌
  require_csrf_iff token s t = (to, from)
    where
      to : (require_csrf c out cfg r s).0 ≡ none → Genuine token s.world
      to h =
          let provided = trim_space (r.header (text "X-CSRF-Token")) in
          elim (Result-cases (find_session_csrf c (out.sha256_hex token) s.world.clock s.world).0) [
            | inr (x, e) ↦ let refused = (rw (t, e) at h) in cc
            | inl (expected, e) ↦
                elim (Bool-cases
                  (not (length expected == length provided) || not (text_eq expected provided))) [
                    | inl bad ↦ let refused = (rw (t, e, bad) at h) in cc
                    | inr fit ↦ elim (Bool-cases (valid_request_origin out cfg r)) [
                      | inr strange ↦ let refused = (rw (t, e, fit, strange) at h) in cc
                      | inl good ↦ (e ∙ ap (λ x. ok x) (same_text expected provided fit), good)
                    ]
                  ]
          ]

      from : Genuine token s.world → (require_csrf c out cfg r s).0 ≡ none
      from (e, good) =
          rw (t, e, good)
            (rw (text_eq_refl (trim_space (r.header (text "X-CSRF-Token")))) (ground arith))

  barred_without_session :
      (s : Machine) → session_token r ≡ none → (require_csrf c out cfg r s).0 ≢ none
  unfolding require_csrf
  barred_without_session s e h = let refused = (rw e at h) in cc

  -- A request that passes has a session.
  pub require_csrf-Genuine :
      (s : Machine)
      → (require_csrf c out cfg r s).0 ≡ none
      → (token : Text) × (session_token r ≡ some token) × Genuine token s.world
  require_csrf-Genuine s pass = elim (Option-cases (session_token r)) [
    | inl none_sent ↦ absurd (barred_without_session s none_sent pass)
    | inr (token, sent) ↦ (token, sent, (require_csrf_iff token s sent).0 pass)
  ]
