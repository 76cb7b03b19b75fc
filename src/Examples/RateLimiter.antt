-- ===== src/Examples/RateLimiter.antt =====
-- internal/auth/request_security.go: the limiter.
use zenmind_official_server.Base.{ℕ, ◌+◌, ◌≤◌, ◌≡◌, refl, true, List, [], ◌∷◌, ◌*◌, arith}
use zenmind_official_server.Text.{text, text_eq, is_blank}
use zenmind_official_server.Dict.{lookup}
use zenmind_official_server.Auth.RateLimiter.{
  RateLimitEntry, RateLimiter, minute, new_rate_limiter, allow, Call, run,
}
use zenmind_official_server.Auth.RateLimiter.Sweep.{run_unswept, run-eq-run_unswept}
use zenmind_official_server.Auth.RateLimiter.Window.{granted, run_window_bound, allow_again}

abbrev login_at : ℕ → Call
login_at t = record { key = text "login"; limit = 2; window = 15 * minute; at = t }

abbrev calls : List Call
calls = login_at 1000 ∷ login_at 1001 ∷ login_at 1002 ∷ []

two_of_three : granted (text "login") calls (run new_rate_limiter calls) ≡ 2
unfolding run text text_eq
two_of_three = refl

run-eq-run_unswept_example : run new_rate_limiter calls ≡ run_unswept new_rate_limiter calls
run-eq-run_unswept_example =
    run-eq-run_unswept new_rate_limiter 1000 calls tt
      (omega arith, (omega arith, (omega arith, tt)))
      (omega arith, (omega arith, (omega arith, tt)))

run_window_bound_example : granted (text "login") calls (run new_rate_limiter calls) ≤ 2
unfolding lookup text is_blank
run_window_bound_example =
    run_window_bound new_rate_limiter (text "login") 2 (15 * minute) 1000 calls tt refl refl
      (omega arith) (omega arith, (omega arith, (omega arith, tt)))
      (
        (omega arith, λ e. (refl, refl)),
        ((omega arith, λ e. (refl, refl)), ((omega arith, λ e. (refl, refl)), tt)),
      )
      (omega arith, (omega arith, (omega arith, tt)))

abbrev spent : RateLimitEntry
spent = record { count = 2; window_start = 1000 }

abbrev full : RateLimiter
full = (text "login", spent) ∷ []

allow_again_example :
    (allow
      (allow full (text "login") 2 (15 * minute) 1002).1
      (text "login")
      2
      (15 * minute)
      (1000 + 15 * minute)).0
    ≡ true
unfolding allow lookup text text_eq
allow_again_example =
    allow_again full (text "login") 2 (15 * minute) 1002 (1000 + 15 * minute) spent (refl, tt) refl
      (omega arith) (omega arith) refl (omega arith)
