-- ===== src/Examples/Email.antt =====
-- internal/auth/server.go: addresses and codes.
use zenmind_official_server.Base.{
  All, length, ℕ, List, false, ◌≤◌, ◌≡◌, refl, ◌↔◌, true, some, [], ◌∷◌, length, arith,
}
use zenmind_official_server.Text.{Text, text}
use zenmind_official_server.Regex.{match_string}
use zenmind_official_server.Auth.Email.{is_digit, email_pattern, valid_email, random_digits}
use zenmind_official_server.Auth.Email.Laws.{IsAddress, valid_email_iff}
use zenmind_official_server.Auth.Email.Digits.{random_digits_total}

abbrev bytes : List ℕ
bytes = 7 ∷ 251 ∷ 14 ∷ 33 ∷ 90 ∷ 128 ∷ 249 ∷ 3 ∷ []

valid_email_iff_example :
    (valid_email (text "ann@example.com") ≡ true)
    ↔ ((length (text "ann@example.com") ≤ 255) × IsAddress (text "ann@example.com"))
valid_email_iff_example = valid_email_iff (text "ann@example.com")

drawn : random_digits 6 bytes ≡ some (text "743089", 3 ∷ [])
unfolding random_digits text
drawn = refl

random_digits_total_example :
    (code : Text) × (rest : List ℕ) × (random_digits 6 bytes ≡ some (code, rest))
    × (length code ≡ 6)
    × All (λ c. is_digit c ≡ true) code
random_digits_total_example = random_digits_total 6 bytes (omega arith) (omega arith)

rejects_two_ats : valid_email (text "ann@@example.com") ≡ false
unfolding valid_email text match_string email_pattern
rejects_two_ats = refl
