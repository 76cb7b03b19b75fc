-- ===== src/Auth/Email.antt =====
-- internal/auth/server.go: which email addresses and verification codes are well formed, and how
-- a verification code is drawn.
pub mod Laws
pub mod Digits
use zenmind_official_server.Base.{
  ℕ, zero, suc, ◌+◌, ◌%◌, ◌≡◌, Bool, true, false, ◌&&◌, ◌||◌, Option, none, some, List, [], ◌∷◌,
  ◌++◌, length, leb, ltb, ◌==◌, if◌then◌else◌, all,
}
use zenmind_official_server.Text.{Text}
use zenmind_official_server.Regex.{Regex, class, seq, plus, match_string}

abbrev pub no_at_or_space : List (ℕ × ℕ)
no_at_or_space = (b'@', b'@') ∷ (9, 10) ∷ (12, 13) ∷ (32, 32) ∷ []

abbrev pub byte : ℕ → Regex
byte c = class false ((c, c) ∷ [])

-- `^[^@\s]+@[^@\s]+\.[^@\s]+$`
unfoldable pub email_pattern : Regex
email_pattern =
    let word = plus (class true no_at_or_space) in
    seq word (seq (byte b'@') (seq word (seq (byte b'.') word)))

unfoldable pub valid_email : Text → Bool
valid_email email = leb (length email) 255 && match_string email_pattern email

abbrev pub is_digit : ℕ → Bool
is_digit ch = leb b'0' ch && leb ch b'9'

unfoldable pub valid_email_code : Text → Bool
unfolding all
valid_email_code code = if length code == 6 then all is_digit code else false

-- The loop of randomDigits over the bytes that `rand.Read` returns, one a round; `none` at the end
-- of the list is the error of `rand.Read`. The digits so far are `drawn`; `missing` are to come.
unfoldable pub random_digits_from : ℕ → Text → List ℕ → Option (Text × List ℕ)
random_digits_from zero drawn source = some (drawn, source)
random_digits_from (suc missing) drawn [] = none
random_digits_from (suc missing) drawn (b ∷ source) =
    let again = random_digits_from (suc missing) drawn source in
    let next = random_digits_from missing (drawn ++ (b'0' + b % 10) ∷ []) source in
    if ltb 249 b then again else next

-- The digits, and the bytes that are left.
unfoldable pub random_digits : ℕ → List ℕ → Option (Text × List ℕ)
unfolding random_digits_from
random_digits length source = if length == 0 then none else random_digits_from length [] source
