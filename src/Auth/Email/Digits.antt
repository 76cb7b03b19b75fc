-- ===== src/Auth/Email/Digits.antt =====
-- What random_digits draws.
use mathlib.Core.Path.{subst}
use zenmind_official_server.Base.{
  ℕ, zero, suc, ◌+◌, ◌%◌, ◌≤◌, ◌<◌, ◌≡◌, refl, ◌↔◌, inl, inr, Bool, true, false, Option, none, some,
  List, [], ◌∷◌, ◌++◌, length, ltb, ◌==◌, ==_iff, if◌then◌else◌, all, All, arith, Bool-cases,
  length-append, All-append, and-eq-true,
}
use zenmind_official_server.Text.{Text, text_eq}
use zenmind_official_server.Auth.Email.{
  is_digit, valid_email_code, random_digits_from, random_digits,
}

-- The digits that a verification code consists of.
abbrev pub IsCode : Text → Type 0
IsCode code = (length code ≡ 6) × All (λ c. is_digit c ≡ true) code

all_iff : (s : Text) → (all is_digit s ≡ true) ↔ All (λ c. is_digit c ≡ true) s
unfolding all
all_iff [] = (λ h. tt, λ h. refl)
all_iff (c ∷ s) =
    let (to, from) = all_iff s in
    (
      λ h. let (p, q) = and-eq-true (is_digit c) (all is_digit s) h in (p, to q),
      λ (p, q). rw p (from q),
    )

valid_email_code_iff : (code : Text) → (valid_email_code code ≡ true) ↔ IsCode code
unfolding valid_email_code
valid_email_code_iff code =
    let (to, from) = all_iff code in
    (λ h. (ground arith, to (ground arith)), λ (n, h). ground (arith, from h))

is_digit-draw : (b : ℕ) → is_digit (b'0' + b % 10) ≡ true
is_digit-draw b = ground arith

random_digits_from-IsDigits :
    (missing : ℕ) (drawn : Text) (source : List ℕ) {code : Text} {rest : List ℕ}
    → All (λ c. is_digit c ≡ true) drawn
    → random_digits_from missing drawn source ≡ some (code, rest)
    → (length code ≡ length drawn + missing) × All (λ c. is_digit c ≡ true) code
unfolding random_digits_from
random_digits_from-IsDigits zero drawn source {code} h e =
    let same : drawn ≡ code = cc in
    (rw same (omega arith), subst (All (λ c. is_digit c ≡ true)) same h)
random_digits_from-IsDigits (suc missing) drawn [] h e = cc
random_digits_from-IsDigits (suc missing) drawn (b ∷ source) h e = elim (Bool-cases (ltb 249 b)) [
  | inl big ↦ random_digits_from-IsDigits (suc missing) drawn source h (rw big at e)
  | inr small ↦
      let (n, d) =
        random_digits_from-IsDigits missing (drawn ++ (b'0' + b % 10) ∷ []) source
          (All-append (λ c. is_digit c ≡ true) drawn ((b'0' + b % 10) ∷ []) h (is_digit-draw b, tt))
          (rw small at e) in
      (omega (arith, length-append drawn ((b'0' + b % 10) ∷ [])), d)
]

suc-ne-zero : (n : ℕ) → (suc n == 0) ≡ false
suc-ne-zero n = ground arith

random_digits_digits :
    (n : ℕ) (source : List ℕ) (code : Text) (rest : List ℕ)
    → random_digits n source ≡ some (code, rest)
    → (length code ≡ n) × All (λ c. is_digit c ≡ true) code
unfolding random_digits
random_digits_digits zero source code rest e = cc
random_digits_digits (suc n) source code rest e =
    let (l, d) = random_digits_from-IsDigits (suc n) [] source tt (rw (suc-ne-zero n) at e) in
    (omega arith, d)

-- A code that randomDigits returns has the length asked for, and valid_email_code accepts the codes
-- of six digits.
pub random_digits-valid :
    (n : ℕ) (source : List ℕ) (code : Text) (rest : List ℕ)
    → random_digits n source ≡ some (code, rest)
    → (length code ≡ n) × (n ≡ 6 → valid_email_code code ≡ true)
random_digits-valid n source code rest e =
    let (l, d) = random_digits_digits n source code rest e in
    (l, λ six. (valid_email_code_iff code).1 (omega arith, d))

-- How many of the bytes are not drawn again.
abbrev pub hits : List ℕ → ℕ
hits [] = 0
hits (b ∷ source) = if ltb 249 b then hits source else suc (hits source)

random_digits_from_total :
    (missing : ℕ) (drawn : Text) (source : List ℕ)
    → missing ≤ hits source
    → (r : Text × List ℕ) × (random_digits_from missing drawn source ≡ some r)
unfolding random_digits_from
random_digits_from_total zero drawn source h = ((drawn, source), refl)
random_digits_from_total (suc missing) drawn [] h = absurd (omega arith)
random_digits_from_total (suc missing) drawn (b ∷ source) h = elim (Bool-cases (ltb 249 b)) [
  | inl big ↦ rw big (random_digits_from_total (suc missing) drawn source (rw big at h))
  | inr small ↦
      let enough : suc missing ≤ suc (hits source) = (rw small at h) in
      rw small
        (random_digits_from_total missing (drawn ++ (b'0' + b % 10) ∷ []) source (omega arith))
]

drawn_digits :
    (n : ℕ) (source : List ℕ)
    → 0 < n
    → n ≤ hits source
    → (r : Text × List ℕ) × (random_digits n source ≡ some r)
unfolding random_digits
drawn_digits zero source p h = absurd (omega arith)
drawn_digits (suc n) source p h = rw (suc-ne-zero n) (random_digits_from_total (suc n) [] source h)

-- The loop of randomDigits ends with a code: a source with n bytes below 250 gives n characters,
-- which are all digits.
pub random_digits_total :
    (n : ℕ) (source : List ℕ)
    → 0 < n
    → n ≤ hits source
    → (code : Text) × (rest : List ℕ) × (random_digits n source ≡ some (code, rest))
      × (length code ≡ n)
      × All (λ c. is_digit c ≡ true) code
random_digits_total n source p h =
    let ((code, rest), e) = drawn_digits n source p h in
    let (l, d) = random_digits_digits n source code rest e in (code, rest, e, l, d)

draws : ℕ → Option (Text × List ℕ) → Bool
unfolding text_eq
draws d none = false
draws d (some (code, rest)) = text_eq code ((b'0' + d) ∷ [])

-- How many of the bytes below `n` draw the digit `d`.
pub ways_below : ℕ → ℕ → ℕ
unfolding draws random_digits
ways_below zero d = 0
ways_below (suc n) d =
    if draws d (random_digits 1 (n ∷ [])) then suc (ways_below n d) else ways_below n d

abbrev holds_first : (ℕ → Bool) → ℕ → Bool
holds_first p zero = true
holds_first p (suc n) = if holds_first p n then p n else false

holds_first-at : (p : ℕ → Bool) (n d : ℕ) → d < n → holds_first p n ≡ true → p d ≡ true
holds_first-at p zero d lt h = absurd (omega arith)
holds_first-at p (suc n) d lt h = let before = holds_first-at p n d in ground arith

even_table : holds_first (λ d. ways_below 256 d == 25) 10 ≡ true
unfolding ways_below
even_table = refl

-- The rejection of bytes above 249 makes the draw uniform: for each digit, 25 of the 256 bytes draw
-- it.
pub random_digits_uniform : (d : ℕ) → d < 10 → ways_below 256 d ≡ 25
random_digits_uniform d lt =
    (==_iff (ways_below 256 d) 25).0
      (holds_first-at (λ d. ways_below 256 d == 25) 10 d lt even_table)
