-- ===== src/Text/Decimal.antt =====
-- strconv.FormatInt(n, 10), of the numbers that are not negative.
use zenmind_official_server.Base.{
  ℕ, zero, suc, ◌+◌, ◌-◌, ◌*◌, ◌/◌, ◌%◌, ◌<◌, ◌≡◌, sym, ap, ◌∙◌, [], ◌∷◌, inl, inr, if◌then◌else◌,
  ltb, arith, Bool-cases,
}
use zenmind_official_server.Text.{Text}

-- The digits of n before those that are written; the fuel is above n.
format_from : ℕ → ℕ → Text → Text
format_from zero n acc = acc
format_from (suc fuel) n acc =
    let rest = format_from fuel (n / 10) ((b'0' + n % 10) ∷ acc) in
    if ltb n 10 then (b'0' + n) ∷ acc else rest

unfoldable pub format_int : ℕ → Text
unfolding format_from
format_int n = format_from (suc n) n []

-- The number that digits stand for, behind those that are read.
abbrev value_from : ℕ → Text → ℕ
value_from v [] = v
value_from v (c ∷ s) = value_from (10 * v + (c - b'0')) s

value_from-format_from :
    (fuel n : ℕ) (acc : Text) → n < fuel → value_from 0 (format_from fuel n acc) ≡ value_from n acc
unfolding format_from
value_from-format_from zero n acc h = elim h [ ]
value_from-format_from (suc fuel) n acc h = elim (Bool-cases (ltb n 10)) [
  | inl small ↦ rw small (ap (λ v. value_from v acc) (omega arith))
  | inr large ↦ rw large (
      value_from-format_from fuel (n / 10) ((b'0' + n % 10) ∷ acc) (ground arith)
      ∙ ap (λ v. value_from v acc) (omega arith))
]

-- Two numbers with the same digits are the same.
pub format_int_inj : (n m : ℕ) → format_int n ≡ format_int m → n ≡ m
unfolding format_int
format_int_inj n m h =
    sym (value_from-format_from (suc n) n [] (omega arith))
    ∙ ap (value_from 0) h
    ∙ value_from-format_from (suc m) m [] (omega arith)
