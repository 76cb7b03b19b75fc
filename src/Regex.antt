-- ===== src/Regex.antt =====
-- Go's regular expressions without flags, as far as the server's patterns use them: byte classes,
-- sequence, alternation and repetition, matched against the whole text (`^...$`). Matching is by
-- derivatives; Regex/Laws proves that it decides the language of the expression.
pub mod Laws
pub mod Classes
use zenmind_official_server.Base.{
  ℕ, zero, suc, ◌≡◌, ◌++◌, ◌⊎◌, Bool, true, false, not, ◌&&◌, ◌||◌, List, [], ◌∷◌, leb,
  if◌then◌else◌,
}
use zenmind_official_server.Text.{Text}

pub data Regex : Type 0 where
  never : Regex
  eps : Regex
  -- `[a-bc-d]`, and `[^a-bc-d]` with `true`
  class : Bool → List (ℕ × ℕ) → Regex
  seq : Regex → Regex → Regex
  alt : Regex → Regex → Regex
  star : Regex → Regex

unfoldable pub in_ranges : ℕ → List (ℕ × ℕ) → Bool
in_ranges c [] = false
in_ranges c ((lo, hi) ∷ rs) = (leb lo c && leb c hi) || in_ranges c rs

unfoldable pub in_class : ℕ → Bool → List (ℕ × ℕ) → Bool
unfolding in_ranges
in_class c negated rs = if negated then not (in_ranges c rs) else in_ranges c rs

-- `x+`, `x?`, `x{n}` and `x{0,n}`
abbrev pub plus : Regex → Regex
plus r = seq r (star r)

abbrev pub opt : Regex → Regex
opt r = alt eps r

unfoldable pub times : ℕ → Regex → Regex
times zero r = eps
times (suc n) r = seq r (times n r)

unfoldable pub up_to : ℕ → Regex → Regex
up_to zero r = eps
up_to (suc n) r = opt (seq r (up_to n r))

unfoldable pub nullable : Regex → Bool
nullable never = false
nullable eps = true
nullable (class negated rs) = false
nullable (seq r s) = nullable r && nullable s
nullable (alt r s) = nullable r || nullable s
nullable (star r) = true

-- Sequence and alternation that drop what can never match.
unfoldable pub mk_seq : Regex → Regex → Regex
mk_seq never s = never
mk_seq eps s = s
mk_seq (class negated rs) s = seq (class negated rs) s
mk_seq (seq p r) s = seq (seq p r) s
mk_seq (alt p r) s = seq (alt p r) s
mk_seq (star r) s = seq (star r) s

unfoldable pub mk_alt : Regex → Regex → Regex
mk_alt never s = s
mk_alt eps s = alt eps s
mk_alt (class negated rs) s = alt (class negated rs) s
mk_alt (seq p r) s = alt (seq p r) s
mk_alt (alt p r) s = alt (alt p r) s
mk_alt (star r) s = alt (star r) s

unfoldable pub deriv : ℕ → Regex → Regex
unfolding mk_seq mk_alt nullable in_class
deriv c never = never
deriv c eps = never
deriv c (class negated rs) = if in_class c negated rs then eps else never
deriv c (seq r s) =
    let first = mk_seq (deriv c r) s in
    let both = mk_alt first (deriv c s) in if nullable r then both else first
deriv c (alt r s) = mk_alt (deriv c r) (deriv c s)
deriv c (star r) = mk_seq (deriv c r) (star r)

-- `regexp.MustCompile("^r$").MatchString(s)`
unfoldable pub match_string : Regex → Text → Bool
unfolding deriv nullable
match_string r [] = nullable r
match_string r (c ∷ s) = match_string (deriv c r) s

-- The language of an expression.
pub data Repeats (P : Text → Type 0) : Text → Type 0 where
  done : Repeats P []
  more : {c : ℕ} {xs ys zs : Text} → zs ≡ c ∷ (xs ++ ys) → P (c ∷ xs) → Repeats P ys → Repeats P zs

abbrev pub Lang : Regex → Text → Type 0
Lang never s = ⊥
Lang eps s = s ≡ []
Lang (class negated rs) s = (c : ℕ) × (s ≡ c ∷ []) × (in_class c negated rs ≡ true)
Lang (seq q r) s = (xs : Text) × (ys : Text) × (s ≡ xs ++ ys) × Lang q xs × Lang r ys
Lang (alt q r) s = Lang q s ⊎ Lang r s
Lang (star r) s = Repeats (Lang r) s
