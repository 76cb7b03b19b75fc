-- ===== src/Text/Laws.antt =====
-- Laws of the string functions.
use mathlib.Core.Path.{subst}
use mathlib.Core.List.{reverse-cons, reverse-append, reverse-reverse, map-append}
use zenmind_official_server.Base.{
  ℕ, ◌≤◌, ◌≡◌, refl, sym, ap, ◌∙◌, ◌↔◌, inl, inr, true, false, [], ◌∷◌, ◌++◌, reverse, arith,
  length, Bool-cases, length-take-le,
}
use zenmind_official_server.Text.{
  Text, text_eq, is_space, to_lower_byte, to_lower, trim_left, trim_space, normalize_email,
  truncate,
}

text_eq→eq : (s t : Text) → text_eq s t ≡ true → s ≡ t
unfolding text_eq
text_eq→eq [] [] h = refl
text_eq→eq [] (b ∷ t) h = cc
text_eq→eq (a ∷ s) [] h = cc
text_eq→eq (a ∷ s) (b ∷ t) h = ground (arith, text_eq→eq s t)

pub text_eq_refl : (s : Text) → text_eq s s ≡ true
unfolding text_eq
text_eq_refl [] = refl
text_eq_refl (a ∷ s) = ground (arith, text_eq_refl s)

pub text_eq_iff : (s t : Text) → (text_eq s t ≡ true) ↔ (s ≡ t)
text_eq_iff s t = (text_eq→eq s t, λ e. rw e (text_eq_refl t))

pub text_eq_sym : (s t : Text) → text_eq s t ≡ true → text_eq t s ≡ true
text_eq_sym s t h = ground (arith, text_eq_iff s t, text_eq_refl s)

pub text_eq_trans : (s t u : Text) → text_eq s t ≡ true → text_eq t u ≡ true → text_eq s u ≡ true
text_eq_trans s t u h k = ground (arith, text_eq_iff s t, text_eq_iff t u, text_eq_refl s)

pub truncate-length : (s : Text) (n : ℕ) → length (truncate s n) ≤ n
unfolding truncate
truncate-length s n = ground (arith, length-take-le n s)

-- A byte that is no space.
abbrev IsInk : ℕ → Type 0
IsInk c = is_space c ≡ false

-- The text is empty or begins with a byte that is no space.
abbrev StartsInk : Text → Type 0
StartsInk [] = Unit
StartsInk (c ∷ s) = is_space c ≡ false

trim_left-StartsInk : (s : Text) → StartsInk (trim_left s)
unfolding trim_left
trim_left-StartsInk [] = tt
trim_left-StartsInk (c ∷ s) = elim (Bool-cases (is_space c)) [
  | inl e ↦ rw e (trim_left-StartsInk s)
  | inr e ↦ rw e e
]

trim_left-eq_of_StartsInk : (s : Text) → StartsInk s → trim_left s ≡ s
unfolding trim_left
trim_left-eq_of_StartsInk [] h = refl
trim_left-eq_of_StartsInk (c ∷ s) h = rw h

-- What is left is a suffix: the rest after some spaces.
trim_left-suffix : (s : Text) → (p : Text) × (s ≡ p ++ trim_left s)
unfolding trim_left
trim_left-suffix [] = ([], refl)
trim_left-suffix (c ∷ s) = elim (Bool-cases (is_space c)) [
  | inl e ↦ rw e (let (p, q) = trim_left-suffix s in (c ∷ p, ap (λ r. c ∷ r) q))
  | inr e ↦ rw e ([], refl)
]

StartsInk-append_left : (s t : Text) → StartsInk (s ++ t) → StartsInk s
StartsInk-append_left [] t h = tt
StartsInk-append_left (c ∷ s) t h = h

-- A trimmed text begins and ends with no space.
abbrev pub IsTrimmed : Text → Type 0
IsTrimmed s = StartsInk s × StartsInk (reverse s)

trim_space-IsTrimmed : (s : Text) → IsTrimmed (trim_space s)
unfolding trim_space
trim_space-IsTrimmed s =
    let a = trim_left s in
    let b = trim_left (reverse a) in
    let (p, e) = trim_left-suffix (reverse a) in
    let split : a ≡ reverse b ++ reverse p =
      sym (reverse-reverse a) ∙ (ap reverse e ∙ reverse-append p b) in
    (
      StartsInk-append_left (reverse b) (reverse p) (subst StartsInk split (trim_left-StartsInk s)),
      subst StartsInk (sym (reverse-reverse b)) (trim_left-StartsInk (reverse a)),
    )

trim_space-eq_of_IsTrimmed : (s : Text) → IsTrimmed s → trim_space s ≡ s
unfolding trim_space
trim_space-eq_of_IsTrimmed s (h, k) =
    rw (trim_left-eq_of_StartsInk s h)
      (rw (trim_left-eq_of_StartsInk (reverse s) k) (reverse-reverse s))

pub trim_space_idempotent : (s : Text) → trim_space (trim_space s) ≡ trim_space s
trim_space_idempotent s = trim_space-eq_of_IsTrimmed (trim_space s) (trim_space-IsTrimmed s)

is_space-to_lower_byte : (c : ℕ) → is_space (to_lower_byte c) ≡ is_space c
unfolding is_space to_lower_byte
is_space-to_lower_byte c = ground arith

to_lower_byte_idempotent : (c : ℕ) → to_lower_byte (to_lower_byte c) ≡ to_lower_byte c
unfolding to_lower_byte
to_lower_byte_idempotent c = ground arith

pub to_lower_idempotent : (s : Text) → to_lower (to_lower s) ≡ to_lower s
unfolding to_lower
to_lower_idempotent [] = refl
to_lower_idempotent (c ∷ s) = cc (to_lower_byte_idempotent c, to_lower_idempotent s)

trim_left-to_lower : (s : Text) → trim_left (to_lower s) ≡ to_lower (trim_left s)
unfolding trim_left to_lower
trim_left-to_lower [] = refl
trim_left-to_lower (c ∷ s) = ground (arith, is_space-to_lower_byte c, trim_left-to_lower s)

to_lower-reverse : (s : Text) → to_lower (reverse s) ≡ reverse (to_lower s)
unfolding to_lower
to_lower-reverse [] = refl
to_lower-reverse (c ∷ s) = simp (reverse-cons, map-append) (cc (to_lower-reverse s))

trim_space-to_lower : (s : Text) → trim_space (to_lower s) ≡ to_lower (trim_space s)
unfolding trim_space
trim_space-to_lower s = simp (trim_left-to_lower, ← to_lower-reverse)

pub normalize_email_idempotent :
    (s : Text) → normalize_email (normalize_email s) ≡ normalize_email s
unfolding normalize_email
normalize_email_idempotent s =
    rw (trim_space-to_lower (trim_space s))
      (rw (to_lower_idempotent (trim_space (trim_space s))) (ap to_lower (trim_space_idempotent s)))

pub normalize_email-IsTrimmed : (s : Text) → trim_space (normalize_email s) ≡ normalize_email s
unfolding normalize_email
normalize_email-IsTrimmed s =
    rw (trim_space-to_lower (trim_space s)) (ap to_lower (trim_space_idempotent s))
