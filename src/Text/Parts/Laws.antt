-- ===== src/Text/Parts/Laws.antt =====
-- What is in the list, and that reading it again changes nothing.
use mathlib.Core.List.{map, reverse-cons, append-nil, append_assoc}
use zenmind_official_server.Base.{
  ℕ, ◌≡◌, refl, sym, ap, ◌∙◌, false, not, ◌&&◌, ◌||◌, List, [], ◌∷◌, ◌++◌, inl, inr, arith, All,
  Bool-cases, ◌==◌, reverse,
}
use zenmind_official_server.Text.{
  Text, trim_space, is_blank, contains_byte, split, split_from, trim_left,
}
use zenmind_official_server.Text.Laws.{text_eq_iff, trim_space_idempotent}
use zenmind_official_server.Text.Parts.{mem, distinct_from, distinct, split_all}

-- A name that the loop has taken: trimmed and not blank.
abbrev pub IsName : Text → Type 0
IsName s = (trim_space s ≡ s) × (is_blank s ≡ false)

-- None of the names is among the seen ones, and none stands twice.
abbrev pub AreNew : List Text → List Text → Type 0
AreNew seen [] = Unit
AreNew seen (s ∷ ss) = (mem s seen ≡ false) × AreNew (s ∷ seen) ss

pub distinct_from-IsName : (seen parts : List Text) → All IsName (distinct_from seen parts)
unfolding distinct_from
distinct_from-IsName seen [] = tt
distinct_from-IsName seen (p ∷ ps) =
    elim (Bool-cases (is_blank (trim_space p) || mem (trim_space p) seen)) [
      | inl skip ↦ rw skip (distinct_from-IsName seen ps)
      | inr take ↦
          rw take
            ((trim_space_idempotent p, ground arith), distinct_from-IsName (trim_space p ∷ seen) ps)
    ]

pub distinct_from-AreNew : (seen parts : List Text) → AreNew seen (distinct_from seen parts)
unfolding distinct_from
distinct_from-AreNew seen [] = tt
distinct_from-AreNew seen (p ∷ ps) =
    elim (Bool-cases (is_blank (trim_space p) || mem (trim_space p) seen)) [
      | inl skip ↦ rw skip (distinct_from-AreNew seen ps)
      | inr take ↦ rw take (ground arith, distinct_from-AreNew (trim_space p ∷ seen) ps)
    ]

-- Names that are new are all taken as they are.
pub distinct_from-eq :
    (seen names : List Text)
    → All IsName names
    → AreNew seen names
    → distinct_from seen names ≡ names
unfolding distinct_from
distinct_from-eq seen [] h k = refl
distinct_from-eq seen (s ∷ ss) ((trimmed, ink), h) (fresh, k) =
    rw (trimmed, ink, fresh) (ap (λ r. s ∷ r) (distinct_from-eq (s ∷ seen) ss h k))

-- The loop takes the parts, trimmed, that are not blank and have not been seen.
mem-distinct_from :
    (s : Text) (seen parts : List Text)
    → mem s (distinct_from seen parts)
      ≡ (not (is_blank s) && (not (mem s seen) && mem s (map trim_space parts)))
unfolding distinct_from mem
mem-distinct_from s seen [] = ground arith
mem-distinct_from s seen (p ∷ ps) =
    elim (Bool-cases (is_blank (trim_space p) || mem (trim_space p) seen)) [
      | inl skip ↦
          rw skip (ground (arith, text_eq_iff (trim_space p) s, mem-distinct_from s seen ps))
      | inr take ↦ rw take (
          ground
            (arith, text_eq_iff (trim_space p) s, mem-distinct_from s (trim_space p ∷ seen) ps))
    ]

pub mem-distinct :
    (s : Text) (parts : List Text)
    → mem s (distinct parts) ≡ (not (is_blank s) && mem s (map trim_space parts))
unfolding distinct mem
mem-distinct s parts = mem-distinct_from s [] parts

contains_byte-append :
    (c : ℕ) (s t : Text) → contains_byte c (s ++ t) ≡ (contains_byte c s || contains_byte c t)
unfolding contains_byte
contains_byte-append c [] t = refl
contains_byte-append c (d ∷ s) t = ground (arith, contains_byte-append c s t)

contains_byte-reverse : (c : ℕ) (s : Text) → contains_byte c (reverse s) ≡ contains_byte c s
unfolding contains_byte
contains_byte-reverse c [] = refl
contains_byte-reverse c (d ∷ s) =
    rw (reverse-cons d s)
      (rw (contains_byte-append c (reverse s) (d ∷ [])) (ground (arith, contains_byte-reverse c s)))

-- A text without the byte.
abbrev pub Avoids : ℕ → Text → Type 0
Avoids c s = contains_byte c s ≡ false

trim_left-Avoids : (c : ℕ) (s : Text) → Avoids c s → Avoids c (trim_left s)
unfolding trim_left contains_byte
trim_left-Avoids c [] h = refl
trim_left-Avoids c (d ∷ s) h = ground (arith, trim_left-Avoids c s)

trim_space-Avoids : (c : ℕ) (s : Text) → Avoids c s → Avoids c (trim_space s)
unfolding trim_space
trim_space-Avoids c s h =
    contains_byte-reverse c _
    ∙ trim_left-Avoids c _ (contains_byte-reverse c _ ∙ trim_left-Avoids c s h)

Avoids-nil : (sep : ℕ) → Avoids sep []
unfolding contains_byte
Avoids-nil sep = refl

split_from-Avoids :
    (sep : ℕ) (cur s : Text) → Avoids sep cur → All (Avoids sep) (split_from sep cur s)
unfolding split_from contains_byte
split_from-Avoids sep cur [] h = (contains_byte-reverse sep cur ∙ h, tt)
split_from-Avoids sep cur (c ∷ s) h = elim (Bool-cases (c == sep)) [
  | inl cut ↦ rw cut (contains_byte-reverse sep cur ∙ h, split_from-Avoids sep [] s refl)
  | inr on ↦ rw on (split_from-Avoids sep (c ∷ cur) s (rw on h))
]

distinct_from-Avoids :
    (sep : ℕ) (seen parts : List Text)
    → All (Avoids sep) parts
    → All (Avoids sep) (distinct_from seen parts)
unfolding distinct_from
distinct_from-Avoids sep seen [] h = tt
distinct_from-Avoids sep seen (p ∷ ps) h =
    elim (Bool-cases (is_blank (trim_space p) || mem (trim_space p) seen)) [
      | inl skip ↦ rw skip (distinct_from-Avoids sep seen ps h.1)
      | inr take ↦
          rw take
            (trim_space-Avoids sep p h.0, distinct_from-Avoids sep (trim_space p ∷ seen) ps h.1)
    ]

-- A text without the separator is one part.
split_from-eq :
    (sep : ℕ) (cur s : Text) → Avoids sep s → split_from sep cur s ≡ (reverse cur ++ s) ∷ []
unfolding split_from contains_byte
split_from-eq sep cur [] h = ap (λ t. t ∷ []) (sym (append-nil (reverse cur)))
split_from-eq sep cur (c ∷ s) h =
    let on : (c == sep) ≡ false = ground arith in
    rw on (
      split_from-eq sep (c ∷ cur) s (ground arith)
      ∙ ap (λ t. t ∷ []) (rw (reverse-cons c cur) (append_assoc (reverse cur) (c ∷ []) s)))

split_all-eq : (sep : ℕ) (names : List Text) → All (Avoids sep) names → split_all sep names ≡ names
unfolding split_all split
split_all-eq sep [] h = refl
split_all-eq sep (s ∷ ss) h =
    rw (split_from-eq sep [] s h.0) (ap (λ r. s ∷ r) (split_all-eq sep ss h.1))

-- Reading again the names of a list changes nothing, whether each is split again or not.
pub distinct-split_again :
    (sep : ℕ) (value : Text)
    → distinct (split_all sep (distinct (split sep value))) ≡ distinct (split sep value)
unfolding distinct split
distinct-split_again sep value =
    let parts = split_from sep [] value in
    let names = distinct_from [] parts in
    let clean =
      distinct_from-Avoids sep [] parts (split_from-Avoids sep [] value (Avoids-nil sep)) in
    rw (split_all-eq sep names clean)
      (distinct_from-eq [] names (distinct_from-IsName [] parts) (distinct_from-AreNew [] parts))
