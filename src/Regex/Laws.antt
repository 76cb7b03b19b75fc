-- ===== src/Regex/Laws.antt =====
-- Matching by derivatives decides the language of an expression.
use mathlib.Core.Path.{subst}
use zenmind_official_server.Base.{
  ℕ, ◌≡◌, refl, sym, ap, ◌∙◌, ◌↔◌, ◌⊎◌, inl, inr, true, [], ◌∷◌, ◌++◌, arith, Bool-cases,
}
use zenmind_official_server.Text.{Text}
use zenmind_official_server.Regex.{
  Regex, never, eps, class, seq, alt, star, in_class, nullable, mk_seq, mk_alt, deriv, match_string,
  Repeats, done, more, Lang,
}

nullable→Lang : (r : Regex) → nullable r ≡ true → Lang r []
unfolding nullable
nullable→Lang never h = cc
nullable→Lang eps h = refl
nullable→Lang (class negated rs) h = cc
nullable→Lang (seq r s) h =
    ([], [], refl, nullable→Lang r (ground arith), nullable→Lang s (ground arith))
nullable→Lang (alt r s) h = elim (Bool-cases (nullable r)) [
  | inl e ↦ inl (nullable→Lang r e)
  | inr e ↦ inr (nullable→Lang s (rw e at h))
]
nullable→Lang (star r) h = done

append-eq-nil_left : (xs ys : Text) → [] ≡ xs ++ ys → xs ≡ []
append-eq-nil_left [] ys e = refl
append-eq-nil_left (x ∷ xs) ys e = cc

append-eq-nil_right : (xs ys : Text) → [] ≡ xs ++ ys → ys ≡ []
append-eq-nil_right [] ys e = sym e
append-eq-nil_right (x ∷ xs) ys e = cc

Lang→nullable : (r : Regex) → Lang r [] → nullable r ≡ true
unfolding nullable
Lang→nullable never h = absurd h
Lang→nullable eps h = refl
Lang→nullable (class negated rs) (c, e, h) = cc
Lang→nullable (seq r s) (xs, ys, e, hx, hy) =
    let a = Lang→nullable r (subst (Lang r) (append-eq-nil_left xs ys e) hx) in
    let b = Lang→nullable s (subst (Lang s) (append-eq-nil_right xs ys e) hy) in ground arith
Lang→nullable (alt r s) (inl h) = rw (Lang→nullable r h) refl
Lang→nullable (alt r s) (inr h) = ground (arith, Lang→nullable s h)
Lang→nullable (star r) h = refl

-- The smart constructors keep the language.
mk_seq→Lang : (r s : Regex) (t : Text) → Lang (mk_seq r s) t → Lang (seq r s) t
unfolding mk_seq
mk_seq→Lang never s t h = absurd h
mk_seq→Lang eps s t h = ([], t, refl, refl, h)
mk_seq→Lang (class negated rs) s t h = h
mk_seq→Lang (seq p r) s t h = h
mk_seq→Lang (alt p r) s t h = h
mk_seq→Lang (star r) s t h = h

Lang→mk_seq : (r s : Regex) (t : Text) → Lang (seq r s) t → Lang (mk_seq r s) t
unfolding mk_seq
Lang→mk_seq never s t (xs, ys, e, hx, hy) = hx
Lang→mk_seq eps s t (xs, ys, e, hx, hy) =
    subst (Lang s) (sym (e ∙ ap (λ (x : Text). x ++ ys) hx)) hy
Lang→mk_seq (class negated rs) s t h = h
Lang→mk_seq (seq p r) s t h = h
Lang→mk_seq (alt p r) s t h = h
Lang→mk_seq (star r) s t h = h

mk_alt→Lang : (r s : Regex) (t : Text) → Lang (mk_alt r s) t → Lang (alt r s) t
unfolding mk_alt
mk_alt→Lang never s t h = inr h
mk_alt→Lang eps s t h = h
mk_alt→Lang (class negated rs) s t h = h
mk_alt→Lang (seq p r) s t h = h
mk_alt→Lang (alt p r) s t h = h
mk_alt→Lang (star r) s t h = h

Lang→mk_alt : (r s : Regex) (t : Text) → Lang (alt r s) t → Lang (mk_alt r s) t
unfolding mk_alt
Lang→mk_alt never s t (inl h) = absurd h
Lang→mk_alt never s t (inr h) = h
Lang→mk_alt eps s t h = h
Lang→mk_alt (class negated rs) s t h = h
Lang→mk_alt (seq p r) s t h = h
Lang→mk_alt (alt p r) s t h = h
Lang→mk_alt (star r) s t h = h

-- One derivative step, both ways.
first→seq :
    (c : ℕ) (r s : Regex) (t : Text)
    → ((u : Text) → Lang (deriv c r) u → Lang r (c ∷ u))
    → Lang (mk_seq (deriv c r) s) t
    → Lang (seq r s) (c ∷ t)
first→seq c r s t step h =
    let (xs, ys, e, hx, hy) = mk_seq→Lang (deriv c r) s t h in
    (c ∷ xs, ys, ap (λ (u : Text). c ∷ u) e, step xs hx, hy)

deriv→Lang : (c : ℕ) (r : Regex) (t : Text) → Lang (deriv c r) t → Lang r (c ∷ t)
unfolding deriv
deriv→Lang c never t h = h
deriv→Lang c eps t h = absurd h
deriv→Lang c (class negated rs) t h = elim (Bool-cases (in_class c negated rs)) [
  | inl e ↦ let g : Lang eps t = (rw e at h) in (c, ap (λ (u : Text). c ∷ u) g, e)
  | inr e ↦ absurd (rw e at h)
]
deriv→Lang c (seq r s) t h = elim (Bool-cases (nullable r)) [
  | inl e ↦ elim (mk_alt→Lang (mk_seq (deriv c r) s) (deriv c s) t (rw e at h)) [
    | inl g ↦ first→seq c r s t (deriv→Lang c r) g
    | inr g ↦ ([], c ∷ t, refl, nullable→Lang r e, deriv→Lang c s t g)
  ]
  | inr e ↦ first→seq c r s t (deriv→Lang c r) (rw e at h)
]
deriv→Lang c (alt r s) t h = elim (mk_alt→Lang (deriv c r) (deriv c s) t h) [
  | inl g ↦ inl (deriv→Lang c r t g)
  | inr g ↦ inr (deriv→Lang c s t g)
]
deriv→Lang c (star r) t h =
    let (xs, ys, e, hx, hy) = mk_seq→Lang (deriv c r) (star r) t h in
    more (ap (λ (u : Text). c ∷ u) e) (deriv→Lang c r xs hx) hy

-- A text that begins with `c` and splits in two: the split is before or behind `c`.
seq→first :
    (c : ℕ) (r s : Regex) (t xs ys : Text)
    → ((u : Text) → Lang r (c ∷ u) → Lang (deriv c r) u)
    → ((u : Text) → Lang s (c ∷ u) → Lang (deriv c s) u)
    → c ∷ t ≡ xs ++ ys
    → Lang r xs
    → Lang s ys
    → Lang (mk_seq (deriv c r) s) t ⊎ ((nullable r ≡ true) × Lang (deriv c s) t)
seq→first c r s t [] ys step_r step_s e hx hy =
    inr (Lang→nullable r hx, step_s t (subst (Lang s) (sym e) hy))
seq→first c r s t (x ∷ xs) ys step_r step_s e hx hy =
    let same : x ≡ c = cc in
    let rest : t ≡ xs ++ ys = cc in
    inl (
      Lang→mk_seq (deriv c r) s t
        (xs, ys, rest, step_r xs (subst (λ d. Lang r (d ∷ xs)) same hx), hy))

-- A repetition that begins with `c` has a first round that begins with `c`.
Repeats-cons :
    {P : Text → Type 0} (c : ℕ) (t s : Text)
    → Repeats P s
    → s ≡ c ∷ t
    → (xs : Text) × (ys : Text) × (t ≡ xs ++ ys) × P (c ∷ xs) × Repeats P ys
Repeats-cons c t s done e = cc
Repeats-cons {P} c t s (more {c = d} {xs = xs} {ys = ys} split first rest) e =
    let same : d ≡ c = cc in
    let tail : t ≡ xs ++ ys = cc in (xs, ys, tail, subst (λ x. P (x ∷ xs)) same first, rest)

Lang→deriv : (c : ℕ) (r : Regex) (t : Text) → Lang r (c ∷ t) → Lang (deriv c r) t
unfolding deriv
Lang→deriv c never t h = h
Lang→deriv c eps t h = cc
Lang→deriv c (class negated rs) t (d, e, h) =
    let same : d ≡ c = cc in
    let rest : t ≡ [] = cc in
    let hit : in_class c negated rs ≡ true = subst (λ x. in_class x negated rs ≡ true) same h in
    rw hit rest
Lang→deriv c (seq r s) t (xs, ys, e, hx, hy) = elim (Bool-cases (nullable r)) [
  | inl n ↦ rw n (elim (seq→first c r s t xs ys (Lang→deriv c r) (Lang→deriv c s) e hx hy) [
    | inl g ↦ Lang→mk_alt (mk_seq (deriv c r) s) (deriv c s) t (inl g)
    | inr g ↦ Lang→mk_alt (mk_seq (deriv c r) s) (deriv c s) t (inr g.1)
  ])
  | inr n ↦ rw n (elim (seq→first c r s t xs ys (Lang→deriv c r) (Lang→deriv c s) e hx hy) [
    | inl g ↦ g
    | inr g ↦ cc (g.0)
  ])
]
Lang→deriv c (alt r s) t (inl h) = Lang→mk_alt (deriv c r) (deriv c s) t (inl (Lang→deriv c r t h))
Lang→deriv c (alt r s) t (inr h) = Lang→mk_alt (deriv c r) (deriv c s) t (inr (Lang→deriv c s t h))
Lang→deriv c (star r) t h =
    let (xs, ys, e, first, rest) = Repeats-cons c t (c ∷ t) h refl in
    Lang→mk_seq (deriv c r) (star r) t (xs, ys, e, Lang→deriv c r xs first, rest)

-- Matching accepts exactly the texts of the language.
pub match_string_iff : (r : Regex) (s : Text) → (match_string r s ≡ true) ↔ Lang r s
unfolding match_string
match_string_iff r [] = (nullable→Lang r, Lang→nullable r)
match_string_iff r (c ∷ s) =
    let (to, from) = match_string_iff (deriv c r) s in
    (λ h. deriv→Lang c r s (to h), λ h. from (Lang→deriv c r s h))
