-- ===== src/Regex/Classes.antt =====
-- The languages of `[..]+`, `[..]{0,n}`, `[..]{n}` and of a literal, in terms of bytes.
use mathlib.Core.Path.{subst}
use zenmind_official_server.Base.{
  ℕ, zero, suc, ◌≤◌, ◌≡◌, ◌≢◌, refl, sym, ap, ◌∙◌, ◌↔◌, inl, inr, Bool, true, List, [], ◌∷◌, ◌++◌,
  arith, length, All,
}
use zenmind_official_server.Text.{Text}
use zenmind_official_server.Regex.{class, plus, times, up_to, in_class, Repeats, done, more, Lang}

module _ (negated : Bool) (rs : List (ℕ × ℕ)) where
  abbrev pub InClass : ℕ → Type 0
  InClass c = in_class c negated rs ≡ true

  star→All : (s : Text) → Repeats (Lang (class negated rs)) s → All InClass s
  star→All s done = tt
  star→All s (more {c = c} {xs = xs} {ys = ys} split (d, e, h) rest) =
      let same : d ≡ c = cc in
      let nil : xs ≡ [] = cc in
      let whole : s ≡ c ∷ ys = split ∙ ap (λ (x : Text). c ∷ (x ++ ys)) nil in
      subst (All InClass) (sym whole) (subst InClass same h, star→All ys rest)

  All→star : (s : Text) → All InClass s → Repeats (Lang (class negated rs)) s
  All→star [] h = done
  All→star (c ∷ s) h = more {xs = []} {ys = s} refl (c, refl, h.0) (All→star s h.1)

  pub Lang-plus : (s : Text) → Lang (plus (class negated rs)) s ↔ ((s ≢ []) × All InClass s)
  Lang-plus s = (to, from s)
    where
      to : Lang (plus (class negated rs)) s → (s ≢ []) × All InClass s
      to (xs, ys, e, (c, d, h), rest) =
          let whole : s ≡ c ∷ ys = e ∙ ap (λ (x : Text). x ++ ys) d in
          (λ nil. cc, subst (All InClass) (sym whole) (h, star→All ys rest))

      from : (t : Text) → (t ≢ []) × All InClass t → Lang (plus (class negated rs)) t
      from [] (ne, h) = absurd (ne refl)
      from (c ∷ t) (ne, h) = (c ∷ [], t, refl, (c, refl, h.0), All→star t h.1)

  up_to-cons :
      (n c : ℕ) (s : Text)
      → (Lang (up_to n (class negated rs)) s ↔ ((length s ≤ n) × All InClass s))
      → Lang (up_to (suc n) (class negated rs)) (c ∷ s)
        ↔ ((suc (length s) ≤ suc n) × All InClass (c ∷ s))
  unfolding up_to
  up_to-cons n c s ih = (to, from)
    where
      to :
          Lang (up_to (suc n) (class negated rs)) (c ∷ s)
          → (suc (length s) ≤ suc n) × All InClass (c ∷ s)
      to (inl h) = cc
      to (inr (xs, ys, e, (d, e', h), rest)) =
          let same : d ≡ c = cc in
          let tail : s ≡ ys = cc in
          let r = ih.0 (subst (Lang (up_to n (class negated rs))) (sym tail) rest) in
          (omega arith, (subst InClass same h, r.1))

      from :
          (suc (length s) ≤ suc n) × All InClass (c ∷ s)
          → Lang (up_to (suc n) (class negated rs)) (c ∷ s)
      from (l, (h, hs)) = inr (c ∷ [], s, refl, (c, refl, h), ih.1 (omega arith, hs))

  pub Lang-up_to :
      (n : ℕ) (s : Text) → Lang (up_to n (class negated rs)) s ↔ ((length s ≤ n) × All InClass s)
  unfolding up_to
  Lang-up_to zero [] = (λ h. (omega arith, tt), λ h. refl)
  Lang-up_to zero (c ∷ s) = (λ h. cc, λ h. absurd (omega arith))
  Lang-up_to (suc n) [] = (λ h. (omega arith, tt), λ h. inl refl)
  Lang-up_to (suc n) (c ∷ s) = up_to-cons n c s (Lang-up_to n s)

  times-cons :
      (n c : ℕ) (s : Text)
      → (Lang (times n (class negated rs)) s ↔ ((length s ≡ n) × All InClass s))
      → Lang (times (suc n) (class negated rs)) (c ∷ s)
        ↔ ((suc (length s) ≡ suc n) × All InClass (c ∷ s))
  unfolding times
  times-cons n c s ih = (to, from)
    where
      to :
          Lang (times (suc n) (class negated rs)) (c ∷ s)
          → (suc (length s) ≡ suc n) × All InClass (c ∷ s)
      to (xs, ys, e, (d, e', h), rest) =
          let same : d ≡ c = cc in
          let tail : s ≡ ys = cc in
          let r = ih.0 (subst (Lang (times n (class negated rs))) (sym tail) rest) in
          (omega arith, (subst InClass same h, r.1))

      from :
          (suc (length s) ≡ suc n) × All InClass (c ∷ s)
          → Lang (times (suc n) (class negated rs)) (c ∷ s)
      from (l, (h, hs)) = (c ∷ [], s, refl, (c, refl, h), ih.1 (omega arith, hs))

  pub Lang-times :
      (n : ℕ) (s : Text) → Lang (times n (class negated rs)) s ↔ ((length s ≡ n) × All InClass s)
  unfolding times
  Lang-times zero [] = (λ h. (refl, tt), λ h. refl)
  Lang-times zero (c ∷ s) = (λ h. cc, λ h. absurd (omega arith))
  Lang-times (suc n) [] = ((λ (xs, ys, e, (d, e', h), rest). cc), λ h. absurd (omega arith))
  Lang-times (suc n) (c ∷ s) = times-cons n c s (Lang-times n s)
