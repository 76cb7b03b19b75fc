-- ===== src/Dict/Laws.antt =====
-- Laws of the maps, in the form of their lookups.
use mathlib.Core.Path.{subst}
use zenmind_official_server.Base.{
  ◌≡◌, refl, Bool, Option, none, some, [], ◌∷◌, inl, inr, arith, if◌then◌else◌, Bool-cases,
}
use zenmind_official_server.Text.{Text, text_eq}
use zenmind_official_server.Text.Laws.{text_eq_iff, text_eq_refl}
use zenmind_official_server.Dict.{Dict, lookup, insert, keep, IsDict}

-- The value of a key, kept if it passes the test.
abbrev pub pass {ℓ} : {V : Type ℓ} → (V → Bool) → Option V → Option V
pass p none = none
pass p (some v) = if p v then some v else none

module _ {ℓ} {V : Type ℓ} where
  pub lookup-insert :
      (k j : Text) (v : V) (m : Dict V)
      → lookup j (insert k v m) ≡ (if text_eq k j then some v else lookup j m)
  unfolding lookup insert
  lookup-insert k j v [] = refl
  lookup-insert k j v ((i, w) ∷ m) =
      ground (arith, text_eq_iff k j, text_eq_iff i k, text_eq_iff i j, lookup-insert k j v m)

  pub lookup-insert_self : (k : Text) (v : V) (m : Dict V) → lookup k (insert k v m) ≡ some v
  lookup-insert_self k v m = rw (lookup-insert k k v m) (rw (text_eq_refl k))

  lookup-keep-none :
      (p : V → Bool) (j : Text) (m : Dict V) → lookup j m ≡ none → lookup j (keep p m) ≡ none
  unfolding lookup keep
  lookup-keep-none p j [] h = refl
  lookup-keep-none p j ((i, v) ∷ m) h = ground (arith, lookup-keep-none p j m)

  pub lookup-keep :
      (p : V → Bool) (j : Text) (m : Dict V) → IsDict m → lookup j (keep p m) ≡ pass p (lookup j m)
  unfolding lookup keep
  lookup-keep p j [] h = refl
  lookup-keep p j ((i, v) ∷ m) (fresh, h) = elim (Bool-cases (text_eq i j)) [
    | inl same ↦
        let e : i ≡ j = (text_eq_iff i j).0 same in
        ground (arith, lookup-keep-none p j m (subst (λ x. lookup x m ≡ none) e fresh))
    | inr other ↦ ground (arith, lookup-keep p j m h)
  ]

  pub insert-IsDict : (k : Text) (v : V) (m : Dict V) → IsDict m → IsDict (insert k v m)
  unfolding insert lookup
  insert-IsDict k v [] h = (refl, tt)
  insert-IsDict k v ((j, w) ∷ m) (fresh, h) = elim (Bool-cases (text_eq j k)) [
    | inl same ↦ rw same (fresh, h)
    | inr other ↦ rw other (
      rw (lookup-insert k j v m) (ground (arith, text_eq_iff j k, text_eq_iff k j)),
      insert-IsDict k v m h,
    )
  ]

  pub keep-IsDict : (p : V → Bool) (m : Dict V) → IsDict m → IsDict (keep p m)
  unfolding keep
  keep-IsDict p [] h = tt
  keep-IsDict p ((j, v) ∷ m) (fresh, h) = elim (Bool-cases (p v)) [
    | inl hit ↦ rw hit (lookup-keep-none p j m fresh, keep-IsDict p m h)
    | inr miss ↦ rw miss (keep-IsDict p m h)
  ]
