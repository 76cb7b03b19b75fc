-- ===== src/Auth/Store/Table.antt =====
-- SELECT, UPDATE and the uniqueness test of a table, over its rows in the order of the primary key.
pub mod Laws
use mathlib.Core.Path.{subst}
use zenmind_official_server.Base.{
  ℕ, zero, suc, ◌+◌, ◌≤◌, ◌≡◌, refl, ap, Bool, true, false, not, ◌&&◌, Option, none, some, List, [],
  ◌∷◌, ◌++◌, if◌then◌else◌, arith, ltb, inl, inr, Bool-cases, All,
}

module _ {ℓ} {A : Type ℓ} where
  -- SELECT ... WHERE p LIMIT 1
  unfoldable pub find : (A → Bool) → List A → Option A
  find p [] = none
  find p (x ∷ xs) = if p x then some x else find p xs

  -- SELECT ... WHERE p ORDER BY key DESC LIMIT 1; of equal keys the index is read from its end
  unfoldable pub find_newest : (A → Bool) → (A → ℕ) → List A → Option A
  find_newest p key [] = none
  find_newest p key (x ∷ xs) = elim (find_newest p key xs) [
    | some y ↦ if p x && ltb (key y) (key x) then some x else some y
    | none ↦ if p x then some x else none
  ]

  -- UPDATE ... SET f WHERE p
  unfoldable pub update : (A → Bool) → (A → A) → List A → List A
  update p f [] = []
  update p f (x ∷ xs) = (if p x then f x else x) ∷ update p f xs

  -- How many rows satisfy p.
  unfoldable pub count : (A → Bool) → List A → ℕ
  count p [] = 0
  count p (x ∷ xs) = if p x then suc (count p xs) else count p xs

  -- DELETE ... WHERE p
  unfoldable pub delete : (A → Bool) → List A → List A
  delete p [] = []
  delete p (x ∷ xs) = let rest = delete p xs in if p x then rest else x ∷ rest

abbrev pub is_none {ℓ} : {A : Type ℓ} → Option A → Bool
is_none none = true
is_none (some a) = false
