-- ===== src/Auth/Store/Table/Laws.antt =====
-- Laws of the statements on a table.
use zenmind_official_server.Base.{
  ℕ, ◌+◌, ◌≤◌, ◌<◌, ◌≡◌, refl, Bool, true, false, ◌&&◌, some, List, [], ◌∷◌, ◌++◌, arith, inl, inr,
  Bool-cases, Option-cases, All, if◌then◌else◌,
}
use zenmind_official_server.Auth.Store.Table.{find, find_newest, update, count, delete, is_none}

module _ {ℓ} {A : Type ℓ} where
  pub count-append : (p : A → Bool) (xs ys : List A) → count p (xs ++ ys) ≡ count p xs + count p ys
  unfolding count
  count-append p [] ys = omega arith
  count-append p (x ∷ xs) ys = ground (arith, count-append p xs ys)

  pub find-count : (p : A → Bool) (xs : List A) (x : A) → find p xs ≡ some x → 0 < count p xs
  unfolding find count
  find-count p [] x h = cc
  find-count p (y ∷ xs) x h = ground (arith, find-count p xs x)

  pub find-holds : (p : A → Bool) (xs : List A) (x : A) → find p xs ≡ some x → p x ≡ true
  unfolding find
  find-holds p [] x h = cc
  find-holds p (y ∷ xs) x h = ground (arith, find-holds p xs x)

  pub find-none_iff : (p : A → Bool) (xs : List A) → is_none (find p xs) ≡ true → count p xs ≡ 0
  unfolding find count
  find-none_iff p [] h = refl
  find-none_iff p (x ∷ xs) h = ground (arith, find-none_iff p xs)

  pub find_newest-holds :
      (p t : A → Bool) (key : A → ℕ) (xs : List A) (x : A)
      → find_newest p key xs ≡ some x
      → t x ≡ true
      → 0 < count (λ y. t y && p y) xs
  unfolding find_newest count
  find_newest-holds p t key [] x h e = cc
  find_newest-holds p t key (y ∷ xs) x h e = elim (Option-cases (find_newest p key xs)) [
    | inl n ↦ ground arith
    | inr (z, n) ↦ ground (arith, find_newest-holds p t key xs x)
  ]

  -- A write that keeps the test keeps the count.
  pub count-update :
      (p q : A → Bool) (f : A → A) (xs : List A)
      → ((x : A) → q (f x) ≡ q x)
      → count q (update p f xs) ≡ count q xs
  unfolding update count
  count-update p q f [] h = refl
  count-update p q f (x ∷ xs) h = ground (arith, h x, count-update p q f xs h)

  -- A write of rows that fail the test afterwards takes off what passed it before.
  pub count-update_drop :
      (p q : A → Bool) (f : A → A) (xs : List A)
      → ((x : A) → q (f x) ≡ false)
      → count q (update p f xs) + count (λ x. p x && q x) xs ≡ count q xs
  unfolding update count
  count-update_drop p q f [] h = omega arith
  count-update_drop p q f (x ∷ xs) h = ground (arith, h x, count-update_drop p q f xs h)

  -- Tests that agree count alike, and a stronger test counts no more.
  pub count_mono :
      (p q : A → Bool) (xs : List A) → ((x : A) → p x ≡ true → q x ≡ true) → count p xs ≤ count q xs
  unfolding count
  count_mono p q [] h = omega arith
  count_mono p q (x ∷ xs) h = elim (Bool-cases (p x)) [
    | inl e ↦ rw (e, h x e) (omega (arith, count_mono p q xs h))
    | inr e ↦ rw e (ground (arith, count_mono p q xs h))
  ]

module _ {ℓ κ} {A : Type ℓ} (Q : A → Type κ) (p : A → Bool) where
  pub All-update :
      (f : A → A) → ((a : A) → Q a → Q (f a)) → (xs : List A) → All Q xs → All Q (update p f xs)
  unfolding update
  All-update f k [] h = tt
  All-update f k (x ∷ xs) (q, h) = elim (Bool-cases (p x)) [
    | inl e ↦ rw e (k x q, All-update f k xs h)
    | inr e ↦ rw e (q, All-update f k xs h)
  ]

  pub All-delete : (xs : List A) → All Q xs → All Q (delete p xs)
  unfolding delete
  All-delete [] h = tt
  All-delete (x ∷ xs) (q, h) = elim (Bool-cases (p x)) [
    | inl e ↦ rw e (All-delete xs h)
    | inr e ↦ rw e (q, All-delete xs h)
  ]

pub delete-All {ℓ} :
    {A : Type ℓ} (p : A → Bool) (xs : List A) → All (λ x. p x ≡ false) (delete p xs)
unfolding delete
delete-All p [] = tt
delete-All p (x ∷ xs) = elim (Bool-cases (p x)) [
  | inl e ↦ rw e (delete-All p xs)
  | inr e ↦ rw e (e, delete-All p xs)
]

module _ {ℓ} {A : Type ℓ} (p : A → Bool) where
  pub find-append : (xs ys : List A) (a : A) → find p xs ≡ some a → find p (xs ++ ys) ≡ some a
  unfolding find
  find-append [] ys a h = cc
  find-append (x ∷ xs) ys a h = ground (arith, find-append xs ys a)

  pub find-append_new :
      (xs : List A) (a : A)
      → is_none (find p xs) ≡ true
      → p a ≡ true
      → find p (xs ++ a ∷ []) ≡ some a
  unfolding find
  find-append_new [] a h e = ground arith
  find-append_new (x ∷ xs) a h e = ground (arith, find-append_new xs a)

  pub find-update :
      (q : A → Bool) (f : A → A)
      → ((x : A) → p (f x) ≡ p x)
      → (xs : List A) (a : A) → find p xs ≡ some a
      → find p (update q f xs) ≡ some (if q a then f a else a)
  unfolding find update
  find-update q f k [] a h = cc
  find-update q f k (x ∷ xs) a h = elim (Bool-cases (p x)) [
    | inl e ↦
        let same : some x ≡ some a = (rw e at h) in
        let xa : x ≡ a = cc in
        rw (← xa) (elim (Bool-cases (q x)) [
          | inl hit ↦ rw hit (rw (k x) (rw e refl))
          | inr miss ↦ rw miss (rw e refl)
        ])
    | inr e ↦
        let rest = find-update q f k xs a (rw e at h) in
        elim (Bool-cases (q x)) [
          | inl hit ↦ rw hit (rw (k x) (rw e rest))
          | inr miss ↦ rw miss (rw e rest)
        ]
  ]

pub find_none_mono {ℓ} :
    {A : Type ℓ} (p q : A → Bool)
    → ((a : A) → q a ≡ true → p a ≡ true)
    → (xs : List A) → is_none (find p xs) ≡ true
    → is_none (find q xs) ≡ true
unfolding find
find_none_mono p q k [] h = refl
find_none_mono p q k (x ∷ xs) h = ground (arith, k x, find_none_mono p q k xs)
