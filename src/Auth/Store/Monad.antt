-- ===== src/Auth/Store/Monad.antt =====
-- What a method of the store does: it runs on the tables, reads the wall clock, and any call of the
-- driver may fail. The failures to come are listed in `faults`, one entry for each call; behind its
-- end no call fails.
use zenmind_official_server.Base.{
  ◌⊎◌, arith, ap, sym, ◌∙◌, inl, inr, Bool-cases, ℕ, ◌≡◌, refl, Bool, true, false, Option, none,
  some, List, [], ◌∷◌, if◌then◌else◌,
}
use zenmind_official_server.Auth.Store.Defs.{Db, User}

pub data Error : Type 0 where
  -- ErrNotFound
  not_found : Error
  -- ErrDisabledUser, with the user that is returned beside it
  disabled_user : User → Error
  -- an error of the driver
  driver : Error

pub data Result {ℓ} (A : Type ℓ) : Type ℓ where
  ok : A → Result A
  err : Error → Result A

abbrev pub is_ok {ℓ} : {A : Type ℓ} → Result A → Bool
is_ok (ok a) = true
is_ok (err e) = false

pub record World : Type 0 where
  pub db : Db
  pub faults : List Bool
  -- time.Now()
  pub clock : ℕ

abbrev pub M : Type 0 → Type 0
M A = World → Result A × World

abbrev pub continue {ℓ} :
    {A : Type 0} {B : Type ℓ} → Result A → (A → World → Result B × World) → World → Result B × World
continue (ok a) f w = f a w
continue (err e) f w = (err e, w)

infixl 10 ◌>>=◌ ◌>>◌
unfoldable pub ◌>>=◌ : {A B : Type 0} → M A → (A → M B) → M B
◌>>=◌ m f w = let (r, w') = m w in continue r f w'

abbrev pub ◌>>◌ : {A B : Type 0} → M A → M B → M B
m >> n = m >>= λ _. n

abbrev pub pure : {A : Type 0} → A → M A
pure a w = (ok a, w)

abbrev pub raise : {A : Type 0} → Error → M A
raise e w = (err e, w)

abbrev pub gets : {A : Type 0} → (Db → A) → M A
gets f w = (ok (f w.db), w)

abbrev pub modify : (Db → Db) → M (Unit {0})
modify f w = (ok tt, record w { db = f w.db })

abbrev pub time_now : M ℕ
time_now w = (ok w.clock, w)

abbrev take_fault : List Bool → Bool × List Bool
take_fault [] = (false, [])
take_fault (b ∷ bs) = (b, bs)

-- One call of the driver: it fails, or goes on.
unfoldable pub attempt : M (Unit {0})
attempt w =
    let (fails, later) = take_fault w.faults in
    (if fails then err driver else ok tt, record w { faults = later })

-- The row of a query, or ErrNotFound (sql.ErrNoRows).
abbrev pub required : {A : Type 0} → Option A → M A
required none = raise not_found
required (some a) = pure a

-- What is done with the row of a query, and what without one (sql.ErrNoRows).
abbrev pub on_row : {A B : Type 0} → Option A → (A → M B) → M B → M B
on_row none found missing = missing
on_row (some a) found missing = found a

-- `_ = call`
abbrev pub ignore : {A : Type 0} → M A → M (Unit {0})
ignore m w = (ok tt, (m w).1)

abbrev pub roll_back : {A : Type 0} → Db → Result A × World → Result A × World
roll_back before (ok a, w) = (ok a, w)
roll_back before (err e, w) = (err e, record w { db = before })

-- `if err != nil { return ErrNotFound }`
abbrev pub or_not_found : {A : Type 0} → M A → M A
or_not_found m w = let (r, w') = m w in (elim r [ ok a ↦ ok a | err e ↦ err not_found ], w')

-- BeginTx, the body, Commit; `defer tx.Rollback()` undoes the body if one of them fails.
unfoldable pub transaction : {A : Type 0} → M A → M A
unfolding attempt ◌>>=◌
transaction body w = roll_back w.db ((do attempt; a ← body; attempt; pure a) w)

roll_back-db :
    {A : Type 0} (before : Db) (r : Result A × World) (e : Error)
    → (roll_back before r).0 ≡ err e
    → (roll_back before r).1.db ≡ before
roll_back-db before (ok a, w) e h = cc
roll_back-db before (err e', w) e h = refl

-- A transaction that fails has changed no table, whatever call failed.
pub transaction_atomic :
    {A : Type 0} (body : M A) (w : World) (e : Error)
    → (transaction body w).0 ≡ err e
    → (transaction body w).1.db ≡ w.db
unfolding transaction
transaction_atomic body w e h = roll_back-db w.db _ e h

continue-ok :
    {A B : Type 0} (r : Result A) (f : A → M B) (w : World) (b : B)
    → (continue r f w).0 ≡ ok b
    → (a : A) × (r ≡ ok a) × (continue r f w ≡ f a w)
continue-ok (ok a) f w b h = (a, refl, refl)
continue-ok (err e) f w b h = cc

-- If a sequence returns, its first part has returned.
pub bind-ok :
    {A B : Type 0} (m : M A) (f : A → M B) (w : World) (b : B)
    → ((m >>= f) w).0 ≡ ok b
    → (a : A) × ((m w).0 ≡ ok a) × ((m >>= f) w ≡ f a (m w).1)
unfolding ◌>>=◌
bind-ok m f w b h = continue-ok (m w).0 f (m w).1 b h

roll_back-ok :
    {A : Type 0} (before : Db) (r : Result A × World) (a : A)
    → (roll_back before r).0 ≡ ok a
    → roll_back before r ≡ r
roll_back-ok before (ok b, w) a h = refl
roll_back-ok before (err e, w) a h = cc

committed :
    {A : Type 0} (r : Result A) (w : World) (a : A)
    → (continue r (λ a. do attempt; pure a) w).0 ≡ ok a
    → (r ≡ ok a) × ((continue r (λ a. do attempt; pure a) w).1.db ≡ w.db)
unfolding attempt ◌>>=◌
committed (ok b) w a h = ground arith
committed (err e) w a h = cc

-- The body of a transaction starts after BeginTx.
abbrev pub begun : World → World
begun w = record w { faults = (take_fault w.faults).1 }

begin-ok :
    {A : Type 0} (body : M A) (w : World) (a : A)
    → ((do attempt; a ← body; attempt; pure a) w).0 ≡ ok a
    → ((do attempt; a ← body; attempt; pure a) w)
      ≡ continue (body (begun w)).0 (λ a. do attempt; pure a) (body (begun w)).1
unfolding attempt ◌>>=◌
begin-ok body w a h = elim (Bool-cases (take_fault w.faults).0) [
  | inl e ↦ let failed = (rw e at h) in cc
  | inr e ↦ rw e refl
]

-- A transaction that returns has run its body and kept what it wrote.
pub transaction-ok :
    {A : Type 0} (body : M A) (w : World) (a : A)
    → (transaction body w).0 ≡ ok a
    → ((body (begun w)).0 ≡ ok a) × ((transaction body w).1.db ≡ (body (begun w)).1.db)
unfolding transaction
transaction-ok body w a h =
    let kept = roll_back-ok w.db _ a h in
    let run = begin-ok body w a (ap (λ r. r.0) (sym kept) ∙ h) in
    let (good, written) =
      committed (body (begun w)).0 (body (begun w)).1 a (ap (λ r. r.0) (sym (kept ∙ run)) ∙ h) in
    (good, ap (λ r. r.1.db) (kept ∙ run) ∙ written)

pub Result-cases {ℓ} :
    {A : Type ℓ} (r : Result A) → ((a : A) × (r ≡ ok a)) ⊎ ((e : Error) × (r ≡ err e))
Result-cases (ok a) = inl (a, refl)
Result-cases (err e) = inr (e, refl)
