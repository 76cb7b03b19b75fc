-- ===== src/Sqlite/Laws.antt =====
-- What a program on SQLite leaves where it succeeds, and what a transaction leaves at all.
use mathlib.Core.Path.{subst⁻¹}
use zenmind_official_server.Base.{
  ℕ, suc, ◌+◌, ◌≤◌, ◌≡◌, refl, sym, ◌∙◌, Bool, true, false, List, [], ◌∷◌, if◌then◌else◌, arith,
  Option, none, some, ◌⊎◌, inl, inr,
}
use zenmind_official_server.Sqlite.{
  Conn, Sql, continue, ◌>>=◌, ◌>>◌, pure, attempt, roll_back, transaction,
}

-- Where the program succeeds, the tables behind it satisfy the predicate.
pub record Ends {S A : Type 0} (m : Sql S A) (c : Conn S) (P : S → Type 0) : Type 0 where
  pub ends : (a : A) → (m c).0 ≡ some a → P (m c).1.tables

pub done-Ends :
    {S A : Type 0} {P : S → Type 0} (a : A) (c : Conn S) → P c.tables → Ends (pure a) c P
done-Ends a c p = record { ends = λ b h. p }

continue-Ends :
    {S A B : Type 0} (r : Option A) (f : A → Sql S B) (c : Conn S) (P : S → Type 0)
    → ((a : A) → r ≡ some a → Ends (f a) c P)
    → Ends (continue r f) c P
continue-Ends (some a) f c P g = g a refl
continue-Ends none f c P g = record { ends = λ b h. cc }

pub then-Ends :
    {S A B : Type 0} {m : Sql S A} {f : A → Sql S B} {c : Conn S} {P Q : S → Type 0}
    → Ends m c Q
    → ((a : A) (d : Conn S) → Q d.tables → Ends (f a) d P)
    → Ends (m >>= f) c P
unfolding ◌>>=◌
then-Ends {m = m} {f} {c} {P} b g =
    let rest = continue-Ends (m c).0 f (m c).1 P λ a h. g a (m c).1 (b.ends a h) in
    record { ends = rest.ends }

pub attempt-Ends :
    {S B : Type 0} {f : Unit {0} → Sql S B} (c : Conn S) {P : S → Type 0}
    → ((u : Unit {0}) (d : Conn S) → d.tables ≡ c.tables → Ends (f u) d P)
    → Ends (attempt >>= f) c P
unfolding attempt
attempt-Ends c g =
    then-Ends {Q = λ s. s ≡ c.tables} (record { ends = λ a h. refl }) λ u d same. g u d same

roll_back-cases :
    {S A : Type 0} (before : S) (r : Option A × Conn S) (P : S → Type 0)
    → ((a : A) → r.0 ≡ some a → P r.1.tables)
    → (((roll_back before r).0 ≡ none) × ((roll_back before r).1.tables ≡ before))
      ⊎ P (roll_back before r).1.tables
roll_back-cases before (some a, c) P g = inr (g a refl)
roll_back-cases before (none, c) P g = inl (refl, refl)

-- A transaction fails and changes nothing, or its body has brought the predicate about.
pub transaction-Ends :
    {S A : Type 0} {body : Sql S A} (c : Conn S) (P : S → Type 0)
    → ((d : Conn S) → d.tables ≡ c.tables → Ends body d P)
    → (((transaction body c).0 ≡ none) × ((transaction body c).1.tables ≡ c.tables))
      ⊎ P (transaction body c).1.tables
unfolding transaction
transaction-Ends {body = body} c P g =
    let whole : Ends (do attempt; a ← body; attempt; pure a) c P = attempt-Ends c λ u d same.
      then-Ends (g d same)
        λ a d' p. attempt-Ends d' λ u d'' same'. done-Ends a d'' (subst⁻¹ P same' p) in
    roll_back-cases c.tables _ P whole.ends

-- How many of the calls to come fail.
abbrev pub failures : List Bool → ℕ
failures [] = 0
failures (b ∷ bs) = if b then suc (failures bs) else failures bs

attempt_on :
    {S : Type 0} (s : S) (bs : List Bool)
    → let r = attempt (record { tables = s; faults = bs }) in
      ((r.0 ≡ none) × (failures r.1.faults + 1 ≡ failures bs))
      ⊎ ((r.0 ≡ some tt) × (failures r.1.faults ≡ failures bs))
unfolding attempt
attempt_on s [] = inr (refl, refl)
attempt_on s (true ∷ bs) = inl (refl, omega arith)
attempt_on s (false ∷ bs) = inr (refl, refl)

-- A call that fails is one failure less.
pub attempt-cases :
    {S : Type 0} (c : Conn S)
    → (((attempt c).0 ≡ none) × (failures (attempt c).1.faults + 1 ≡ failures c.faults))
      ⊎ (((attempt c).0 ≡ some tt) × (failures (attempt c).1.faults ≡ failures c.faults))
attempt-cases c = attempt_on c.tables c.faults

pub attempt-failures_le :
    {S : Type 0} (c : Conn S) → failures (attempt c).1.faults ≤ failures c.faults
attempt-failures_le c = elim (attempt-cases c) [
  | inl (failed, e) ↦ omega arith
  | inr (good, e) ↦ omega arith
]

continue_by :
    {S A B : Type 0} (r : Option A) (f : A → Sql S B) (c : Conn S) (P : Option B × Conn S → Type 0)
    → (r ≡ none → P (none, c))
    → ((a : A) → r ≡ some a → P (f a c))
    → P (continue r f c)
continue_by none f c P p q = p refl
continue_by (some a) f c P p q = q a refl

attempt-same : {S : Type 0} (c : Conn S) → (attempt c).1.tables ≡ c.tables
unfolding attempt
attempt-same c = refl

none-some : {A : Type 0} {a : A} → ◌≡◌ {A = Option A} none (some a) → ⊥
none-some h = cc

-- What holds of a chain, by its first part.
pub bind_by :
    {S A B : Type 0} (m : Sql S A) (f : A → Sql S B) (c : Conn S) (P : Option B × Conn S → Type 0)
    → ((m c).0 ≡ none → P (none, (m c).1))
    → ((a : A) → (m c).0 ≡ some a → P (f a (m c).1))
    → P ((m >>= f) c)
unfolding ◌>>=◌
bind_by m f c P p q = continue_by (m c).0 f (m c).1 P p q

pub attempt_by :
    {S B : Type 0} (f : Unit {0} → Sql S B) (c : Conn S) (P : Option B × Conn S → Type 0)
    → ((d : Conn S) → d.tables ≡ c.tables → failures d.faults + 1 ≤ failures c.faults → P (none, d))
    → ((u : Unit {0}) (d : Conn S)
        → d.tables ≡ c.tables
        → failures d.faults ≤ failures c.faults
        → P (f u d))
    → P ((attempt >>= f) c)
attempt_by f c P p q =
    bind_by attempt f c P
      (λ e. p (attempt c).1 (attempt-same c) (elim (attempt-cases c) [
        | inl (failed, k) ↦ omega arith
        | inr (good, k) ↦ absurd (none-some (sym e ∙ good))
      ]))
      λ u e. q u (attempt c).1 (attempt-same c) (attempt-failures_le c)
