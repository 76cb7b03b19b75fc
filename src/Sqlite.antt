-- ===== src/Sqlite.antt =====
-- database/sql on the SQLite database of internal/auth/download_store.go and
-- internal/release/catalog.go: statements on the tables `S`. Any call of the driver may fail; the
-- failures to come are listed in `faults`, one entry for each call, and behind its end no call fails.
pub mod Laws
use zenmind_official_server.Base.{Bool, false, Option, none, some, List, [], ◌∷◌, if◌then◌else◌}

pub record Conn (S : Type 0) : Type 0 where
  pub tables : S
  pub faults : List Bool

-- `none` is an error of the driver.
abbrev pub Sql : Type 0 → Type 0 → Type 0
Sql S A = Conn S → Option A × Conn S

abbrev pub continue : {S A B : Type 0} → Option A → (A → Sql S B) → Sql S B
continue (some a) f c = f a c
continue none f c = (none, c)

infixl 10 ◌>>=◌ ◌>>◌
unfoldable pub ◌>>=◌ : {S A B : Type 0} → Sql S A → (A → Sql S B) → Sql S B
◌>>=◌ m f c = let (r, c') = m c in continue r f c'

abbrev pub ◌>>◌ : {S A B : Type 0} → Sql S A → Sql S B → Sql S B
m >> n = m >>= λ _. n

abbrev pub pure : {S A : Type 0} → A → Sql S A
pure a c = (some a, c)

abbrev pub gets : {S A : Type 0} → (S → A) → Sql S A
gets f c = (some (f c.tables), c)

abbrev pub modify : {S : Type 0} → (S → S) → Sql S (Unit {0})
modify f c = (some tt, record c { tables = f c.tables })

abbrev take_fault : List Bool → Bool × List Bool
take_fault [] = (false, [])
take_fault (b ∷ bs) = (b, bs)

-- One call of the driver: it fails, or goes on.
unfoldable pub attempt : {S : Type 0} → Sql S (Unit {0})
attempt c =
    let (fails, later) = take_fault c.faults in
    (if fails then none else some tt, record c { faults = later })

abbrev pub roll_back : {S A : Type 0} → S → Option A × Conn S → Option A × Conn S
roll_back before (some a, c) = (some a, c)
roll_back before (none, c) = (none, record c { tables = before })

-- BeginTx, the body, Commit; `defer tx.Rollback()` undoes the body if one of them fails.
unfoldable pub transaction : {S A : Type 0} → Sql S A → Sql S A
unfolding attempt ◌>>=◌
transaction body c = roll_back c.tables ((do attempt; a ← body; attempt; pure a) c)
