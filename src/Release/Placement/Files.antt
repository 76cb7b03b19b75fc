-- ===== src/Release/Placement/Files.antt =====
-- internal/release/upsert.go: the calls of UpsertFile and the files.
use mathlib.Core.Path.{subst, subst⁻¹}
use zenmind_official_server.Base.{
  ℕ, ◌≤◌, List, ◌≡◌, refl, ap, ◌∙◌, ◌⊎◌, inl, inr, Option, none, some, arith,
}
use zenmind_official_server.Text.{Text}
use zenmind_official_server.Dict.{Dict}
use zenmind_official_server.Sqlite.{Conn, Sql, continue, ◌>>=◌, attempt, pure}
use zenmind_official_server.Sqlite.Laws.{failures, attempt_by}
use zenmind_official_server.Release.Installers.{Installer}
use zenmind_official_server.Release.Placement.{Site, Stat, stat_at, stat, fail, save_installer}

-- The files and the directories.
abbrev pub Disk : Type 0
Disk = Dict Text × List Text

abbrev pub disk : Site → Disk
disk site = (site.files, site.directories)

abbrev pub disk_after : {A : Type 0} → Sql Site A → Conn Site → Disk
disk_after m c = disk (m c).1.tables

continue-disk :
    {A B : Type 0} (r : Option A) (f : A → Sql Site B) (c : Conn Site)
    → ((a : A) (d : Conn Site) → disk_after (f a) d ≡ disk d.tables)
    → disk_after (continue r f) c ≡ disk c.tables
continue-disk none f c keeps = refl
continue-disk (some a) f c keeps = keeps a c

-- What comes behind a call, and keeps the files, keeps what the call has left.
pub bind-disk :
    {A B : Type 0} (m : Sql Site A) (f : A → Sql Site B) (c : Conn Site)
    → ((a : A) (d : Conn Site) → disk_after (f a) d ≡ disk d.tables)
    → disk_after (m >>= f) c ≡ disk_after m c
unfolding ◌>>=◌
bind-disk m f c keeps = continue-disk (m c).0 f (m c).1 keeps

continue-next :
    {A B : Type 0} (r : Option A) (f : A → Sql Site B) (c : Conn Site)
    → (disk_after (continue r f) c ≡ disk c.tables)
      ⊎ ((a : A) × (r ≡ some a) × (continue r f c ≡ f a c))
continue-next none f c = inl refl
continue-next (some a) f c = inr (a, refl, refl)

-- Behind a call stands what comes next, or nothing.
next-disk :
    {A B : Type 0} (m : Sql Site A) (f : A → Sql Site B) (c : Conn Site)
    → (disk_after (m >>= f) c ≡ disk_after m c)
      ⊎ ((a : A) × ((m c).0 ≡ some a) × ((m >>= f) c ≡ f a (m c).1))
unfolding ◌>>=◌
next-disk m f c = continue-next (m c).0 f (m c).1

pub attempt-tables : (c : Conn Site) → (attempt c).1.tables ≡ c.tables
unfolding attempt
attempt-tables c = refl

pub stat-tables : (path : Text) (c : Conn Site) → (stat path c).1.tables ≡ c.tables
unfolding stat ◌>>=◌ attempt
stat-tables path c = ground arith

pub stat-failures_le :
    (path : Text) (c : Conn Site) → failures (stat path c).1.faults ≤ failures c.faults
unfolding stat ◌>>=◌
stat-failures_le path c =
    attempt_by _ c (λ r. failures r.1.faults ≤ failures c.faults) (λ d e k. omega arith)
      λ u d e k. k

pub stat-some :
    (path : Text) (c : Conn Site) (s : Stat) → (stat path c).0 ≡ some s → s ≡ stat_at c.tables path
unfolding stat ◌>>=◌ attempt
stat-some path c s h = ground arith

save_installer-disk :
    (i : Installer) (now : ℕ) (c : Conn Site) → disk_after (save_installer i now) c ≡ disk c.tables
unfolding save_installer
save_installer-disk i now c = refl

-- A program that leaves the files alone.
pub record Keeps {A : Type 0} (m : Sql Site A) : Type 0 where
  pub at : (c : Conn Site) → disk_after m c ≡ disk c.tables

pub bind-Keeps :
    {A B : Type 0} {m : Sql Site A} {f : A → Sql Site B}
    → Keeps m
    → ((a : A) → Keeps (f a))
    → Keeps (m >>= f)
bind-Keeps {m = m} {f} k l = record { at = λ c. bind-disk m f c (λ a d. (l a).at d) ∙ k.at c }

pub attempt-Keeps : Keeps attempt
unfolding attempt
attempt-Keeps = record { at = λ c. refl }

pub stat-Keeps : (path : Text) → Keeps (stat path)
stat-Keeps path = record { at = λ c. ap disk (stat-tables path c) }

pub fail-Keeps : {A : Type 0} → Keeps (fail {S = Site} {A = A})
fail-Keeps = record { at = λ c. refl }

pub pure-Keeps : {A : Type 0} (a : A) → Keeps (pure a)
pure-Keeps a = record { at = λ c. refl }

pub save_installer-Keeps : (i : Installer) (now : ℕ) → Keeps (save_installer i now)
unfolding save_installer
save_installer-Keeps i now = record { at = λ c. refl }

behind :
    {A B : Type 0} (r : Option A) (f : A → Sql Site B) (c : Conn Site) (P : Site → Disk → Type 0)
    → P c.tables (disk c.tables)
    → ((a : A) → r ≡ some a → P c.tables (disk_after (f a) c))
    → P c.tables (disk_after (continue r f) c)
behind none f c P p q = p
behind (some a) f c P p q = q a refl

-- What follows a look at the site is reached from the site as it was.
pub look :
    {A B : Type 0} (m : Sql Site A) (f : A → Sql Site B) (c : Conn Site) (P : Site → Disk → Type 0)
    → (m c).1.tables ≡ c.tables
    → failures (m c).1.faults ≤ failures c.faults
    → P c.tables (disk c.tables)
    → ((a : A) (d : Conn Site)
        → d.tables ≡ c.tables
        → failures d.faults ≤ failures c.faults
        → (m c).0 ≡ some a
        → P d.tables (disk_after (f a) d))
    → P c.tables (disk_after (m >>= f) c)
unfolding ◌>>=◌
look m f c P e le p q =
    subst (λ s. P s (disk_after (m >>= f) c)) e
      (behind (m c).0 f (m c).1 P (subst⁻¹ (λ (s : Site). P s (disk s)) e p)
        (λ a h. q a (m c).1 e le h))
