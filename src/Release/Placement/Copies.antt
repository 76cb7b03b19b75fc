-- ===== src/Release/Placement/Copies.antt =====
-- internal/release/upsert.go: what copyFileAtomic leaves.
use mathlib.Core.Path.{subst}
use zenmind_official_server.Base.{
  ℕ, ◌+◌, ◌≤◌, ◌≡◌, refl, sym, ap, ◌∙◌, ◌⊎◌, inl, inr, Bool, true, false, Option, none, some,
  if◌then◌else◌, arith,
}
use zenmind_official_server.Text.{Text}
use zenmind_official_server.Text.Path.{dir}
use zenmind_official_server.Text.Parts.{mem}
use zenmind_official_server.Dict.{Dict, lookup, insert}
use zenmind_official_server.Sqlite.{Conn, Sql, ◌>>=◌, attempt, modify, pure}
use zenmind_official_server.Sqlite.Laws.{failures, attempt-cases, attempt_by, bind_by}
use zenmind_official_server.Release.Placement.{
  Site, Temporary, fail, temp_path, mkdir_all, copy_calls, left_behind, settle, copy_temp,
  create_and_copy, copy_file_atomic, is_regular,
}

-- The calls that copy: the site is as it was, and they succeed, or one of the `n` failures is spent,
-- or a directory stands at the target.
abbrev Calls : Text → Site → ℕ → Option (Unit {0}) × Conn Site → Type 0
Calls target s n (r, c) =
    (c.tables ≡ s)
    × (failures c.faults ≤ n)
    × ((r ≡ some tt) ⊎ ((failures c.faults + 1 ≤ n) ⊎ (mem target s.directories ≡ true)))

refuse-Calls :
    (target : Text) (s : Site) (n : ℕ) (c : Conn Site) (b : Bool)
    → mem target s.directories ≡ b
    → c.tables ≡ s
    → failures c.faults ≤ n
    → Calls target s n ((if b then fail else pure tt) c)
refuse-Calls target s n c true h e le = (e, le, inr (inr h))
refuse-Calls target s n c false h e le = (e, le, inl refl)

copy_calls-Calls :
    (target : Text) (s : Site) (n : ℕ) (c : Conn Site)
    → c.tables ≡ s
    → failures c.faults ≤ n
    → Calls target s n (copy_calls target c)
unfolding copy_calls ◌>>=◌
copy_calls-Calls target s n c e le =
    attempt_by _ c (Calls target s n) (λ d e1 k. (e1 ∙ e, omega arith, inr (inl (omega arith))))
      λ u d e1 l1.
        attempt_by _ d (Calls target s n)
          (λ d2 e2 k. (e2 ∙ e1 ∙ e, omega arith, inr (inl (omega arith))))
          λ u d2 e2 l2.
            attempt_by _ d2 (Calls target s n)
              (λ d3 e3 k. (e3 ∙ e2 ∙ e1 ∙ e, omega arith, inr (inl (omega arith))))
              λ u d3 e3 l3.
                attempt_by _ d3 (Calls target s n)
                  (λ d4 e4 k. (e4 ∙ e3 ∙ e2 ∙ e1 ∙ e, omega arith, inr (inl (omega arith))))
                  λ u d4 e4 l4.
                    let all : d4.tables ≡ s = e4 ∙ e3 ∙ e2 ∙ e1 ∙ e in
                    refuse-Calls target s n d4 (mem target d4.tables.directories)
                      (ap (λ (x : Site). mem target x.directories) (sym all)) all (omega arith)

-- A temporary file that stands where nothing stood: two failures are spent, or one, and a directory
-- stands at the target.
abbrev pub Leftover : Text → Site → ℕ → Text → Type 0
Leftover target s n temp =
    ((token : Text) × (temp ≡ temp_path target token))
    × (lookup temp s.files ≡ none)
    × ((2 ≤ n) ⊎ ((1 ≤ n) × (mem target s.directories ≡ true)))

-- What a copy leaves of the files: they are as before, or the target has the content, or there is a
-- temporary file.
abbrev pub Copied : Text → Text → Site → ℕ → Option (Unit {0}) × Conn Site → Type 0
Copied content target s n (r, c) =
    (c.tables.directories ≡ s.directories)
    × (failures c.faults ≤ n)
    × ((c.tables.files ≡ s.files)
        ⊎ (c.tables.files ≡ insert target content s.files)
        ⊎ ((temp : Text) × (part : Text) × Leftover target s n temp
            × (c.tables.files ≡ insert temp part s.files)))

same-Copied :
    (content target : Text) (s : Site) (n : ℕ) (r : Option (Unit {0})) (c : Conn Site)
    → c.tables ≡ s
    → failures c.faults ≤ n
    → Copied content target s n (r, c)
same-Copied content target s n r c e le =
    (ap (λ (x : Site). x.directories) e, le, inl (ap (λ (x : Site). x.files) e))

removed-Copied :
    (content target token part : Text) (s : Site) (n : ℕ) (c : Conn Site)
    → lookup (temp_path target token) s.files ≡ none
    → c.tables ≡ s
    → (failures c.faults + 1 ≤ n) ⊎ ((failures c.faults ≤ n) × (mem target s.directories ≡ true))
    → Copied content target s n
        (none, left_behind (attempt c).0 (temp_path target token) part (attempt c).1)
unfolding left_behind attempt
removed-Copied content target token part s n c free e spent = elim (attempt-cases c) [
  | inr (good, k) ↦ rw good (
    ap (λ (x : Site). x.directories) e,
    elim spent [ inl l ↦ omega arith | inr (l, d) ↦ omega arith ],
    inl (ap (λ (x : Site). x.files) e),
  )
  | inl (failed, k) ↦ rw failed (
    ap (λ (x : Site). x.directories) e,
    elim spent [ inl l ↦ omega arith | inr (l, d) ↦ omega arith ],
    inr (
        inr (
          temp_path target token,
          part,
          (
            (token, refl),
            free,
            elim spent [ inl l ↦ inl (omega arith) | inr (l, d) ↦ inr (omega arith, d) ],
          ),
          ap (λ (x : Site). insert (temp_path target token) part x.files) e,
        )),
  )
]

settled :
    (content target token : Text) (part : Conn Site → Text) (s : Site) (n : ℕ)
    (r : Option (Unit {0})) (c : Conn Site)
    → lookup (temp_path target token) s.files ≡ none
    → Calls target s n (r, c)
    → Copied content target s n (settle target (temp_path target token) content (part c) r c)
unfolding settle
settled content target token part s n (some u) c free (e, le, rest) = (
  ap (λ (x : Site). x.directories) e,
  le,
  inr (inl (ap (λ (x : Site). insert target content x.files) e)),
)
settled content target token part s n none c free (e, le, rest) =
    removed-Copied content target token (part c) s n c free e
      (elim rest [ inl good ↦ cc | inr (inl l) ↦ inl l | inr (inr d) ↦ inr (le, d) ])

copy_temp-Copied :
    (t : Temporary) (target token content : Text) (taken : Bool) (s : Site) (n : ℕ) (c : Conn Site)
    → is_regular (lookup (temp_path target token) s.files) ≡ taken
    → c.tables ≡ s
    → failures c.faults ≤ n
    → Copied content target s n (copy_temp t target (temp_path target token) content taken c)
unfolding copy_temp
copy_temp-Copied t target token content true s n c h e le =
    same-Copied content target s n none c e le
copy_temp-Copied t target token content false s n c h e le =
    settled content target token (λ d. t.written d content) s n (copy_calls target c).0
      (copy_calls target c).1 (ground arith) (copy_calls-Calls target s n c e le)

create_and_copy-Copied :
    (t : Temporary) (content target : Text) (s : Site) (n : ℕ) (c : Conn Site)
    → c.tables ≡ s
    → failures c.faults ≤ n
    → Copied content target s n (create_and_copy t content target c)
unfolding create_and_copy ◌>>=◌
create_and_copy-Copied t content target s n c e le =
    attempt_by _ c (Copied content target s n)
      (λ d e1 k. same-Copied content target s n none d (e1 ∙ e) (omega arith))
      λ u d e1 l1.
        let token = t.random_text c in
        copy_temp-Copied t target token content
          (is_regular (lookup (temp_path target token) d.tables.files)) s n d
          (ap (λ (x : Site). is_regular (lookup (temp_path target token) x.files)) (sym (e1 ∙ e)))
          (e1 ∙ e) (omega arith)

-- What a placement leaves of the files; `n` calls may fail.
abbrev pub Placed : Text → Text → Dict Text → ℕ → Option (Unit {0}) × Conn Site → Type 0
Placed content target files n (r, c) =
    (failures c.faults ≤ n)
    × ((c.tables.files ≡ files)
        ⊎ (c.tables.files ≡ insert target content files)
        ⊎ ((temp : Text) × (part : Text) × ((token : Text) × (temp ≡ temp_path target token))
            × (lookup temp files ≡ none)
            × ((2 ≤ n) ⊎ ((1 ≤ n) × (mem target c.tables.directories ≡ true)))
            × (c.tables.files ≡ insert temp part files)))

Copied-Placed :
    (content target : Text) (s : Site) (n : ℕ) (r : Option (Unit {0}) × Conn Site)
    → Copied content target s n r
    → Placed content target s.files n r
Copied-Placed content target s n r (dirs, le, inl same) = (le, inl same)
Copied-Placed content target s n r (dirs, le, inr (inl done)) = (le, inr (inl done))
Copied-Placed content target s n r (dirs, le, inr (inr (temp, part, (named, free, spent), left))) =
    (
      le,
      inr (
          inr (
            temp,
            part,
            named,
            free,
            elim spent [ inl two ↦ inl two | inr (one, d) ↦ inr (one, ap (mem target) dirs ∙ d) ],
            left,
          )),
    )

mkdir_all-files : (path : Text) (c : Conn Site) → (mkdir_all path c).1.tables.files ≡ c.tables.files
unfolding mkdir_all ◌>>=◌ attempt
mkdir_all-files path c = ground arith

made :
    (b : Bool) (f : Site → Site) (c : Conn Site)
    → failures ((if b then fail else modify f) c).1.faults ≡ failures c.faults
made true f c = refl
made false f c = refl

mkdir_all-le :
    (path : Text) (c : Conn Site) → failures (mkdir_all path c).1.faults ≤ failures c.faults
unfolding mkdir_all ◌>>=◌
mkdir_all-le path c =
    attempt_by _ c (λ r. failures r.1.faults ≤ failures c.faults) (λ d e k. omega arith)
      λ u d e k. omega (arith, made _ _ d)

-- What is behind MkdirAll starts from the same files.
pub mkdir_by :
    {B : Type 0} (path : Text) (f : Unit {0} → Sql Site B) (files : Dict Text) (n : ℕ)
    (c : Conn Site) (P : Option B × Conn Site → Type 0)
    → c.tables.files ≡ files
    → failures c.faults ≤ n
    → ((d : Conn Site) → d.tables.files ≡ files → failures d.faults ≤ n → P (none, d))
    → ((u : Unit {0}) (d : Conn Site) → d.tables.files ≡ files → failures d.faults ≤ n → P (f u d))
    → P ((mkdir_all path >>= f) c)
mkdir_by path f files n c P e le p q =
    bind_by (mkdir_all path) f c P
      (λ k.
        p (mkdir_all path c).1 (mkdir_all-files path c ∙ e) (omega (arith, mkdir_all-le path c)))
      λ u k.
        q u (mkdir_all path c).1 (mkdir_all-files path c ∙ e) (omega (arith, mkdir_all-le path c))

pub copy-Placed :
    (t : Temporary) (content target : Text) (files : Dict Text) (n : ℕ) (c : Conn Site)
    → c.tables.files ≡ files
    → failures c.faults ≤ n
    → Placed content target files n (copy_file_atomic t content target c)
unfolding copy_file_atomic
copy-Placed t content target files n c e le =
    mkdir_by (dir target) _ files n c (Placed content target files n) e le
      (λ d same k. (k, inl same))
      λ u d same k.
        subst (λ x. Placed content target x n (create_and_copy t content target d)) same
          (Copied-Placed content target d.tables n (create_and_copy t content target d)
            (create_and_copy-Copied t content target d.tables n d refl k))
