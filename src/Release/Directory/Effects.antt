-- ===== src/Release/Directory/Effects.antt =====
-- internal/release/directory_updates.go: what the calls and the reads do to the directory.
use mathlib.Core.Path.{subst}
use zenmind_official_server.Base.{
  ℕ, ◌≡◌, refl, sym, ap, ◌∙◌, ◌⊎◌, inl, inr, Option, none, some, Bool-cases,
}
use zenmind_official_server.Text.{Text}
use zenmind_official_server.Dict.{lookup, insert}
use zenmind_official_server.Sqlite.{Conn}
use zenmind_official_server.Release.Manifest.{
  Formats, valid_update_name, max_desktop_manifest_bytes,
}
use zenmind_official_server.Release.Feeds.{
  FeedError, not_found, invalid, conflict, driver, Outcome, ok, err,
}
use zenmind_official_server.Release.Directory.Files.{
  Act, Entry, regular, irregular, Root, ◌>>=◌, continue, pure, attempt, find, put, remove, without,
  atomic_write, Temporary, temp_path, write_calls, left_behind, settle, write_temp,
}
use zenmind_official_server.Release.Directory.Reads.{
  Json, history_limit, disabled_path, sidecar_path, read_entry, read, history, or_disabled,
  find_feed, get_update_feed,
}
use zenmind_official_server.Release.Directory.Writes.{get_current}

-- What leaves the directory as it is.
pub record Keeps {A : Type 0} (m : Act A) : Type 0 where
  pub at : (c : Conn Root) → (m c).1.tables ≡ c.tables

-- What changes the directory in this way where it succeeds.
pub record Does {A : Type 0} (m : Act A) (change : Root → Root) : Type 0 where
  pub does : (c : Conn Root) (a : A) → (m c).0 ≡ ok a → (m c).1.tables ≡ change c.tables

continue-Keeps :
    {A B : Type 0} (r : Outcome A) (f : A → Act B) (c : Conn Root)
    → ((a : A) → Keeps (f a))
    → (continue r f c).1.tables ≡ c.tables
continue-Keeps (ok a) f c k = (k a).at c
continue-Keeps (err e) f c k = refl

bind-Keeps :
    {A B : Type 0} {m : Act A} {f : A → Act B} → Keeps m → ((a : A) → Keeps (f a)) → Keeps (m >>= f)
unfolding ◌>>=◌
bind-Keeps {m = m} {f} k l = record { at = λ c. continue-Keeps (m c).0 f (m c).1 l ∙ k.at c }

continue-ok :
    {A B : Type 0} (r : Outcome A) (f : A → Act B) (c : Conn Root) (b : B)
    → (continue r f c).0 ≡ ok b
    → (a : A) × (r ≡ ok a) × (continue r f c ≡ f a c)
continue-ok (ok a) f c b h = (a, refl, refl)
continue-ok (err e) f c b h = cc

-- A chain that succeeds has a first part that does.
pub bind-ok :
    {A B : Type 0} (m : Act A) (f : A → Act B) (c : Conn Root) (b : B)
    → ((m >>= f) c).0 ≡ ok b
    → (a : A) × ((m c).0 ≡ ok a) × ((m >>= f) c ≡ f a (m c).1)
unfolding ◌>>=◌
bind-ok m f c b h = continue-ok (m c).0 f (m c).1 b h

pub bind-Does :
    {A B : Type 0} {m : Act A} {f : A → Act B} {t u : Root → Root}
    → Does m t
    → ((a : A) → Does (f a) u)
    → Does (m >>= f) (λ s. u (t s))
bind-Does {m = m} {f} {t} {u} d e = record {
  does = λ c b h.
      let (a, first, same) = bind-ok m f c b h in
      ap (λ x. x.1.tables) same
      ∙ (e a).does (m c).1 b (ap (λ x. x.0) (sym same) ∙ h)
      ∙ ap u (d.does c a first);
}

pub Keeps-Does : {A : Type 0} {m : Act A} → Keeps m → Does m (λ s. s)
Keeps-Does k = record { does = λ c a h. k.at c }

pure-Keeps : {A : Type 0} (r : Outcome A) → Keeps (pure r)
pure-Keeps r = record { at = λ c. refl }

pub attempt-Keeps : Keeps attempt
unfolding attempt
attempt-Keeps = record { at = λ c. refl }

find-Keeps : (path : Text) → Keeps (find path)
unfolding find
find-Keeps path = record { at = λ c. refl }

-- A temporary file of a write to the path.
abbrev pub IsTemp : Text → Text → Entry → Type 0
IsTemp path temp e =
    (token content : Text) × (now : ℕ) × (temp ≡ temp_path path token) × (e ≡ regular content now)

-- A write puts the file at its path, or it fails, and changes nothing or leaves its temporary file,
-- at whose path nothing stood.
abbrev pub IsWrite : Text → Entry → Root → Outcome (Unit {0}) → Root → Type 0
IsWrite path entry before r after =
    (after ≡ insert path entry before)
    ⊎ (((e : FeedError) × (r ≡ err e))
        × ((after ≡ before)
            ⊎ ((temp : Text) × (part : Entry) × IsTemp path temp part
                × (lookup temp before ≡ none)
                × (after ≡ insert temp part before))))

left_behind-cases :
    (r : Outcome (Unit {0})) (temp : Text) (e : Entry) (c : Conn Root)
    → ((left_behind r temp e c).tables ≡ c.tables)
      ⊎ ((left_behind r temp e c).tables ≡ insert temp e c.tables)
unfolding left_behind
left_behind-cases (ok u) temp e c = inl refl
left_behind-cases (err x) temp e c = inr refl

settle-IsWrite :
    (path temp : Text) (entry part : Entry) (r : Outcome (Unit {0})) (c : Conn Root)
    → IsTemp path temp part
    → lookup temp c.tables ≡ none
    → IsWrite path entry c.tables
        (settle path temp entry part r c).0
        (settle path temp entry part r c).1.tables
unfolding settle put
settle-IsWrite path temp entry part (ok u) c named free =
    inl (ap (insert path entry) (attempt-Keeps.at c))
settle-IsWrite path temp entry part (err e) c named free =
    elim (left_behind-cases (attempt c).0 temp part (attempt c).1) [
      | inl same ↦ inr ((e, refl), inl (same ∙ attempt-Keeps.at c))
      | inr left ↦ inr (
        (e, refl),
        inr (temp, part, named, free, left ∙ ap (insert temp part) (attempt-Keeps.at c)),
      )
    ]

write_calls-Keeps : Keeps write_calls
unfolding write_calls
write_calls-Keeps = bind-Keeps attempt-Keeps λ _.
    bind-Keeps attempt-Keeps
      λ _. bind-Keeps attempt-Keeps λ _. bind-Keeps attempt-Keeps λ _. pure-Keeps _

write_temp-IsWrite :
    (t : Temporary) (path token content : Text) (now : ℕ) (found : Option Entry) (c : Conn Root)
    → lookup (temp_path path token) c.tables ≡ found
    → let m = write_temp t path (temp_path path token) content now found in
      IsWrite path (regular content now) c.tables (m c).0 (m c).1.tables
unfolding write_temp
write_temp-IsWrite t path token content now (some e) c h = inr ((driver, refl), inl refl)
write_temp-IsWrite t path token content now none c h =
    let d = (write_calls c).1 in
    let part = regular (t.written d content) now in
    let same = write_calls-Keeps.at c in
    subst
      (λ s.
        IsWrite path (regular content now) s
          (settle path (temp_path path token) (regular content now) part (write_calls c).0 d).0
          (settle path (temp_path path token) (regular content now) part (write_calls c).0
            d).1.tables)
      same
      (settle-IsWrite path (temp_path path token) (regular content now) part (write_calls c).0 d
        (token, t.written d content, now, refl, refl) (ap (lookup (temp_path path token)) same ∙ h))

continue-IsWrite :
    (r : Outcome (Unit {0})) (f : Unit {0} → Act (Unit {0})) (path : Text) (entry : Entry)
    (c : Conn Root)
    → ((u : Unit {0}) → IsWrite path entry c.tables (f u c).0 (f u c).1.tables)
    → IsWrite path entry c.tables (continue r f c).0 (continue r f c).1.tables
continue-IsWrite (ok u) f path entry c g = g u
continue-IsWrite (err e) f path entry c g = inr ((e, refl), inl refl)

pub atomic_write-IsWrite :
    (t : Temporary) (path content : Text) (now : ℕ) (c : Conn Root)
    → IsWrite path
        (regular content now)
        c.tables
        (atomic_write t path content now c).0
        (atomic_write t path content now c).1.tables
unfolding atomic_write find ◌>>=◌
atomic_write-IsWrite t path content now c =
    let token = t.random_text c in
    let d = (attempt c).1 in
    let f : Unit {0} → Act (Unit {0}) =
      λ u. find (temp_path path token) >>= write_temp t path (temp_path path token) content now in
    subst
      (λ s.
        IsWrite path (regular content now) s (continue (attempt c).0 f d).0
          (continue (attempt c).0 f d).1.tables)
      (attempt-Keeps.at c)
      (continue-IsWrite (attempt c).0 f path (regular content now) d λ u.
        write_temp-IsWrite t path token content now (lookup (temp_path path token) d.tables) d refl)

pub err-shut : {A : Type 0} (e : FeedError) (a : A) → ◌≡◌ {A = Outcome A} (err e) (ok a) → ⊥
err-shut e a h = cc

pub written-IsWrite :
    (path : Text) (entry : Entry) (before : Root) (r : Outcome (Unit {0})) (after : Root)
    (u : Unit {0})
    → IsWrite path entry before r after
    → r ≡ ok u
    → after ≡ insert path entry before
written-IsWrite path entry before r after u (inl done) h = done
written-IsWrite path entry before r after u (inr ((e, failed), rest)) h =
    absurd (err-shut e u (sym failed ∙ h))

pub atomic_write-Does :
    (t : Temporary) (path content : Text) (now : ℕ)
    → Does (atomic_write t path content now) (insert path (regular content now))
atomic_write-Does t path content now = record {
  does = λ c u h.
      written-IsWrite path (regular content now) c.tables _ _ u
        (atomic_write-IsWrite t path content now c) h;
}

pub remove-Does : (path : Text) → Does (remove path) (without path)
unfolding remove
remove-Does path = record { does = λ c u h. refl }

module _ (f : Formats) (j : Json) where
  read_entry-Keeps : (limit : ℕ) (found : Option Entry) → Keeps (read_entry f j limit found)
  unfolding read_entry
  read_entry-Keeps limit none = pure-Keeps _
  read_entry-Keeps limit (some irregular) = pure-Keeps _
  read_entry-Keeps limit (some (regular content time)) =
      bind-Keeps attempt-Keeps
        λ _. bind-Keeps attempt-Keeps λ _. bind-Keeps attempt-Keeps λ _. pure-Keeps _

  read-Keeps : (path : Text) (limit : ℕ) → Keeps (read f j path limit)
  unfolding read
  read-Keeps path limit =
      bind-Keeps attempt-Keeps
        λ _. bind-Keeps (find-Keeps path) λ found. read_entry-Keeps limit found

  pub history-Keeps : (name : Text) → Keeps (history f j name)
  unfolding history
  history-Keeps name = record { at = (read-Keeps (sidecar_path name) history_limit).at }

  or_disabled-Keeps : (name : Text) (r : Outcome (Text × ℕ)) → Keeps (or_disabled f j name r)
  unfolding or_disabled
  or_disabled-Keeps name (ok found) = pure-Keeps _
  or_disabled-Keeps name (err not_found) =
      bind-Keeps (read-Keeps (disabled_path name) max_desktop_manifest_bytes) λ _. pure-Keeps _
  or_disabled-Keeps name (err invalid) = pure-Keeps _
  or_disabled-Keeps name (err conflict) = pure-Keeps _
  or_disabled-Keeps name (err driver) = pure-Keeps _

  find_feed-Keeps : (name : Text) → Keeps (find_feed f j name)
  unfolding find_feed
  find_feed-Keeps name = record {
    at = λ c.
        (or_disabled-Keeps name (read f j name max_desktop_manifest_bytes c).0).at
          (read f j name max_desktop_manifest_bytes c).1
        ∙ (read-Keeps name max_desktop_manifest_bytes).at c;
  }

  pub get_update_feed-Keeps : (name : Text) → Keeps (get_update_feed f j name)
  unfolding get_update_feed
  get_update_feed-Keeps name = elim (Bool-cases (valid_update_name name)) [
    | inr bad ↦ rw bad (pure-Keeps _)
    | inl fit ↦ rw fit (
        bind-Keeps (find_feed-Keeps name)
          λ _. bind-Keeps (pure-Keeps _) λ _. bind-Keeps (history-Keeps name) λ _. pure-Keeps _)
  ]

  pub get_current-Keeps : (name : Text) → Keeps (get_current f j name)
  unfolding get_current
  get_current-Keeps name = record { at = (get_update_feed-Keeps name).at }
