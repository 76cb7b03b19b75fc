-- ===== src/Release/Directory/Files.antt =====
-- internal/release/directory_updates.go: the files of the catalog and the calls on them.
use zenmind_official_server.Base.{ℕ, Option, none, some, [], ◌∷◌, ◌++◌, if◌then◌else◌}
use zenmind_official_server.Text.{Text, text, text_eq}
use zenmind_official_server.Text.Path.{dir, join}
use zenmind_official_server.Dict.{Dict, lookup, insert}
use zenmind_official_server.Sqlite.{Conn}
use zenmind_official_server.Sqlite as Sqlite
use zenmind_official_server.Release.Feeds.{driver, Outcome, ok, err}

-- A regular file with its content and the time of its change, or something else.
pub data Entry : Type 0 where
  regular : Text → ℕ → Entry
  irregular : Entry

-- The entries under the root of the catalog, by their paths.
abbrev pub Root : Type 0
Root = Dict Entry

abbrev pub Act : Type 0 → Type 0
Act A = Conn Root → Outcome A × Conn Root

abbrev pub continue : {A B : Type 0} → Outcome A → (A → Act B) → Act B
continue (ok a) f c = f a c
continue (err e) f c = (err e, c)

infixl 10 ◌>>=◌ ◌>>◌
unfoldable pub ◌>>=◌ : {A B : Type 0} → Act A → (A → Act B) → Act B
◌>>=◌ m f c = let (r, c') = m c in continue r f c'

abbrev pub ◌>>◌ : {A B : Type 0} → Act A → Act B → Act B
m >> n = m >>= λ _. n

abbrev pub pure : {A : Type 0} → Outcome A → Act A
pure r c = (r, c)

abbrev pub or_driver : {A : Type 0} → Option A → Outcome A
or_driver none = err driver
or_driver (some a) = ok a

-- One call of the operating system.
unfoldable pub attempt : Act (Unit {0})
unfolding Sqlite.attempt
attempt c = let (r, c') = Sqlite.attempt c in (or_driver r, c')

unfoldable pub find : Text → Act (Option Entry)
unfolding lookup
find path c = (ok (lookup path c.tables), c)

-- A file that is renamed into its place.
unfoldable pub put : Text → Entry → Act (Unit {0})
unfolding insert
put path entry c = (ok tt, record c { tables = insert path entry c.tables })

unfoldable pub without : Text → Root → Root
unfolding text_eq
without path [] = []
without path ((k, e) ∷ m) =
    let rest = without path m in if text_eq k path then rest else (k, e) ∷ rest

-- root.Remove; a path that is missing is no error of the callers.
unfoldable pub remove : Text → Act (Unit {0})
unfolding without
remove path c = (ok tt, record c { tables = without path c.tables })

-- rand.Text() at a call, and the part of a content that stands in a file where a call has failed.
pub record Temporary : Type 0 where
  pub random_text : Conn Root → Text
  pub written : Conn Root → Text → Text

unfoldable pub temp_path : Text → Text → Text
unfolding dir join text
temp_path path token = join (dir path ∷ (text ".write-" ++ token) ∷ [])

-- Write, Sync, Close and Rename.
unfoldable pub write_calls : Act (Unit {0})
unfolding attempt ◌>>=◌
write_calls = do attempt; attempt; attempt; attempt; pure (ok tt)

-- The deferred Remove, whose error is ignored.
unfoldable pub left_behind : Outcome (Unit {0}) → Text → Entry → Conn Root → Conn Root
unfolding insert
left_behind (ok u) temp entry c = c
left_behind (err e) temp entry c = record c { tables = insert temp entry c.tables }

-- The file has been renamed into its place, or a call has failed. A Remove behind the Rename finds
-- nothing.
unfoldable pub settle :
    Text → Text → Entry → Entry → Outcome (Unit {0}) → Conn Root → Outcome (Unit {0}) × Conn Root
unfolding attempt put left_behind
settle path temp entry part (ok u) c = put path entry (attempt c).1
settle path temp entry part (err e) c =
    let (removed, c') = attempt c in (err e, left_behind removed temp part c')

-- OpenFile has O_EXCL: it fails where an entry stands at the path of the temporary file.
unfoldable pub write_temp :
    Temporary → Text → Text → Text → ℕ → Option Entry → Conn Root → Outcome (Unit {0}) × Conn Root
unfolding write_calls settle
write_temp t path temp content now (some e) c = (err driver, c)
write_temp t path temp content now none c =
    let (r, c') = write_calls c in
    settle path temp (regular content now) (regular (t.written c' content) now) r c'

unfoldable pub atomic_write : Temporary → Text → Text → ℕ → Act (Unit {0})
unfolding attempt find temp_path write_temp ◌>>=◌
atomic_write t path content now c =
    let temp = temp_path path (t.random_text c) in
    (do attempt; found ← find temp; write_temp t path temp content now found) c
