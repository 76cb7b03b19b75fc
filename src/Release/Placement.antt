-- ===== src/Release/Placement.antt =====
-- internal/release/upsert.go: a file is put under the release root, and its installer into SQLite.
-- The calls of the operating system fail as those of the driver do. Links and permissions are left
-- out, and the file that is copied is what the first read of it has found.
pub mod Copies
pub mod Files
pub mod Laws
use zenmind_official_server.Base.{
  ℕ, Bool, true, false, not, ◌&&◌, ◌||◌, Option, none, some, List, [], ◌∷◌, ◌++◌, ◌==◌,
  if◌then◌else◌, length,
}
use zenmind_official_server.Text.{Text, text, text_eq, trim_space, is_blank, contains_byte}
use zenmind_official_server.Text.Path.{join, base, dir}
use zenmind_official_server.Text.Parts.{mem}
use zenmind_official_server.Dict.{Dict, lookup, insert}
use zenmind_official_server.Sqlite.{Conn, Sql, ◌>>=◌, ◌>>◌, pure, gets, modify, attempt}
use zenmind_official_server.Release.Installers.{
  Installer, InstallerRow, InstallerError, is_allowed_installer_key, upsert_installer,
}

pub record UpsertFileOptions : Type 0 where
  pub release_root : Text
  pub key : Text
  pub version : Text
  pub source : Text
  pub file_name : Text
  pub replace : Bool

-- The regular files with their contents, the directories, the table of the installers.
pub record Site : Type 0 where
  pub files : Dict Text
  pub directories : List Text
  pub installers : List InstallerRow

-- What os.Stat finds at a path.
pub data Stat : Type 0 where
  directory : Stat
  regular : Text → Stat
  missing : Stat

abbrev stat_file : Option Text → Stat
stat_file none = missing
stat_file (some content) = regular content

unfoldable pub stat_at : Site → Text → Stat
unfolding mem lookup
stat_at site path =
    if mem path site.directories then directory else stat_file (lookup path site.files)

abbrev pub fail : {S A : Type 0} → Sql S A
fail c = (none, c)

unfoldable pub stat : Text → Sql Site Stat
unfolding attempt ◌>>=◌ stat_at
stat path = do attempt; gets (λ site. stat_at site path)

-- whether validatePathSegment returns no error
unfoldable pub valid_path_segment : Text → Bool
unfolding is_blank text_eq base contains_byte
valid_path_segment value =
    not (is_blank value)
    && text_eq value (base value)
    && not (contains_byte b'/' value || contains_byte 92 value)

-- A path with the directories above it; `taken` stands before the rest.
ancestors_from : Text → Text → List Text
unfolding is_blank text
ancestors_from taken [] = taken ∷ []
ancestors_from taken (c ∷ s) =
    let rest = ancestors_from (taken ++ c ∷ []) s in
    if c == b'/' then (if is_blank taken then text "/" else taken) ∷ rest else rest

abbrev pub is_regular : Option Text → Bool
is_regular none = false
is_regular (some content) = true

has_file : Site → List Text → Bool
unfolding lookup
has_file site [] = false
has_file site (path ∷ paths) = is_regular (lookup path site.files) || has_file site paths

-- os.MkdirAll, which fails where a file stands on the way.
unfoldable pub mkdir_all : Text → Sql Site (Unit {0})
unfolding attempt ◌>>=◌ ancestors_from has_file
mkdir_all path = do
  attempt
  blocked ← gets (λ site. has_file site (ancestors_from [] path))
  if blocked
      then fail
      else modify (λ (site : Site). record site {
        directories = site.directories ++ ancestors_from [] path;
      })

-- The random part of the name of a temporary file at a call, and the part of a content that stands
-- in the file where a call has failed.
pub record Temporary : Type 0 where
  pub random_text : Conn Site → Text
  pub written : Conn Site → Text → Text

unfoldable pub temp_path : Text → Text → Text
unfolding dir base join text
temp_path target token = join (dir target ∷ (text "." ++ base target ++ text ".tmp-" ++ token) ∷ [])

-- The source is opened and copied, the file is closed, then renamed, which a directory refuses.
unfoldable pub copy_calls : Text → Sql Site (Unit {0})
unfolding attempt ◌>>=◌ mem
copy_calls target = do
  attempt
  attempt
  attempt
  attempt
  refused ← gets (λ site. mem target site.directories)
  if refused then fail else pure tt

-- The deferred Remove, whose error is ignored.
unfoldable pub left_behind : Option (Unit {0}) → Text → Text → Conn Site → Conn Site
unfolding insert
left_behind (some u) temp part c = c
left_behind none temp part c = record c {
  tables = record c.tables { files = insert temp part c.tables.files };
}

-- The file has been renamed into its place, or a call has failed.
unfoldable pub settle :
    Text → Text → Text → Text → Option (Unit {0}) → Conn Site → Option (Unit {0}) × Conn Site
unfolding attempt insert left_behind
settle target temp content part (some u) c = (
  some tt,
  record c { tables = record c.tables { files = insert target content c.tables.files } },
)
settle target temp content part none c =
    let (removed, c') = attempt c in (none, left_behind removed temp part c')

-- CreateTemp makes a new file.
unfoldable pub copy_temp :
    Temporary → Text → Text → Text → Bool → Conn Site → Option (Unit {0}) × Conn Site
unfolding copy_calls settle
copy_temp t target temp content true c = (none, c)
copy_temp t target temp content false c =
    let (r, c') = copy_calls target c in settle target temp content (t.written c' content) r c'

unfoldable pub create_and_copy : Temporary → Text → Text → Sql Site (Unit {0})
unfolding attempt lookup temp_path copy_temp ◌>>=◌
create_and_copy t content target c =
    let temp = temp_path target (t.random_text c) in
    (do
      attempt
      taken ← gets (λ (site : Site). is_regular (lookup temp site.files))
      copy_temp t target temp content taken)
      c

unfoldable pub copy_file_atomic : Temporary → Text → Text → Sql Site (Unit {0})
unfolding mkdir_all create_and_copy dir ◌>>=◌
copy_file_atomic t content target = mkdir_all (dir target) >> create_and_copy t content target

-- What UpsertInstaller does to the site.
unfoldable pub save_installer : Installer → ℕ → Sql Site (Unit {0})
unfolding upsert_installer
save_installer installer now c =
    let (e, rows) =
      upsert_installer installer now (record { tables = c.tables.installers; faults = c.faults }) in
    (
      elim e [ none ↦ some tt | some x ↦ none ],
      record { tables = record c.tables { installers = rows.tables }; faults = rows.faults },
    )

unfoldable pub new_installer_href : Text → Text → Text
unfolding join text trim_space
new_installer_href version file_name =
    join (text "/install/releases/desktop" ∷ trim_space version ∷ trim_space file_name ∷ [])

-- The options, trimmed.
unfoldable pub trimmed_options : UpsertFileOptions → UpsertFileOptions
unfolding trim_space
trimmed_options o = record o {
  release_root = trim_space o.release_root;
  key = trim_space o.key;
  version = trim_space o.version;
  source = trim_space o.source;
  file_name = trim_space o.file_name;
}

unfoldable pub target_dir : UpsertFileOptions → Text
unfolding join text
target_dir o = join (o.release_root ∷ text "desktop" ∷ o.version ∷ [])

unfoldable pub target_path : UpsertFileOptions → Text
unfolding join target_dir
target_path o = join (target_dir o ∷ o.file_name ∷ [])

unfoldable pub check_options : UpsertFileOptions → Bool
unfolding is_allowed_installer_key is_blank valid_path_segment
check_options o =
    is_allowed_installer_key o.key
    && not
        (is_blank o.version || is_blank o.source || is_blank o.file_name || is_blank o.release_root)
    && valid_path_segment o.version
    && valid_path_segment o.file_name

-- `sha256` is fileSHA256 of a content.
module _ (sha256 : Text → Text) (t : Temporary) where
  -- The file is written if there is none, or if another one may be replaced.
  unfoldable pub place : Bool → Text → Text → Text → Stat → Sql Site (Unit {0})
  unfolding ◌>>=◌
  place replace folder target content directory = fail
  place replace folder target content (regular old) =
      attempt
      >> (if text_eq (sha256 old) (sha256 content)
          then pure tt
          else if replace
          then copy_file_atomic t content target
          else fail)
  place replace folder target content missing =
      mkdir_all folder >> copy_file_atomic t content target

  -- The installer of the file that stands at the target.
  unfoldable pub new_installer : UpsertFileOptions → ℕ → Text → Installer
  unfolding new_installer_href
  new_installer o now content = record {
    key = o.key;
    available = true;
    version = o.version;
    href = new_installer_href o.version o.file_name;
    file_name = o.file_name;
    size_bytes = length content;
    sha256 = sha256 content;
    updated_at = now;
  }

  unfoldable pub register : UpsertFileOptions → ℕ → Stat → Sql Site Installer
  unfolding attempt ◌>>=◌ save_installer new_installer
  register o now directory = fail
  register o now missing = fail
  register o now (regular content) = do
    attempt
    attempt
    attempt
    save_installer (new_installer o now content) now
    pure (new_installer o now content)

  unfoldable pub place_source : UpsertFileOptions → ℕ → Stat → Sql Site Installer
  unfolding attempt ◌>>=◌ stat place register target_dir target_path
  place_source o now directory = fail
  place_source o now missing = fail
  place_source o now (regular content) = do
    attempt
    found ← stat (target_path o)
    place o.replace (target_dir o) (target_path o) content found
    attempt
    placed ← stat (target_path o)
    register o now placed

  -- UpsertFile at the time `now`
  unfoldable pub upsert_file : UpsertFileOptions → ℕ → Sql Site Installer
  unfolding trimmed_options check_options stat place_source ◌>>=◌
  upsert_file opts now =
      let o = trimmed_options opts in
      if not (check_options o) then fail else do source ← stat o.source; place_source o now source
