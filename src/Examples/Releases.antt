-- ===== src/Examples/Releases.antt =====
-- internal/release: an installer that is saved, and a file that is put under the release root.
use zenmind_official_server.Base.{
  ◌≡◌, refl, inl, true, false, none, some, List, [], ◌∷◌, if◌then◌else◌,
}
use zenmind_official_server.Text.{text, text_eq, trim_space}
use zenmind_official_server.Dict.{lookup}
use zenmind_official_server.Sqlite.{Conn}
use zenmind_official_server.Release.Installers.{
  Installer, InstallerRow, list_installers, upsert_installer,
}
use zenmind_official_server.Release.Installers.Laws.{listed, kept, upsert-list}
use zenmind_official_server.Release.Placement.{
  UpsertFileOptions, Site, Temporary, mkdir_all, copy_file_atomic, upsert_file,
}

abbrev installer : Installer
installer = record {
  key = text " mac ";
  available = true;
  version = text "1.2";
  href = text "/install/releases/desktop/1.2/a.dmg";
  file_name = text "a.dmg";
  size_bytes = 3;
  sha256 = text "abc";
  updated_at = 0;
}

abbrev no_installers : Conn (List InstallerRow)
no_installers = record { tables = []; faults = [] }

saved : (upsert_installer installer 9 no_installers).0 ≡ none
unfolding upsert_installer text text_eq
saved = refl

nothing_listed : (list_installers no_installers).0 ≡ some []
unfolding list_installers text text_eq
nothing_listed = refl

one_listed :
    (list_installers (upsert_installer installer 9 no_installers).1).0
    ≡ some (kept installer 9 ∷ [])
unfolding list_installers upsert_installer text text_eq
one_listed = refl

upsert-list_example : listed (text "mac") (kept installer 9 ∷ []) ≡ (
    if text_eq (trim_space installer.key) (text "mac")
    then some (kept installer 9)
    else listed (text "mac") [])
upsert-list_example =
    upsert-list installer 9 no_installers (text "mac") [] (kept installer 9 ∷ []) (inl refl)
      nothing_listed saved one_listed

abbrev site : Site
site = record {
  files = (text "/tmp/a.dmg", text "abc") ∷ [];
  directories = text "/tmp" ∷ [];
  installers = [];
}

abbrev options : UpsertFileOptions
options = record {
  release_root = text "/r";
  key = text "mac";
  version = text "1.2 ";
  source = text "/tmp/a.dmg";
  file_name = text "a.dmg";
  replace = false;
}

abbrev fresh : Conn Site
fresh = record { tables = site; faults = [] }

abbrev temporary : Temporary
temporary = record { random_text = λ c. text "x"; written = λ c content. content }

placed :
    lookup
      (text "/r/desktop/1.2/a.dmg")
      (upsert_file (λ s. s) temporary options 9 fresh).1.tables.files
    ≡ some (text "abc")
unfolding upsert_file text text_eq lookup mkdir_all copy_file_atomic
placed = refl

-- A version that leads out of the directory of the releases: the file is there, the call fails.
abbrev outward : UpsertFileOptions
outward = record options { version = text ".." }

out_of_releases :
    let (result, after) = upsert_file (λ s. s) temporary outward 9 fresh in
    (result ≡ none) × (lookup (text "/r/a.dmg") after.tables.files ≡ some (text "abc"))
unfolding upsert_file text text_eq lookup mkdir_all copy_file_atomic
out_of_releases = (refl, refl)

-- The version and the name of the file make a path of a directory, onto which nothing is renamed.
abbrev upward : UpsertFileOptions
upward = record options { file_name = text ".." }

refused_by_directory :
    let (result, after) = upsert_file (λ s. s) temporary upward 9 fresh in
    (result ≡ none) × (after.tables.files ≡ site.files)
unfolding upsert_file text text_eq lookup mkdir_all copy_file_atomic
refused_by_directory = (refl, refl)

-- The renaming and the removal fail: the temporary file stays.
stray :
    let (result, after) =
      upsert_file
        (λ s. s)
        temporary
        options
        9
        (record fresh {
          faults =
              false ∷ false ∷ false ∷ false ∷ false ∷ false ∷ false ∷ false ∷ false ∷ true ∷ true
              ∷ [];
        }) in
    (result ≡ none)
    × (lookup (text "/r/desktop/1.2/.a.dmg.tmp-x") after.tables.files ≡ some (text "abc"))
unfolding upsert_file text text_eq lookup mkdir_all copy_file_atomic
stray = (refl, refl)
