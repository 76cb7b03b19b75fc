-- ===== src/Release/Installers.antt =====
-- internal/release/catalog.go: the installers in SQLite. Times stand in the table as text; `none` is
-- a text that time.Parse refuses.
pub mod Laws
use zenmind_official_server.Base.{
  ℕ, ◌≡◌, Bool, true, false, not, ◌&&◌, ◌||◌, Option, none, some, List, [], ◌∷◌, ◌++◌,
  if◌then◌else◌, ◌==◌,
}
use zenmind_official_server.Text.{Text, text, text_eq, trim_space, is_blank, has_prefix}
use zenmind_official_server.Sqlite.{Conn, Sql, ◌>>=◌, ◌>>◌, gets, modify, attempt}

pub record Installer : Type 0 where
  pub key : Text
  pub available : Bool
  pub version : Text
  pub href : Text
  pub file_name : Text
  pub size_bytes : ℕ
  pub sha256 : Text
  -- 0 is the zero time
  pub updated_at : ℕ

-- installer
pub record InstallerRow : Type 0 where
  pub key : Text
  pub available : ℕ
  pub version : Text
  pub href : Text
  pub file_name : Text
  pub size_bytes : ℕ
  pub sha256 : Text
  pub created_at : ℕ
  pub updated_at : Option ℕ

pub data InstallerError : Type 0 where
  -- ErrInvalidInstallerKey, ErrInvalidInstaller
  invalid_key : InstallerError
  invalid_installer : InstallerError
  -- an error of the driver, or of the file system
  failed : InstallerError

unfoldable pub is_allowed_installer_key : Text → Bool
unfolding trim_space text text_eq
is_allowed_installer_key key =
    text_eq (trim_space key) (text "mac") || text_eq (trim_space key) (text "windows")

abbrev pub or_zero : Option ℕ → ℕ
or_zero none = 0
or_zero (some n) = n

abbrev pub installer_of : InstallerRow → Installer
installer_of r = record {
  key = r.key;
  available = r.available == 1;
  version = r.version;
  href = r.href;
  file_name = r.file_name;
  size_bytes = r.size_bytes;
  sha256 = r.sha256;
  updated_at = or_zero r.updated_at;
}

abbrev cons_row : InstallerRow → Option (List Installer) → Option (List Installer)
cons_row r none = none
cons_row r (some l) = some (installer_of r ∷ l)

-- The loop over the rows.
unfoldable pub scan_rows : List InstallerRow → Option (List Installer)
unfolding is_allowed_installer_key
scan_rows [] = some []
scan_rows (r ∷ rs) =
    let rest = scan_rows rs in
    if not (is_allowed_installer_key r.key)
    then rest
    else elim r.updated_at [ none ↦ none | some t ↦ cons_row r rest ]

unfoldable pub rows_of : Text → List InstallerRow → List InstallerRow
unfolding text_eq
rows_of key [] = []
rows_of key (r ∷ rs) = let rest = rows_of key rs in if text_eq r.key key then r ∷ rest else rest

-- WHERE KEY_ IN ('windows', 'mac') ORDER BY ...
unfoldable pub select_rows : List InstallerRow → List InstallerRow
unfolding rows_of text
select_rows rs = rows_of (text "windows") rs ++ rows_of (text "mac") rs

-- `none` is an error of the driver or a time that cannot be read.
unfoldable pub list_installers :
    Conn (List InstallerRow) → Option (List Installer) × Conn (List InstallerRow)
unfolding attempt ◌>>=◌ select_rows scan_rows
list_installers c =
    let (rows, c') = (do attempt; gets select_rows) c in
    (elim rows [ none ↦ none | some rs ↦ scan_rows rs ], c')

-- The fields as UpsertInstaller trims them.
unfoldable pub trimmed : Installer → Installer
unfolding trim_space
trimmed i = record i {
  key = trim_space i.key;
  version = trim_space i.version;
  href = trim_space i.href;
  file_name = trim_space i.file_name;
  sha256 = trim_space i.sha256;
}

unfoldable pub check_installer : Installer → Option InstallerError
unfolding is_allowed_installer_key is_blank has_prefix text
check_installer i =
    if not (is_allowed_installer_key i.key)
    then some invalid_key
    else if i.available && (is_blank i.version || is_blank i.href || is_blank i.file_name)
    then some invalid_installer
    else if i.available && not (has_prefix i.href (text "/install/releases/desktop/"))
    then some invalid_installer
    else none

abbrev pub flag : Bool → ℕ
flag true = 1
flag false = 0

abbrev pub row_of : Installer → ℕ → InstallerRow
row_of i now = record {
  key = i.key;
  available = flag i.available;
  version = i.version;
  href = i.href;
  file_name = i.file_name;
  size_bytes = i.size_bytes;
  sha256 = i.sha256;
  created_at = now;
  updated_at = some (if i.updated_at == 0 then now else i.updated_at);
}

-- INSERT INTO installer ... ON CONFLICT(KEY_) DO UPDATE SET ...
unfoldable pub upsert_row : InstallerRow → List InstallerRow → List InstallerRow
unfolding text_eq
upsert_row new [] = new ∷ []
upsert_row new (r ∷ rs) =
    if text_eq r.key new.key
    then record new { created_at = r.created_at } ∷ rs
    else r ∷ upsert_row new rs

abbrev pub or_failed : Option (Unit {0}) → Option InstallerError
or_failed none = some failed
or_failed (some u) = none

-- UpsertInstaller at the time `now`
unfoldable pub upsert_installer :
    Installer → ℕ → Conn (List InstallerRow) → Option InstallerError × Conn (List InstallerRow)
unfolding trimmed check_installer attempt ◌>>=◌ upsert_row
upsert_installer installer now c = elim (check_installer (trimmed installer)) [
  | some e ↦ (some e, c)
  | none ↦
      let (done, c') = (do attempt; modify (upsert_row (row_of (trimmed installer) now))) c in
      (or_failed done, c')
]
