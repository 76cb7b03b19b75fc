-- ===== src/Release/Installers/Laws.antt =====
-- What is listed after an installer has been written.
use zenmind_official_server.Base.{
  ℕ, ◌≡◌, refl, sym, ap, ◌∙◌, ◌⊎◌, inl, inr, Bool, true, false, Option, none, some, List, [], ◌∷◌,
  ◌++◌, if◌then◌else◌, ◌==◌, arith, Bool-cases, Option-cases,
}
use zenmind_official_server.Text.{Text, text, text_eq, trim_space}
use zenmind_official_server.Text.Laws.{text_eq_iff}
use zenmind_official_server.Sqlite.{Conn, ◌>>=◌, attempt}
use zenmind_official_server.Release.Installers.{
  Installer, InstallerRow, is_allowed_installer_key, installer_of, scan_rows, rows_of, select_rows,
  list_installers, trimmed, flag, row_of, upsert_row, upsert_installer,
}

-- The installer of a key in a list.
abbrev pub listed : Text → List Installer → Option Installer
listed k [] = none
listed k (i ∷ l) = if text_eq i.key k then some i else listed k l

-- The row of a key, as an installer.
abbrev stored : Text → List InstallerRow → Option Installer
stored k [] = none
stored k (r ∷ rs) = if text_eq r.key k then some (installer_of r) else stored k rs

listed-scan_rows :
    (k : Text) (rs : List InstallerRow) (l : List Installer)
    → is_allowed_installer_key k ≡ true
    → scan_rows rs ≡ some l
    → listed k l ≡ stored k rs
unfolding scan_rows
listed-scan_rows k [] l a h = let nothing : [] ≡ l = cc in rw⁻¹ nothing refl
listed-scan_rows k (r ∷ rs) l a h = elim (Bool-cases (is_allowed_installer_key r.key)) [
  | inr strange ↦
      let other : text_eq r.key k ≡ false = ground (arith, text_eq_iff r.key k) in
      rw other (listed-scan_rows k rs l a (rw strange at h))
  | inl good ↦ elim (Option-cases r.updated_at) [
    | inl bad ↦ let unread = (rw (good, bad) at h) in cc
    | inr (t, time) ↦ elim (Option-cases (scan_rows rs)) [
      | inl bad ↦ let unread = (rw (good, time, bad) at h) in cc
      | inr (l', rest) ↦
          let e : installer_of r ∷ l' ≡ l = (let e = (rw (good, time, rest) at h) in cc) in
          rw⁻¹ e (ground (arith, listed-scan_rows k rs l' a rest))
    ]
  ]
]

stored-append :
    (k : Text) (rs ts : List InstallerRow)
    → stored k (rs ++ ts) ≡ (elim (stored k rs) [ none ↦ stored k ts | some i ↦ some i ])
stored-append k [] ts = refl
stored-append k (r ∷ rs) ts = ground (arith, stored-append k rs ts)

stored-rows_of :
    (k key : Text) (rs : List InstallerRow)
    → stored k (rows_of key rs) ≡ (if text_eq key k then stored k rs else none)
unfolding rows_of
stored-rows_of k key [] = ground arith
stored-rows_of k key (r ∷ rs) =
    ground (
      arith,
      text_eq_iff r.key key,
      text_eq_iff key k,
      text_eq_iff r.key k,
      stored-rows_of k key rs,
    )

stored-upsert_row :
    (k : Text) (new : InstallerRow) (rs : List InstallerRow)
    → stored k (upsert_row new rs)
      ≡ (if text_eq new.key k then some (installer_of new) else stored k rs)
unfolding upsert_row
stored-upsert_row k new [] = ground arith
stored-upsert_row k new (r ∷ rs) = ground (
  arith,
  text_eq_iff r.key new.key,
  text_eq_iff new.key k,
  text_eq_iff r.key k,
  stored-upsert_row k new rs,
)

stored-select_rows :
    (k : Text) (rs : List InstallerRow)
    → (k ≡ text "mac") ⊎ (k ≡ text "windows")
    → stored k (select_rows rs) ≡ stored k rs
unfolding select_rows
stored-select_rows k rs h = ground (
  arith,
  stored-append k (rows_of (text "windows") rs) (rows_of (text "mac") rs),
  stored-rows_of k (text "windows") rs,
  stored-rows_of k (text "mac") rs,
  text_eq_iff (text "windows") k,
  text_eq_iff (text "mac") k,
  Option-cases (stored k rs),
)

list-select :
    (c : Conn (List InstallerRow)) (l : List Installer)
    → (list_installers c).0 ≡ some l
    → scan_rows (select_rows c.tables) ≡ some l
unfolding list_installers ◌>>=◌ attempt
list-select c l h = ground arith

is_allowed-key :
    (k : Text) → (k ≡ text "mac") ⊎ (k ≡ text "windows") → is_allowed_installer_key k ≡ true
unfolding is_allowed_installer_key trim_space text text_eq
is_allowed-key k (inl mac) = rw mac refl
is_allowed-key k (inr windows) = rw windows refl

listed-list :
    (k : Text) (c : Conn (List InstallerRow)) (l : List Installer)
    → (k ≡ text "mac") ⊎ (k ≡ text "windows")
    → (list_installers c).0 ≡ some l
    → listed k l ≡ stored k c.tables
listed-list k c l a h =
    listed-scan_rows k (select_rows c.tables) l (is_allowed-key k a) (list-select c l h)
    ∙ stored-select_rows k c.tables a

-- The installer as it is kept: with its fields trimmed, and the time of the call for a zero time.
abbrev pub kept : Installer → ℕ → Installer
kept i now = record (trimmed i) { updated_at = if i.updated_at == 0 then now else i.updated_at }

flag_inv : (b : Bool) → (flag b == 1) ≡ b
flag_inv true = refl
flag_inv false = refl

installer_of-kept : (i : Installer) (now : ℕ) → installer_of (row_of (trimmed i) now) ≡ kept i now
unfolding trimmed
installer_of-kept i now = ap (λ b. record (kept i now) { available = b }) (flag_inv i.available)

upsert-cases :
    (i : Installer) (now : ℕ) (c : Conn (List InstallerRow))
    → (upsert_installer i now c).0 ≡ none
    → (upsert_installer i now c).1.tables ≡ upsert_row (row_of (trimmed i) now) c.tables
unfolding upsert_installer ◌>>=◌ attempt
upsert-cases i now c h = ground arith

-- What UpsertInstaller has written is what ListInstallers lists: after a call that succeeds, the
-- list has the installer, trimmed, under its key, and under the other key what it had before, if
-- both lists can be read.
pub upsert-list :
    (i : Installer) (now : ℕ) (c : Conn (List InstallerRow)) (k : Text)
    (before after : List Installer)
    → (k ≡ text "mac") ⊎ (k ≡ text "windows")
    → (list_installers c).0 ≡ some before
    → (upsert_installer i now c).0 ≡ none
    → (list_installers (upsert_installer i now c).1).0 ≡ some after
    → listed k after ≡ (if text_eq (trim_space i.key) k then some (kept i now) else listed k before)
unfolding trimmed
upsert-list i now c k before after a before_read done after_read =
    listed-list k _ after a after_read
    ∙ ap (stored k) (upsert-cases i now c done)
    ∙ stored-upsert_row k (row_of (trimmed i) now) c.tables
    ∙ (rw (installer_of-kept i now, sym (listed-list k c before a before_read)) refl)
