-- ===== src/Release/Placement/Laws.antt =====
-- internal/release/upsert.go: the files after UpsertFile.
use zenmind_official_server.Base.{ℕ, ◌≤◌, ◌≡◌, ◌⊎◌, true, false, Option, none, some, List}
use zenmind_official_server.Text.{Text, contains_byte}
use zenmind_official_server.Text.Parts.{mem}
use zenmind_official_server.Dict.{Dict, lookup, insert}
use zenmind_official_server.Sqlite.{Conn, ◌>>=◌, ◌>>◌}
use zenmind_official_server.Release.Placement.{
  UpsertFileOptions, Site, Stat, regular, missing, stat_at, target_path, Temporary, temp_path,
}
use zenmind_official_server.Release.Placement.Files.{Disk}

-- A temporary file beside the target, where nothing stood before: two calls fail, or one does and
-- the target is a directory.
abbrev pub Stray : UpsertFileOptions → ℕ → Dict Text → List Text → Text → Type 0
Stray o n files directories temp =
    ((token : Text) × (temp ≡ temp_path (target_path o) token))
    × (lookup temp files ≡ none)
    × ((2 ≤ n) ⊎ ((1 ≤ n) × (mem (target_path o) directories ≡ true)))

Outcome : UpsertFileOptions → Text → ℕ → Site → Disk → Type 0
Outcome o content n before (files, directories) =
    (files ≡ before.files)
    ⊎ ((files ≡ insert (target_path o) content before.files)
        × ((o.replace ≡ true) ⊎ (stat_at before (target_path o) ≡ missing)))
    ⊎ ((temp : Text) × (part : Text) × Stray o n before.files directories temp
        × (files ≡ insert temp part before.files))

module _ (sha256 : Text → Text) (t : Temporary) where
  -- What placing a file does to the files, if it may write at the target.
  abbrev Wrote :
      UpsertFileOptions → Text → ℕ → Stat → Dict Text → Option (Unit {0}) × Conn Site → Type 0
  Wrote o content n s files (r, c) =
      (c.tables.files ≡ files)
      ⊎ ((c.tables.files ≡ insert (target_path o) content files)
          × ((o.replace ≡ true) ⊎ (s ≡ missing)))
      ⊎ ((temp : Text) × (part : Text) × Stray o n files c.tables.directories temp
          × (c.tables.files ≡ insert temp part files))

  -- The disk after UpsertFile, where a file stands at the source.
  Written : UpsertFileOptions → ℕ → Site → Disk → Type 0
  Written o n before after =
      (after.0 ≡ before.files)
      ⊎ ((content : Text) × (stat_at before o.source ≡ regular content)
          × Outcome o content n before after)

  -- Neither the version nor the name of the file has a separator.
  abbrev pub IsPlain : UpsertFileOptions → Type 0
  IsPlain o =
      (contains_byte b'/' o.version ≡ false)
      × (contains_byte 92 o.version ≡ false)
      × (contains_byte b'/' o.file_name ≡ false)
      × (contains_byte 92 o.file_name ≡ false)

  -- A path after UpsertFile: as it was, or the target with the content of the source, or a temporary
  -- file.
  abbrev pub IsGuarded : UpsertFileOptions → ℕ → Site → Site → Text → Type 0
  IsGuarded o n before after path =
      (lookup path after.files ≡ lookup path before.files)
      ⊎ (IsPlain o
          × (path ≡ target_path o)
          × ((content : Text) × (lookup o.source before.files ≡ some content)
              × (lookup path after.files ≡ some content))
          × ((o.replace ≡ true) ⊎ (lookup path before.files ≡ none)))
      ⊎ (IsPlain o × Stray o n before.files after.directories path)
