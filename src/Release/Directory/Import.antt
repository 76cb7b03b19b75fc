-- ===== src/Release/Directory/Import.antt =====
-- internal/release/directory_updates.go: opening the directory, and the import of the feeds of
-- SQLite. The queries fail as the calls of the operating system do.
use zenmind_official_server.Base.{
  ℕ, Option, none, some, List, [], ◌∷◌, ◌++◌, if◌then◌else◌, reverse,
}
use zenmind_official_server.Text.{Text, text}
use zenmind_official_server.Release.Manifest.{DesktopManifest, Formats}
use zenmind_official_server.Release.Feeds.{UpdateFeed, Feeds, ok, get_update_feed}
use zenmind_official_server.Release.Listing.{list_update_feeds, history_rows, scan_feeds}
use zenmind_official_server.Release.Directory.Files.{
  Act, Entry, Temporary, ◌>>=◌, ◌>>◌, pure, or_driver, attempt, find, atomic_write,
}
use zenmind_official_server.Release.Directory.Reads.{Json, disabled_path, sidecar_path}

abbrev pub marker : Text
marker = text ".admin/.sqlite-exported"

-- A path under which nothing stands is written.
unfoldable pub write_missing : Temporary → Text → Option Text → ℕ → Option Entry → Act (Unit {0})
unfolding atomic_write ◌>>=◌
write_missing t path encoded now (some entry) = pure (ok tt)
write_missing t path encoded now none = do
  content ← pure (or_driver encoded)
  atomic_write t path content now

module _ (f : Formats) (j : Json) (db : Feeds) (now : ℕ) where
  abbrev pub encode_manifest : Option DesktopManifest → Option Text
  encode_manifest none = some (text "null")
  encode_manifest (some m) = j.marshal_indent m

  -- The file of a feed, unless there is a public or a disabled one.
  unfoldable pub import_file : Text → UpdateFeed → Option Entry → Option Entry → Act (Unit {0})
  unfolding write_missing text
  import_file name current (some entry) disabled = pure (ok tt)
  import_file name current none (some entry) = pure (ok tt)
  import_file name current none none =
      write_missing j.temporary (if current.enabled then name else disabled_path name)
        (encode_manifest current.manifest) now none

  unfoldable pub import_current : Text → UpdateFeed → Act (Unit {0})
  unfolding attempt find import_file text ◌>>=◌
  import_current name current = do
    attempt
    public ← find name
    attempt
    disabled ← find (disabled_path name)
    import_file name current public disabled

  unfoldable pub import_history : Text → List UpdateFeed → Act (Unit {0})
  unfolding attempt find write_missing text ◌>>=◌
  import_history name items = do
    attempt
    sidecar ← find (sidecar_path name)
    write_missing j.temporary (sidecar_path name) (j.marshal_history items) now sidecar

  -- The round of the loop for a feed.
  unfoldable pub import_feed : UpdateFeed → Act (Unit {0})
  unfolding attempt get_update_feed history_rows scan_feeds import_history import_current ◌>>=◌
  import_feed item = do
    attempt
    current ← pure (get_update_feed f item.name db)
    attempt
    items ← pure (scan_feeds f (reverse (history_rows item.name db.revisions)))
    import_history item.name items
    import_current item.name current

  unfoldable pub import_feeds : List UpdateFeed → Act (Unit {0})
  unfolding import_feed ◌>>=◌
  import_feeds [] = pure (ok tt)
  import_feeds (item ∷ items) = import_feed item >> import_feeds items

  -- The import, if its marker is missing.
  unfoldable pub import_missing : Option Entry → Act (Unit {0})
  unfolding attempt list_update_feeds import_feeds atomic_write text ◌>>=◌
  import_missing (some entry) = pure (ok tt)
  import_missing none = do
    attempt
    items ← pure (list_update_feeds db)
    import_feeds items
    atomic_write j.temporary marker (text "true" ++ 10 ∷ []) now

  unfoldable pub import_legacy : Act (Unit {0})
  unfolding attempt find import_missing text ◌>>=◌
  import_legacy = do attempt; found ← find marker; import_missing found

-- OpenDirectoryUpdates; the directories that it makes are no entries.
unfoldable pub open_directory_updates : Formats → Json → ℕ → Option Feeds → Act (Unit {0})
unfolding attempt import_legacy ◌>>=◌
open_directory_updates f j now none = do attempt; attempt; attempt; attempt; pure (ok tt)
open_directory_updates f j now (some db) = do
  attempt
  attempt
  attempt
  attempt
  import_legacy f j db now
