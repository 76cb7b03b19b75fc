-- ===== src/Release/Directory/Imported.antt =====
-- internal/release/directory_updates.go: the directory after the import.
use zenmind_official_server.Base.{ℕ, ◌≡◌, ◌⊎◌, some, List, [], ◌∷◌, ◌++◌, if◌then◌else◌, reverse}
use zenmind_official_server.Text.{Text, text}
use zenmind_official_server.Release.Manifest.{Formats}
use zenmind_official_server.Release.Feeds.{UpdateFeed, Feeds, ok, get_update_feed}
use zenmind_official_server.Release.Listing.{list_update_feeds, history_rows, scan_feeds}
use zenmind_official_server.Release.Directory.Files.{Entry, regular, Root}
use zenmind_official_server.Release.Directory.Reads.{Json, disabled_path, sidecar_path}
use zenmind_official_server.Release.Directory.Growth.{Stands}
use zenmind_official_server.Release.Directory.Present.{HasFeeds}
use zenmind_official_server.Release.Directory.Import.{encode_manifest, marker}

module _ (f : Formats) (j : Json) (db : Feeds) (now : ℕ) where
  -- The files that the import makes: a history as SQLite has it, the current manifest of a feed
  -- under its public name or, if the feed is not enabled, among the disabled files, and the marker.
  pub data IsExport : Text → Entry → Type 0 where
    history :
        (name content : Text) (items : List UpdateFeed)
        → scan_feeds f (reverse (history_rows name db.revisions)) ≡ ok items
        → j.marshal_history items ≡ some content
        → IsExport (sidecar_path name) (regular content now)
    file :
        (name content : Text) (current : UpdateFeed)
        → get_update_feed f name db ≡ ok current
        → encode_manifest f j db now current.manifest ≡ some content
        → IsExport (if current.enabled then name else disabled_path name) (regular content now)
    marked : IsExport marker (regular (text "true" ++ 10 ∷ []) now)

  -- What the import leaves where it succeeds.
  abbrev pub IsImported : Root → Root → Type 0
  IsImported before r =
      Stands marker r
      × (Stands marker before
          ⊎ ((items : List UpdateFeed) × (list_update_feeds db ≡ ok items) × HasFeeds items r))
