-- ===== src/Release/Migration.antt =====
-- internal/release/update_feeds.go: the tables of the feeds are made, and those of an older version,
-- which had one feed, are imported once. A table that is missing is an empty one.
pub mod Rows
pub mod Laws
use zenmind_official_server.Base.{ℕ, Bool, true, false, Option, none, some, List, [], ◌∷◌, ◌++◌}
use zenmind_official_server.Text.{Text, text}
use zenmind_official_server.Sqlite.{Conn, Sql, ◌>>=◌, ◌>>◌, pure, attempt, transaction}
use zenmind_official_server.Release.Feeds.{
  FeedRow, RevisionRow, Feeds, current_revision, revision_row,
}

-- desktop_update_release
pub record LegacyRelease : Type 0 where
  pub id : ℕ
  pub manifest : Text
  pub created_at : ℕ

-- The tables of the older version.
pub record Legacy : Type 0 where
  pub releases : List LegacyRelease
  -- RELEASE_ID_ of the row of desktop_update_current with the id 1
  pub current : Option ℕ

pub record UpdateTables : Type 0 where
  pub feeds : Feeds
  -- update_feed_migration has its row.
  pub migrated : Bool
  -- `none` where sqlite_master has no desktop_update_current
  pub legacy : Option Legacy

-- The name of the one feed.
unfoldable pub latest : Text
unfolding text
latest = text "desktop-latest.json"

abbrev pub imported_row : LegacyRelease → RevisionRow
imported_row r = record {
  name = latest;
  revision = r.id;
  description = [];
  enabled = true;
  manifest = r.manifest;
  updated_at = r.created_at;
  updated_by = 0;
}

-- INSERT INTO update_feed_revision SELECT ...; a second row of a name and a revision is refused.
unfoldable pub import_revisions : List LegacyRelease → List RevisionRow → Option (List RevisionRow)
import_revisions [] rows = some rows
import_revisions (r ∷ releases) rows = elim (revision_row latest r.id rows) [
  | some old ↦ none
  | none ↦ import_revisions releases (rows ++ imported_row r ∷ [])
]

-- INSERT INTO update_feed SELECT ...; a second row of a name is refused.
unfoldable pub import_current_feed : Option ℕ → List FeedRow → Option (List FeedRow)
import_current_feed none rows = some rows
import_current_feed (some id) rows = elim (current_revision latest rows) [
  | some old ↦ none
  | none ↦ some (rows ++ record { name = latest; revision = id } ∷ [])
]

abbrev pub refused_or :
    Option UpdateTables → Conn UpdateTables → Option (Unit {0}) × Conn UpdateTables
refused_or none c = (none, c)
refused_or (some t) c = (some tt, record c { tables = t })

-- A statement that the constraints of the tables may refuse.
unfoldable pub update : (UpdateTables → Option UpdateTables) → Sql UpdateTables (Unit {0})
update f c = refused_or (f c.tables) c

unfoldable pub add_revisions : Legacy → UpdateTables → Option UpdateTables
add_revisions l t = elim (import_revisions l.releases t.feeds.revisions) [
  | none ↦ none
  | some rows ↦ some (record t { feeds = record t.feeds { revisions = rows } })
]

unfoldable pub add_current : Legacy → UpdateTables → Option UpdateTables
add_current l t = elim (import_current_feed l.current t.feeds.current) [
  | none ↦ none
  | some rows ↦ some (record t { feeds = record t.feeds { current = rows } })
]

unfoldable pub import_tables : Option Legacy → Sql UpdateTables (Unit {0})
unfolding ◌>>=◌
import_tables none = pure tt
import_tables (some l) = do attempt; update (add_revisions l); attempt; update (add_current l)

abbrev pub mark : UpdateTables → Option UpdateTables
mark t = some (record t { migrated = true })

-- `c` has the tables that the SELECT before finds.
unfoldable pub migrate : Bool → Sql UpdateTables (Unit {0})
unfolding ◌>>=◌
migrate true = pure tt
migrate false = do attempt; (λ c. import_tables c.tables.legacy c); attempt; update mark

unfoldable pub ensure_desktop_update_schema : Sql UpdateTables (Unit {0})
unfolding ◌>>=◌
ensure_desktop_update_schema =
    transaction do attempt; attempt; attempt; attempt; (λ c. migrate c.tables.migrated c)
