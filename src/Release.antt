-- ===== src/Release.antt =====
-- internal/release: the update feeds and the installers. Manifest has the manifest of a feed and its
-- validation, Feeds the feeds in SQLite, Revisions their properties, Migration the import of the feed
-- of an older version, Listing the lists, Directory the feeds as files; Installers has the table of
-- the installers, Placement the files of the releases.
pub mod Manifest
pub mod Feeds
pub mod Revisions
pub mod Migration
pub mod Listing
pub mod Directory
pub mod Installers
pub mod Placement
