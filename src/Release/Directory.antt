-- ===== src/Release/Directory.antt =====
-- internal/release/directory_updates.go: the feeds as files of a directory. The calls of the
-- operating system fail as those of the driver do. Publishers outside the program, which may change
-- a file between two calls, are left out. Files has the calls, Reads the reads, Writes the saves of
-- the catalog and Import the import from SQLite; Effects, Paths, Saves, Growth, Present and
-- Imported are about what they leave.
pub mod Files
pub mod Reads
pub mod Writes
pub mod Import
pub mod Growth
pub mod Present
pub mod Imported
pub mod Effects
pub mod Paths
pub mod Saves
