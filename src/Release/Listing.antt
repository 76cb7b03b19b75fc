-- ===== src/Release/Listing.antt =====
-- internal/release/update_feeds.go: the list of the feeds and the history of a feed, in SQLite, where
-- no call of the driver fails.
use zenmind_official_server.Base.{none, some, List, [], ◌∷◌, if◌then◌else◌, ltb, take}
use zenmind_official_server.Text.{Text, text_eq}
use zenmind_official_server.Text.Parts.{is_before}
use zenmind_official_server.Release.Manifest.{Formats}
use zenmind_official_server.Release.Feeds.{
  UpdateFeed, FeedRow, RevisionRow, Feeds, Outcome, ok, err, revision_row, scan_feed,
  get_update_feed,
}

-- ORDER BY r.NAME_
unfoldable pub insert_by_name : RevisionRow → List RevisionRow → List RevisionRow
unfolding is_before
insert_by_name r [] = r ∷ []
insert_by_name r (s ∷ rows) =
    let rest = insert_by_name r rows in if is_before s.name r.name then s ∷ rest else r ∷ s ∷ rows

-- ORDER BY r.REVISION_ DESC
unfoldable pub insert_by_revision : RevisionRow → List RevisionRow → List RevisionRow
insert_by_revision r [] = r ∷ []
insert_by_revision r (s ∷ rows) =
    let rest = insert_by_revision r rows in
    if ltb r.revision s.revision then s ∷ rest else r ∷ s ∷ rows

-- The current revisions, FROM update_feed f JOIN update_feed_revision r.
unfoldable pub joined_rows : List FeedRow → List RevisionRow → List RevisionRow
unfolding revision_row insert_by_name
joined_rows [] revisions = []
joined_rows (feed ∷ feeds) revisions =
    let rest = joined_rows feeds revisions in
    elim (revision_row feed.name feed.revision revisions) [
      | none ↦ rest
      | some r ↦ insert_by_name r rest
    ]

-- scanFeed without the manifest
abbrev pub listed_feed : RevisionRow → UpdateFeed
listed_feed r = record {
  e_tag = [];
  name = r.name;
  description = r.description;
  enabled = r.enabled;
  revision = r.revision;
  updated_at = r.updated_at;
  updated_by = r.updated_by;
  manifest = none;
}

unfoldable pub listed_feeds : List RevisionRow → List UpdateFeed
listed_feeds [] = []
listed_feeds (r ∷ rows) = listed_feed r ∷ listed_feeds rows

unfoldable pub list_update_feeds : Feeds → Outcome (List UpdateFeed)
unfolding joined_rows listed_feeds
list_update_feeds db = ok (listed_feeds (joined_rows db.current db.revisions))

-- WHERE r.NAME_=? ORDER BY r.REVISION_ DESC
unfoldable pub history_rows : Text → List RevisionRow → List RevisionRow
unfolding text_eq insert_by_revision
history_rows name [] = []
history_rows name (r ∷ rows) =
    let rest = history_rows name rows in
    if text_eq r.name name then insert_by_revision r rest else rest

abbrev add_item : UpdateFeed → Outcome (List UpdateFeed) → Outcome (List UpdateFeed)
add_item item (ok items) = ok (item ∷ items)
add_item item (err e) = err e

module _ (f : Formats) where
  -- The loop over the rows.
  unfoldable pub scan_feeds : List RevisionRow → Outcome (List UpdateFeed)
  unfolding scan_feed
  scan_feeds [] = ok []
  scan_feeds (r ∷ rows) =
      let rest = scan_feeds rows in
      elim (scan_feed f r) [ err e ↦ err e | ok item ↦ add_item item rest ]

  unfoldable pub update_feed_history : Text → Feeds → Outcome (List UpdateFeed)
  unfolding get_update_feed history_rows scan_feeds
  update_feed_history name db = elim (get_update_feed f name db) [
    | err e ↦ err e
    | ok item ↦ scan_feeds (take 20 (history_rows name db.revisions))
  ]
