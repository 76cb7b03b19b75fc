-- ===== src/Release/Feeds.antt =====
-- internal/release/update_feeds.go: the feeds and their revisions, in SQLite.
use zenmind_official_server.Base.{
  ℕ, ◌+◌, Bool, not, ◌&&◌, ◌||◌, Option, none, some, List, [], ◌∷◌, ◌++◌, if◌then◌else◌, ltb, ◌==◌,
  length,
}
use zenmind_official_server.Text.{Text, text_eq}
use zenmind_official_server.Release.Manifest.{
  DesktopManifest, Formats, valid_update_name, validate_desktop_manifest,
  max_desktop_manifest_bytes,
}

pub record UpdateFeed : Type 0 where
  -- "" in SQLite
  pub e_tag : Text
  pub name : Text
  pub description : Text
  pub enabled : Bool
  pub revision : ℕ
  pub updated_at : ℕ
  pub updated_by : ℕ
  pub manifest : Option DesktopManifest

pub record UpdateFeedInput : Type 0 where
  pub e_tag : Text
  pub description : Text
  -- `none` is a nil pointer
  pub enabled : Option Bool
  pub revision : ℕ
  pub manifest : DesktopManifest

-- update_feed
pub record FeedRow : Type 0 where
  pub name : Text
  pub revision : ℕ

-- update_feed_revision
pub record RevisionRow : Type 0 where
  pub name : Text
  pub revision : ℕ
  pub description : Text
  pub enabled : Bool
  pub manifest : Text
  pub updated_at : ℕ
  pub updated_by : ℕ

pub record Feeds : Type 0 where
  pub current : List FeedRow
  pub revisions : List RevisionRow

pub data FeedError : Type 0 where
  -- ErrDesktopUpdateNotFound, ErrInvalidDesktopUpdate, ErrUpdateConflict, and the driver's
  not_found : FeedError
  invalid : FeedError
  conflict : FeedError
  driver : FeedError

pub data Outcome (A : Type 0) : Type 0 where
  ok : A → Outcome A
  err : FeedError → Outcome A

-- SELECT REVISION_ FROM update_feed WHERE NAME_ = ?
unfoldable pub current_revision : Text → List FeedRow → Option ℕ
unfolding text_eq
current_revision name [] = none
current_revision name (r ∷ rs) =
    if text_eq r.name name then some r.revision else current_revision name rs

-- SELECT COALESCE(MAX(REVISION_), 0) FROM update_feed_revision WHERE NAME_ = ?
unfoldable pub max_revision : Text → List RevisionRow → ℕ
unfolding text_eq
max_revision name [] = 0
max_revision name (r ∷ rs) =
    let rest = max_revision name rs in
    if text_eq r.name name && ltb rest r.revision then r.revision else rest

-- INSERT INTO update_feed ... ON CONFLICT(NAME_) DO UPDATE SET REVISION_ = excluded.REVISION_
unfoldable pub set_revision : Text → ℕ → List FeedRow → List FeedRow
unfolding text_eq
set_revision name revision [] = record { name = name; revision = revision } ∷ []
set_revision name revision (r ∷ rs) =
    if text_eq r.name name
    then record r { revision = revision } ∷ rs
    else r ∷ set_revision name revision rs

-- The row of a name and a revision.
unfoldable pub revision_row : Text → ℕ → List RevisionRow → Option RevisionRow
unfolding text_eq
revision_row name revision [] = none
revision_row name revision (r ∷ rs) =
    if text_eq r.name name && r.revision == revision then some r else revision_row name revision rs

abbrev pub or_zero : Option ℕ → ℕ
or_zero none = 0
or_zero (some n) = n

abbrev pub new_revision : Text → UpdateFeedInput → Bool → ℕ → Text → ℕ → ℕ → RevisionRow
new_revision name input enabled revision json now actor = record {
  name = name;
  revision = revision;
  description = input.description;
  enabled = enabled;
  manifest = json;
  updated_at = now;
  updated_by = actor;
}

module _ (f : Formats) where
  unfoldable pub decode_feed_manifest : Text → Outcome DesktopManifest
  unfolding validate_desktop_manifest
  decode_feed_manifest json =
      if ltb max_desktop_manifest_bytes (length json)
      then err invalid
      else elim (f.unmarshal json) [
        | none ↦ err invalid
        | some m ↦ if validate_desktop_manifest f m then ok m else err invalid
      ]

  -- scanFeed with the manifest
  unfoldable pub scan_feed : RevisionRow → Outcome UpdateFeed
  unfolding decode_feed_manifest
  scan_feed r = elim (decode_feed_manifest r.manifest) [
    | err e ↦ err e
    | ok m ↦ ok (record {
      e_tag = [];
      name = r.name;
      description = r.description;
      enabled = r.enabled;
      revision = r.revision;
      updated_at = r.updated_at;
      updated_by = r.updated_by;
      manifest = some m;
    })
  ]

  -- The current revision of a feed: the feed joined with the revision that it names. A feed whose
  -- revision is missing gives NULLs, which Scan refuses.
  unfoldable pub current_row : Text → Feeds → Outcome RevisionRow
  unfolding current_revision revision_row
  current_row name db = elim (current_revision name db.current) [
    | none ↦ err not_found
    | some revision ↦ elim (revision_row name revision db.revisions) [
      | none ↦ err driver
      | some r ↦ ok r
    ]
  ]

  -- The reads, where no call of the driver fails.
  unfoldable pub get_update_feed : Text → Feeds → Outcome UpdateFeed
  unfolding valid_update_name current_row scan_feed
  get_update_feed name db =
      if not (valid_update_name name)
      then err not_found
      else elim (current_row name db) [ err e ↦ err e | ok r ↦ scan_feed r ]

  unfoldable pub get_public_update : Text → Feeds → Outcome DesktopManifest
  unfolding valid_update_name current_row decode_feed_manifest
  get_public_update name db =
      if not (valid_update_name name) then err not_found else elim (current_row name db) [
        | err e ↦ err e
        | ok r ↦ if not r.enabled then err not_found else decode_feed_manifest r.manifest
      ]

  -- The transaction of SaveUpdateFeed: the driver may fail in it before the revisions are compared,
  -- or behind that.
  unfoldable pub save_checked :
      Text
      → UpdateFeedInput
      → Bool
      → Text
      → ℕ
      → ℕ
      → Bool
      → Bool
      → Feeds
      → Outcome UpdateFeed × Feeds
  unfolding current_revision max_revision set_revision
  save_checked name input enabled json actor now early late db =
      let next = max_revision name db.revisions + 1 in
      if early
      then (err driver, db)
      else if not (or_zero (current_revision name db.current) == input.revision)
      then (err conflict, db)
      else if late
      then (err driver, db)
      else (
        ok (record {
          e_tag = [];
          name = name;
          description = input.description;
          enabled = enabled;
          revision = next;
          updated_at = now;
          updated_by = actor;
          manifest = some input.manifest;
        }),
        record {
          current = set_revision name next db.current;
          revisions = db.revisions ++ new_revision name input enabled next json now actor ∷ [];
        },
      )

  unfoldable pub save_update_feed :
      Text → UpdateFeedInput → ℕ → ℕ → Bool → Bool → Feeds → Outcome UpdateFeed × Feeds
  unfolding valid_update_name validate_desktop_manifest save_checked
  save_update_feed name input actor now early late db = elim input.enabled [
    | none ↦ (err invalid, db)
    | some enabled ↦
        if not (valid_update_name name)
          || actor == 0
          || ltb 500 (f.rune_count input.description)
          || not (validate_desktop_manifest f input.manifest)
        then (err invalid, db)
        else elim (f.marshal input.manifest) [
          | none ↦ (err driver, db)
          | some json ↦ save_checked name input enabled json actor now early late db
        ]
  ]
