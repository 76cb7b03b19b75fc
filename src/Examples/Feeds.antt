-- ===== src/Examples/Feeds.antt =====
-- internal/release: a feed that is saved, and the feed of the older version.
use zenmind_official_server.Base.{
  ◌≡◌, ◌≢◌, ◌⊎◌, refl, true, false, none, some, [], ◌∷◌, arith, length,
}
use zenmind_official_server.Text.{Text, text, text_eq}
use zenmind_official_server.Release.Manifest.{
  DesktopManifest, Formats, valid_update_name, validate_desktop_manifest,
}
use zenmind_official_server.Release.Feeds.{
  UpdateFeed, UpdateFeedInput, RevisionRow, Feeds, ok, save_update_feed, get_public_update,
  decode_feed_manifest, revision_row, current_row, current_revision, max_revision,
}
use zenmind_official_server.Sqlite.{Conn, transaction}
use zenmind_official_server.Release.Migration.{
  UpdateTables, latest, imported_row, ensure_desktop_update_schema, migrate, import_tables, update,
  add_revisions, import_revisions, add_current, import_current_feed,
}
use zenmind_official_server.Release.Migration.Rows.{release_of}
use zenmind_official_server.Release.Migration.Laws.{ensure_desktop_update_schema_once}
use zenmind_official_server.Release.Revisions.{
  stale_save-fails, save-publishes, get_public_update_sound,
}

abbrev pub manifest : DesktopManifest
manifest = record {
  schema_version = 1;
  product_id = text "zenmind";
  version = text "1.2.3";
  published_at = text "now";
  release_notes = some [];
  artifacts =
      (
        text "darwin-x64",
        record {
          url = text "https://a/b.zip";
          size = 10;
          sha256 = text "0123456789abcdef0123456789abcdef0123456789abcdef0123456789abcdef";
        },
      )
      ∷ [];
}

-- A format in which every manifest is the same.
abbrev pub formats : Formats
formats = record {
  is_time = λ s. true;
  utf16_length = length;
  rune_count = length;
  parse_url = λ s. some (record {
    scheme = text "https";
    hostname = text "a";
    has_user = false;
    fragment = [];
    escaped_path = text "/b.zip";
  });
  marshal = λ m. some (text "{}");
  unmarshal = λ s. some manifest;
}

abbrev pub input : UpdateFeedInput
input = record {
  e_tag = [];
  description = [];
  enabled = some true;
  revision = 0;
  manifest = manifest;
}

abbrev pub no_feeds : Feeds
no_feeds = record { current = []; revisions = [] }

abbrev pub feed : Text
feed = text "desktop.json"

abbrev pub item : UpdateFeed
item = record {
  e_tag = [];
  name = feed;
  description = [];
  enabled = true;
  revision = 1;
  updated_at = 10;
  updated_by = 7;
  manifest = some manifest;
}

abbrev pub after : Feeds
after = (save_update_feed formats feed input 7 10 false false no_feeds).1

first_save : (save_update_feed formats feed input 7 10 false false no_feeds).0 ≡ ok item
unfolding save_update_feed text text_eq
first_save = refl

stale_save-fails_example : (save_update_feed formats feed input 8 11 false false after).0 ≢ ok item
unfolding current_revision max_revision
stale_save-fails_example =
    stale_save-fails formats feed input input 7 8 10 11 false false false false no_feeds item item
      (omega arith) first_save refl

save-publishes_example : get_public_update formats feed after ≡ ok manifest
save-publishes_example =
    save-publishes formats feed input (text "{}") 7 10 false false no_feeds item first_save refl
      refl refl

get_public_update_sound_example :
    (valid_update_name feed ≡ true)
    × (validate_desktop_manifest formats manifest ≡ true)
    × ((r : RevisionRow) × (current_row formats feed after ≡ ok r)
        × (r.enabled ≡ true)
        × (decode_feed_manifest formats r.manifest ≡ ok manifest))
get_public_update_sound_example =
    get_public_update_sound formats feed after manifest save-publishes_example

-- The older version has two releases, of which the second is current.
abbrev older : Conn UpdateTables
older = record {
  tables = record {
    feeds = no_feeds;
    migrated = false;
    legacy = some (record {
      releases =
          record { id = 1; manifest = []; created_at = 3 }
          ∷ record { id = 2; manifest = text "{}"; created_at = 4 }
          ∷ [];
      current = some 2;
    });
  };
  faults = [];
}

migrated : (ensure_desktop_update_schema older).0 ≡ some tt
unfolding ensure_desktop_update_schema transaction migrate import_tables update add_revisions
    import_revisions revision_row latest add_current import_current_feed current_revision
migrated = refl

-- The release of the second id stands twice among the revisions.
refused :
    (ensure_desktop_update_schema (record older {
      tables = record older.tables {
        feeds = record no_feeds {
          revisions = imported_row (record { id = 2; manifest = []; created_at = 1 }) ∷ [];
        };
      };
    })).0
    ≡ none
unfolding ensure_desktop_update_schema transaction migrate import_tables update add_revisions
    import_revisions revision_row latest add_current import_current_feed current_revision
refused = refl

ensure_desktop_update_schema_once_example :
    (((ensure_desktop_update_schema older).0 ≡ none)
      × ((ensure_desktop_update_schema older).1.tables ≡ older.tables))
    ⊎ ((get_public_update formats latest (ensure_desktop_update_schema older).1.tables.feeds
          ≡ decode_feed_manifest formats (text "{}"))
        × ((ensure_desktop_update_schema (record {
          tables = record (ensure_desktop_update_schema older).1.tables { feeds = after };
          faults = [];
        })).1.tables
            ≡ record (ensure_desktop_update_schema older).1.tables { feeds = after }))
unfolding release_of
ensure_desktop_update_schema_once_example =
    ensure_desktop_update_schema_once formats older
      (record {
        releases =
            record { id = 1; manifest = []; created_at = 3 }
            ∷ record { id = 2; manifest = text "{}"; created_at = 4 }
            ∷ [];
        current = some 2;
      })
      2 (record { id = 2; manifest = text "{}"; created_at = 4 }) after [] refl refl refl refl
