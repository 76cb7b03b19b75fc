-- ===== src/Examples/Directory.antt =====
-- internal/release/directory_updates.go: a feed that is saved in an empty directory, and the feeds of SQLite.
use zenmind_official_server.Base.{false, ◌≡◌, refl, Bool, true, none, some, [], ◌∷◌, ◌++◌}
use zenmind_official_server.Text.{text, text_eq}
use zenmind_official_server.Regex.{match_string}
use zenmind_official_server.Sqlite.{Conn}
use zenmind_official_server.Release.Manifest.{validate_desktop_manifest, valid_update_name}
use zenmind_official_server.Release.Feeds.{UpdateFeed, ok, err, conflict}
use zenmind_official_server.Release.Directory.Files.{Root, regular}
use zenmind_official_server.Release.Directory.Reads.{Json, list_update_feeds, get_public_json}
use zenmind_official_server.Release.Directory.Writes.{save_update_feed}
use zenmind_official_server.Release.Directory.Saves.{IsSaved, save_update_feed-IsSaved}
use zenmind_official_server.Release.Directory.Import.{marker, import_legacy}
use zenmind_official_server.Examples.Feeds.{formats, input, feed, manifest, after}

-- Encodings in which every value is the same.
abbrev json : Json
json = record {
  temporary = record { random_text = λ c. text "x"; written = λ c content. content };
  valid = λ s. true;
  sha256_hex = λ s. text "h";
  marshal_indent = λ m. some (text "{}");
  marshal_history = λ items. some (text "[]");
  unmarshal_history = λ s. some [];
}

abbrev empty : Conn Root
empty = record { tables = []; faults = [] }

abbrev saved_item : UpdateFeed
saved_item = record {
  e_tag = text "h-true-0";
  name = feed;
  description = [];
  enabled = true;
  revision = 0;
  updated_at = 9;
  updated_by = 0;
  manifest = some manifest;
}

saved : (save_update_feed formats json feed input 7 9 empty).0 ≡ ok saved_item
unfolding save_update_feed text text_eq match_string valid_update_name validate_desktop_manifest
saved = refl

-- The same input again carries an old entity tag.
stale :
    (save_update_feed formats json feed input 7 10
      (save_update_feed formats json feed input 7 9 empty).1).0
    ≡ err conflict
unfolding save_update_feed text text_eq match_string valid_update_name validate_desktop_manifest
stale = refl

published :
    (get_public_json formats json feed (save_update_feed formats json feed input 7 9 empty).1).0
    ≡ ok (text "{}" ++ 10 ∷ [])
unfolding save_update_feed get_public_json text text_eq match_string valid_update_name
    validate_desktop_manifest
published = refl

listed :
    (list_update_feeds formats json (save_update_feed formats json feed input 7 9 empty).1).0
    ≡ ok (record saved_item { manifest = none } ∷ [])
unfolding save_update_feed list_update_feeds text text_eq match_string valid_update_name
    validate_desktop_manifest
listed = refl

save_update_feed-IsSaved_example :
    (enabled : Bool) × IsSaved formats json feed input enabled 7 9 empty
      (save_update_feed formats json feed input 7 9 empty).1.tables
      (text "other.json")
save_update_feed-IsSaved_example =
    save_update_feed-IsSaved formats json feed input 7 9 empty saved_item (text "other.json") saved

imported : import_legacy formats json after 12 empty ≡ (
  ok tt,
  record {
    tables =
        (text ".admin/desktop.json", regular (text "[]") 12)
        ∷ (feed, regular (text "{}") 12)
        ∷ (marker, regular (text "true" ++ 10 ∷ []) 12)
        ∷ [];
    faults = [];
  },
)
unfolding import_legacy text text_eq match_string valid_update_name validate_desktop_manifest
    zenmind_official_server.Release.Feeds.save_update_feed
imported = refl

-- The renaming of the history and the removal of its temporary file fail.
left_over :
    (import_legacy formats json after 12 (record empty {
      faults =
          false ∷ false ∷ false ∷ false ∷ false ∷ false ∷ false ∷ false ∷ false ∷ true ∷ true ∷ [];
    })).1.tables
    ≡ (text ".admin/.write-x", regular (text "[]") 12) ∷ []
unfolding import_legacy text text_eq match_string valid_update_name validate_desktop_manifest
    zenmind_official_server.Release.Feeds.save_update_feed
left_over = refl
