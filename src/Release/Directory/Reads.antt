-- ===== src/Release/Directory/Reads.antt =====
-- internal/release/directory_updates.go: the reads of the catalog.
use zenmind_official_server.Base.{
  ℕ, ◌*◌, Bool, true, false, not, ◌||◌, Option, none, some, List, [], ◌∷◌, ◌++◌, reverse,
  if◌then◌else◌, ltb, length, take, drop,
}
use zenmind_official_server.Text.{Text, text, text_eq, has_prefix}
use zenmind_official_server.Text.Parts.{is_before}
use zenmind_official_server.Text.Decimal.{format_int}
use zenmind_official_server.Release.Manifest.{
  DesktopManifest, Formats, valid_update_name, max_desktop_manifest_bytes,
}
use zenmind_official_server.Release.Feeds.{
  UpdateFeed, not_found, invalid, conflict, driver, Outcome, ok, err, decode_feed_manifest,
}
use zenmind_official_server.Release.Directory.Files.{
  Temporary, Act, Entry, regular, irregular, Root, ◌>>=◌, ◌>>◌, pure, or_driver, attempt, find,
}

-- encoding/json and crypto/sha256.
pub record Json : Type 0 where
  -- the temporary files, which the writes use
  pub temporary : Temporary
  pub valid : Text → Bool
  pub sha256_hex : Text → Text
  pub marshal_indent : DesktopManifest → Option Text
  pub marshal_history : List UpdateFeed → Option Text
  pub unmarshal_history : Text → Option (List UpdateFeed)

abbrev pub history_limit : ℕ
history_limit = 64 * 1024 * 1024

abbrev pub disabled_path : Text → Text
disabled_path name = text ".disabled/" ++ name

abbrev pub sidecar_path : Text → Text
sidecar_path name = text ".admin/" ++ name

unfoldable pub show_bool : Bool → Text
unfolding text
show_bool true = text "true"
show_bool false = text "false"

-- The last item of a history, first.
abbrev pub last_revision : List UpdateFeed → ℕ
last_revision [] = 0
last_revision (last ∷ rest) = last.revision

abbrev pub last_description : List UpdateFeed → Text
last_description [] = []
last_description (last ∷ rest) = last.description

abbrev pub last_actor : List UpdateFeed → ℕ
last_actor [] = 0
last_actor (last ∷ rest) = last.updated_by

-- The names in their order, each of them once.
unfoldable pub insert_name : Text → List Text → List Text
unfolding is_before text_eq
insert_name name [] = name ∷ []
insert_name name (n ∷ ns) =
    let rest = insert_name name ns in
    if text_eq name n then n ∷ ns else if is_before name n then name ∷ n ∷ ns else n ∷ rest

-- The name of a feed file, public or disabled, with a name that is allowed.
unfoldable pub feed_name : Text → Option Text
unfolding valid_update_name has_prefix text
feed_name path =
    let name = if has_prefix path (text ".disabled/") then drop 10 path else path in
    if valid_update_name name then some name else none

-- The names in the two directories.
unfoldable pub feed_names : Root → List Text
unfolding feed_name insert_name
feed_names [] = []
feed_names ((path, irregular) ∷ entries) = feed_names entries
feed_names ((path, regular content time) ∷ entries) =
    let rest = feed_names entries in
    elim (feed_name path) [ none ↦ rest | some name ↦ insert_name name rest ]

unfoldable pub find_names : Act (List Text)
unfolding feed_names
find_names c = (ok (feed_names c.tables), c)

module _ (f : Formats) (j : Json) where
  unfoldable pub read_entry : ℕ → Option Entry → Act (Text × ℕ)
  unfolding attempt ◌>>=◌
  read_entry limit none = pure (err not_found)
  read_entry limit (some irregular) = pure (err invalid)
  read_entry limit (some (regular content time)) = do
    attempt
    attempt
    attempt
    pure (
        if ltb limit (length content) || not (j.valid content)
        then err invalid
        else ok (content, time))

  unfoldable pub read : Text → ℕ → Act (Text × ℕ)
  unfolding attempt ◌>>=◌ find read_entry
  read path limit = do attempt; found ← find path; read_entry limit found

  unfoldable pub get_public_json : Text → Act Text
  unfolding valid_update_name read ◌>>=◌
  get_public_json name =
      if not (valid_update_name name)
      then pure (err not_found)
      else (do found ← read name max_desktop_manifest_bytes; pure (ok found.0))

  unfoldable pub get_public_update : Text → Act DesktopManifest
  unfolding get_public_json decode_feed_manifest ◌>>=◌
  get_public_update name = do content ← get_public_json name; pure (decode_feed_manifest f content)

  unfoldable pub decode_history : Outcome (Text × ℕ) → Outcome (List UpdateFeed)
  decode_history (ok (content, time)) = or_driver (j.unmarshal_history content)
  decode_history (err not_found) = ok []
  decode_history (err invalid) = err invalid
  decode_history (err conflict) = err conflict
  decode_history (err driver) = err driver

  unfoldable pub history : Text → Act (List UpdateFeed)
  unfolding read decode_history text
  history name c = let (r, c') = read (sidecar_path name) history_limit c in (decode_history r, c')

  -- The file of a feed that is not among the public ones.
  unfoldable pub or_disabled : Text → Outcome (Text × ℕ) → Act (Bool × (Text × ℕ))
  unfolding read ◌>>=◌ text
  or_disabled name (ok found) = pure (ok (true, found))
  or_disabled name (err not_found) = do
    found ← read (disabled_path name) max_desktop_manifest_bytes
    pure (ok (false, found))
  or_disabled name (err invalid) = pure (err invalid)
  or_disabled name (err conflict) = pure (err conflict)
  or_disabled name (err driver) = pure (err driver)

  unfoldable pub find_feed : Text → Act (Bool × (Text × ℕ))
  unfolding read or_disabled
  find_feed name c = let (r, c') = read name max_desktop_manifest_bytes c in or_disabled name r c'

  -- The feed of a file and a history, whose last item is the first one here.
  unfoldable pub feed_of : Text → Bool → Text → ℕ → DesktopManifest → List UpdateFeed → UpdateFeed
  unfolding format_int text show_bool
  feed_of name enabled content time manifest items = record {
    e_tag =
        j.sha256_hex content
        ++ text "-"
        ++ show_bool enabled
        ++ text "-"
        ++ format_int (last_revision items);
    name = name;
    description = last_description items;
    enabled = enabled;
    revision = last_revision items;
    updated_at = time;
    updated_by = last_actor items;
    manifest = some manifest;
  }

  unfoldable pub get_update_feed : Text → Act UpdateFeed
  unfolding valid_update_name find_feed decode_feed_manifest history feed_of ◌>>=◌
  get_update_feed name = if not (valid_update_name name) then pure (err not_found) else (do
    found ← find_feed name
    manifest ← pure (decode_feed_manifest f found.1.0)
    items ← history name
    pure (ok (feed_of name found.0 found.1.0 found.1.1 manifest (reverse items))))

  unfoldable pub update_feed_history : Text → Act (List UpdateFeed)
  unfolding valid_update_name history ◌>>=◌
  update_feed_history name =
      if not (valid_update_name name)
      then pure (err not_found)
      else (do items ← history name; pure (ok (take 20 (reverse items))))

  -- A feed of the list, in front of the others; a name without a feed is left out.
  unfoldable pub list_feed : Outcome UpdateFeed → Act (List UpdateFeed) → Act (List UpdateFeed)
  unfolding ◌>>=◌
  list_feed (ok item) rest = do items ← rest; pure (ok (record item { manifest = none } ∷ items))
  list_feed (err not_found) rest = rest
  list_feed (err invalid) rest = pure (err invalid)
  list_feed (err conflict) rest = pure (err conflict)
  list_feed (err driver) rest = pure (err driver)

  -- The code takes the names in the order of a map and sorts the items behind that; of two errors it
  -- may return the other one.
  unfoldable pub get_feeds : List Text → Act (List UpdateFeed)
  unfolding get_update_feed list_feed
  get_feeds [] c = (ok [], c)
  get_feeds (name ∷ names) c =
      let rest = get_feeds names in let (r, c') = get_update_feed name c in list_feed r rest c'

  unfoldable pub list_update_feeds : Act (List UpdateFeed)
  unfolding attempt find_names get_feeds ◌>>=◌
  list_update_feeds = do attempt; attempt; attempt; attempt; names ← find_names; get_feeds names
