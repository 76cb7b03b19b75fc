-- ===== src/Release/Directory/Writes.antt =====
-- internal/release/directory_updates.go: SaveUpdateFeed. The mutex makes a save one step.
use zenmind_official_server.Base.{
  ℕ, ◌+◌, Bool, false, not, ◌||◌, Option, none, some, List, [], ◌∷◌, ◌++◌, reverse, if◌then◌else◌,
  ◌==◌, ltb, length,
}
use zenmind_official_server.Text.{Text, text, text_eq}
use zenmind_official_server.Release.Manifest.{Formats, valid_update_name, validate_desktop_manifest}
use zenmind_official_server.Release.Feeds.{
  UpdateFeed, UpdateFeedInput, not_found, invalid, conflict, driver, Outcome, ok, err,
}
use zenmind_official_server.Release.Directory.Files.{
  Act, ◌>>=◌, ◌>>◌, pure, attempt, remove, atomic_write,
}
use zenmind_official_server.Release.Directory.Reads.{
  Json, history_limit, disabled_path, sidecar_path, last_revision, history, get_update_feed,
}

-- The zero UpdateFeed.
abbrev pub no_feed : UpdateFeed
no_feed = record {
  e_tag = [];
  name = [];
  description = [];
  enabled = false;
  revision = 0;
  updated_at = 0;
  updated_by = 0;
  manifest = none;
}

abbrev pub or_no_feed : Outcome UpdateFeed → Outcome UpdateFeed
or_no_feed (ok item) = ok item
or_no_feed (err not_found) = ok no_feed
or_no_feed (err invalid) = err invalid
or_no_feed (err conflict) = err conflict
or_no_feed (err driver) = err driver

abbrev pub new_item : Text → UpdateFeedInput → Bool → ℕ → ℕ → ℕ → UpdateFeed
new_item name input enabled actor now next = record {
  e_tag = [];
  name = name;
  description = input.description;
  enabled = enabled;
  revision = next;
  updated_at = now;
  updated_by = actor;
  manifest = some input.manifest;
}

module _ (f : Formats) (j : Json) where
  -- The feed that a save starts from, a zero one if there is none.
  unfoldable pub get_current : Text → Act UpdateFeed
  unfolding get_update_feed
  get_current name c = let (r, c') = get_update_feed f j name c in (or_no_feed r, c')

  unfoldable pub write_files : Text → Bool → Text → Text → ℕ → Act UpdateFeed
  unfolding atomic_write attempt remove get_update_feed text ◌>>=◌
  write_files name enabled content metadata now = do
    atomic_write j.temporary (if enabled then name else disabled_path name) content now
    attempt
    remove (if enabled then disabled_path name else name)
    atomic_write j.temporary (sidecar_path name) metadata now
    get_update_feed f j name

  -- The encoded history and the encoded manifest.
  unfoldable pub write_encoded : Text → Bool → ℕ → Option Text → Option Text → Act UpdateFeed
  unfolding write_files
  write_encoded name enabled now none content = pure (err driver)
  write_encoded name enabled now (some metadata) none = pure (err driver)
  write_encoded name enabled now (some metadata) (some content) =
      if ltb history_limit (length metadata)
      then pure (err driver)
      else write_files name enabled (content ++ 10 ∷ []) metadata now

  unfoldable pub write_feed :
      Text → UpdateFeedInput → Bool → ℕ → ℕ → List UpdateFeed → Act UpdateFeed
  unfolding write_encoded
  write_feed name input enabled actor now items =
      let item = new_item name input enabled actor now (last_revision (reverse items) + 1) in
      write_encoded name enabled now (j.marshal_history (items ++ item ∷ []))
        (j.marshal_indent input.manifest)

  -- A save on the feed that it finds.
  unfoldable pub save_on : Text → UpdateFeedInput → Bool → ℕ → ℕ → UpdateFeed → Act UpdateFeed
  unfolding text_eq history write_feed ◌>>=◌
  save_on name input enabled actor now current =
      if not (current.revision == input.revision) || not (text_eq current.e_tag input.e_tag)
      then pure (err conflict)
      else (do items ← history f j name; write_feed name input enabled actor now items)

  -- The part of SaveUpdateFeed under the lock.
  unfoldable pub save_locked : Text → UpdateFeedInput → Bool → ℕ → ℕ → Act UpdateFeed
  unfolding get_current save_on ◌>>=◌
  save_locked name input enabled actor now = do
    current ← get_current name
    save_on name input enabled actor now current

  unfoldable pub save_enabled : Text → UpdateFeedInput → ℕ → ℕ → Option Bool → Act UpdateFeed
  unfolding valid_update_name validate_desktop_manifest save_locked
  save_enabled name input actor now none = pure (err invalid)
  save_enabled name input actor now (some enabled) =
      if not (valid_update_name name)
        || actor == 0
        || ltb 500 (f.rune_count input.description)
        || not (validate_desktop_manifest f input.manifest)
      then pure (err invalid)
      else save_locked name input enabled actor now

  unfoldable pub save_update_feed : Text → UpdateFeedInput → ℕ → ℕ → Act UpdateFeed
  unfolding save_enabled
  save_update_feed name input actor now = save_enabled name input actor now input.enabled
