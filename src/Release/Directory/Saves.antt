-- ===== src/Release/Directory/Saves.antt =====
-- internal/release/directory_updates.go: what a save leaves in the directory.
use mathlib.Core.Path.{subst⁻¹}
use zenmind_official_server.Base.{
  ℕ, ◌+◌, ◌≡◌, refl, sym, ap, ◌∙◌, ◌⊎◌, inl, inr, Bool, not, ◌||◌, Option, none, some, List, [],
  ◌∷◌, ◌++◌, reverse, if◌then◌else◌, ltb, ◌==◌, length, arith, Bool-cases,
}
use zenmind_official_server.Text.{Text, text_eq}
use zenmind_official_server.Text.Laws.{text_eq_iff}
use zenmind_official_server.Dict.{lookup}
use zenmind_official_server.Sqlite.{Conn}
use zenmind_official_server.Release.Manifest.{Formats, valid_update_name, validate_desktop_manifest}
use zenmind_official_server.Release.Feeds.{UpdateFeed, UpdateFeedInput, ok}
use zenmind_official_server.Release.Directory.Files.{regular, Root}
use zenmind_official_server.Release.Directory.Effects.{
  Does, bind-ok, bind-Does, Keeps-Does, attempt-Keeps, atomic_write-Does, remove-Does,
  history-Keeps, get_update_feed-Keeps, get_current-Keeps,
}
use zenmind_official_server.Release.Directory.Reads.{
  Json, history_limit, sidecar_path, last_revision, history,
}
use zenmind_official_server.Release.Directory.Writes.{
  new_item, get_current, write_files, write_encoded, write_feed, save_on, save_locked, save_enabled,
  save_update_feed,
}
use zenmind_official_server.Release.Directory.Paths.{
  written, feed_path, other_path, IsPath, lookup-written, lookup-sidecar, elsewhere,
}

module _ (f : Formats) (j : Json) where
  write_files-Does :
      (name : Text) (enabled : Bool) (content metadata : Text) (now : ℕ)
      → Does
          (write_files f j name enabled content metadata now)
          (written name enabled content metadata now)
  unfolding write_files
  write_files-Does name enabled content metadata now =
      bind-Does (atomic_write-Does j.temporary (feed_path name enabled) content now) λ _.
        bind-Does (Keeps-Does attempt-Keeps) λ _.
          bind-Does (remove-Does (other_path name enabled)) λ _.
            bind-Does (atomic_write-Does j.temporary (sidecar_path name) metadata now)
              λ _. Keeps-Does (get_update_feed-Keeps f j name)

  -- What is written for the input and the history before it.
  abbrev pub IsWritten :
      Text → UpdateFeedInput → Bool → ℕ → ℕ → List UpdateFeed → Text → Text → Type 0
  IsWritten name input enabled actor now items content metadata =
      (j.marshal_history
          (items ++ new_item name input enabled actor now (last_revision (reverse items) + 1) ∷ [])
        ≡ some metadata)
      × (j.marshal_indent input.manifest ≡ some content)

  write_encoded-ok :
      (name : Text) (enabled : Bool) (now : ℕ) (m n : Option Text) (c : Conn Root)
      (item : UpdateFeed)
      → (write_encoded f j name enabled now m n c).0 ≡ ok item
      → (content : Text) × (metadata : Text) × (m ≡ some metadata)
        × (n ≡ some content)
        × ((write_encoded f j name enabled now m n c).1.tables
            ≡ written name enabled (content ++ 10 ∷ []) metadata now c.tables)
  unfolding write_encoded
  write_encoded-ok name enabled now none n c item h = cc
  write_encoded-ok name enabled now (some metadata) none c item h = cc
  write_encoded-ok name enabled now (some metadata) (some content) c item h =
      elim (Bool-cases (ltb history_limit (length metadata))) [
        | inl large ↦ let failed = (rw large at h) in cc
        | inr fits ↦ (
          content,
          metadata,
          refl,
          refl,
          rw fits (
              (write_files-Does name enabled (content ++ 10 ∷ []) metadata now).does c item
                (rw fits at h)),
        )
      ]

  -- What a save on a feed that it finds has written.
  abbrev pub IsSavedOn :
      Text → UpdateFeedInput → Bool → ℕ → ℕ → UpdateFeed → Conn Root → Root → Type 0
  IsSavedOn name input enabled actor now current c after =
      (current.revision ≡ input.revision)
      × (current.e_tag ≡ input.e_tag)
      × ((items : List UpdateFeed) × (content : Text) × (metadata : Text) × ((history f j name c).0
            ≡ ok items)
          × IsWritten name input enabled actor now items content metadata
          × (after ≡ written name enabled (content ++ 10 ∷ []) metadata now c.tables))

  save_on-IsSavedOn :
      (name : Text) (input : UpdateFeedInput) (enabled : Bool) (actor now : ℕ)
      (current : UpdateFeed) (c : Conn Root) (item : UpdateFeed)
      → (save_on f j name input enabled actor now current c).0 ≡ ok item
      → IsSavedOn name input enabled actor now current c
          (save_on f j name input enabled actor now current c).1.tables
  unfolding save_on write_feed
  save_on-IsSavedOn name input enabled actor now current c item h =
      elim (Bool-cases
        (not (current.revision == input.revision) || not (text_eq current.e_tag input.e_tag))) [
          | inl stale ↦ let failed = (rw stale at h) in cc
          | inr fresh ↦
              let (items, read, same) = bind-ok (history f j name) _ c item (rw fresh at h) in
              let (content, metadata, m, e, after) =
                write_encoded-ok name enabled now _ _ (history f j name c).1 item
                  (ap (λ x. x.0) (sym same) ∙ (rw fresh at h)) in
              (
                ground arith,
                ground (arith, text_eq_iff current.e_tag input.e_tag),
                (
                  items,
                  content,
                  metadata,
                  read,
                  (m, e),
                  rw fresh (
                      ap (λ x. x.1.tables) same
                      ∙ after
                      ∙ ap (written name enabled (content ++ 10 ∷ []) metadata now)
                          ((history-Keeps f j name).at c)),
                ),
              )
        ]

  save_locked-IsSavedOn :
      (name : Text) (input : UpdateFeedInput) (enabled : Bool) (actor now : ℕ) (c : Conn Root)
      (item : UpdateFeed)
      → (save_locked f j name input enabled actor now c).0 ≡ ok item
      → (current : UpdateFeed) × ((get_current f j name c).0 ≡ ok current)
        × IsSavedOn name input enabled actor now current
            (get_current f j name c).1
            (save_locked f j name input enabled actor now c).1.tables
  unfolding save_locked
  save_locked-IsSavedOn name input enabled actor now c item h =
      let (current, got, same) = bind-ok (get_current f j name) _ c item h in
      (
        current,
        got,
        subst⁻¹ (IsSavedOn name input enabled actor now current (get_current f j name c).1)
            (ap (λ x. x.1.tables) same)
            (save_on-IsSavedOn name input enabled actor now current (get_current f j name c).1 item
              (ap (λ x. x.0) (sym same) ∙ h)),
      )

  -- What SaveUpdateFeed finds and leaves: the file of the name, the history and the other paths.
  abbrev pub IsSaved : Text → UpdateFeedInput → Bool → ℕ → ℕ → Conn Root → Root → Text → Type 0
  IsSaved name input enabled actor now c after path =
      (input.enabled ≡ some enabled)
      × ((current : UpdateFeed) × ((get_current f j name c).0 ≡ ok current)
          × (current.revision ≡ input.revision)
          × (current.e_tag ≡ input.e_tag))
      × ((items : List UpdateFeed) × (content : Text) × (metadata : Text) × ((history f j name
              (get_current f j name c).1).0
            ≡ ok items)
          × IsWritten name input enabled actor now items content metadata
          × (lookup name after
              ≡ (if enabled then some (regular (content ++ 10 ∷ []) now) else none))
          × (lookup (sidecar_path name) after ≡ some (regular metadata now)))
      × (IsPath name path ⊎ (lookup path after ≡ lookup path c.tables))

  locked-IsSaved :
      (name : Text) (input : UpdateFeedInput) (enabled : Bool) (actor now : ℕ) (c : Conn Root)
      (item : UpdateFeed) (path : Text)
      → input.enabled ≡ some enabled
      → (save_locked f j name input enabled actor now c).0 ≡ ok item
      → IsSaved name input enabled actor now c
          (save_locked f j name input enabled actor now c).1.tables
          path
  locked-IsSaved name input enabled actor now c item path on h =
      let (current, got, (revision, tag, (items, content, metadata, read, encoded, after))) =
        save_locked-IsSavedOn name input enabled actor now c item h in
      let before = (get_current-Keeps f j name).at c in
      let text = content ++ 10 ∷ [] in
      (
        on,
        (current, got, revision, tag),
        (
          items,
          content,
          metadata,
          read,
          encoded,
          ap (lookup name) after ∙ lookup-written name enabled text metadata now _,
          ap (lookup (sidecar_path name)) after ∙ lookup-sidecar name enabled text metadata now _,
        ),
        elim (elsewhere name enabled text metadata now (get_current f j name c).1.tables path) [
          | inl one ↦ inl one
          | inr same ↦ inr (ap (lookup path) after ∙ same ∙ ap (lookup path) before)
        ],
      )

  enabled-IsSaved :
      (name : Text) (input : UpdateFeedInput) (actor now : ℕ) (e : Option Bool) (c : Conn Root)
      (item : UpdateFeed) (path : Text)
      → input.enabled ≡ e
      → (save_enabled f j name input actor now e c).0 ≡ ok item
      → (enabled : Bool) × IsSaved name input enabled actor now c
          (save_enabled f j name input actor now e c).1.tables
          path
  unfolding save_enabled
  enabled-IsSaved name input actor now none c item path on h = cc
  enabled-IsSaved name input actor now (some enabled) c item path on h =
      elim (Bool-cases (
        not (valid_update_name name)
        || actor == 0
        || ltb 500 (f.rune_count input.description)
        || not (validate_desktop_manifest f input.manifest))) [
          | inl bad ↦ let failed = (rw bad at h) in cc
          | inr fit ↦ (
            enabled,
            rw fit (locked-IsSaved name input enabled actor now c item path on (rw fit at h)),
          )
        ]

  -- A save of a feed in the directory that succeeds was made on the feed as it stood, with its
  -- revision and its entity tag; afterwards the file of the name holds the indented manifest if the
  -- feed is enabled and is gone if it is not, the sidecar holds the history with the new item behind
  -- the items that it had, and every other path but that of the disabled feed is as before.
  pub save_update_feed-IsSaved :
      (name : Text) (input : UpdateFeedInput) (actor now : ℕ) (c : Conn Root) (item : UpdateFeed)
      (path : Text)
      → (save_update_feed f j name input actor now c).0 ≡ ok item
      → (enabled : Bool) × IsSaved name input enabled actor now c
          (save_update_feed f j name input actor now c).1.tables
          path
  unfolding save_update_feed
  save_update_feed-IsSaved name input actor now c item path h =
      enabled-IsSaved name input actor now input.enabled c item path refl h
