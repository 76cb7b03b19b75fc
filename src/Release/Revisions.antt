-- ===== src/Release/Revisions.antt =====
-- The revisions of a feed: what a save does to the feeds, and what is public behind it.
use zenmind_official_server.Base.{
  ℕ, ◌+◌, ◌≤◌, ◌<◌, ◌≡◌, ◌≢◌, refl, Bool, true, false, not, ◌||◌, some, List, [], ◌∷◌, ◌++◌, ◌==◌,
  ltb, length, arith, inl, inr, ◌⊎◌, ◌∙◌, Bool-cases, Option-cases,
}
use zenmind_official_server.Text.{Text}
use zenmind_official_server.Text.Laws.{text_eq_refl, text_eq_iff}
use zenmind_official_server.Release.Manifest.{
  DesktopManifest, Formats, valid_update_name, validate_desktop_manifest,
  max_desktop_manifest_bytes,
}
use zenmind_official_server.Release.Feeds.{
  UpdateFeed, UpdateFeedInput, FeedRow, RevisionRow, Feeds, FeedError, Outcome, ok, err,
  current_revision, max_revision, set_revision, revision_row, or_zero, new_revision,
  decode_feed_manifest, current_row, get_public_update, save_checked, save_update_feed,
}

current_revision-set_revision :
    (name : Text) (n : ℕ) (rows : List FeedRow)
    → current_revision name (set_revision name n rows) ≡ some n
unfolding current_revision set_revision
current_revision-set_revision name n [] = ground (arith, text_eq_refl name)
current_revision-set_revision name n (r ∷ rs) =
    ground (arith, current_revision-set_revision name n rs)

-- A row with a revision above the highest one is found.
revision_row-append_new :
    (name : Text) (n : ℕ) (rows : List RevisionRow) (r : RevisionRow)
    → max_revision name rows < n
    → r.name ≡ name
    → r.revision ≡ n
    → revision_row name n (rows ++ r ∷ []) ≡ some r
unfolding revision_row max_revision
revision_row-append_new name n [] r lt e k =
    ground (arith, text_eq_refl name, text_eq_iff r.name name)
revision_row-append_new name n (s ∷ ss) r lt e k =
    ground (arith, revision_row-append_new name n ss r)

pub Outcome-cases :
    {A : Type 0} (o : Outcome A) → ((a : A) × (o ≡ ok a)) ⊎ ((e : FeedError) × (o ≡ err e))
Outcome-cases (ok a) = inl (a, refl)
Outcome-cases (err e) = inr (e, refl)

module _ (f : Formats) where
  -- What SaveUpdateFeed writes.
  abbrev pub saved : Text → UpdateFeedInput → Bool → Text → ℕ → ℕ → Feeds → Feeds
  saved name input enabled json actor now db =
      let next = max_revision name db.revisions + 1 in
      record {
        current = set_revision name next db.current;
        revisions = db.revisions ++ new_revision name input enabled next json now actor ∷ [];
      }

  checked-ok :
      (name : Text) (input : UpdateFeedInput) (enabled : Bool) (json : Text) (actor now : ℕ)
      (early late : Bool) (db : Feeds) (item : UpdateFeed)
      → (save_checked f name input enabled json actor now early late db).0 ≡ ok item
      → (or_zero (current_revision name db.current) ≡ input.revision)
        × ((save_checked f name input enabled json actor now early late db).1
            ≡ saved name input enabled json actor now db)
  unfolding save_checked
  checked-ok name input enabled json actor now early late db item h = ground arith

  -- What holds of a save that succeeds.
  abbrev pub Saved : Text → UpdateFeedInput → ℕ → ℕ → Feeds → Feeds → Type 0
  Saved name input actor now db db' =
      (enabled : Bool) × (json : Text) × (input.enabled ≡ some enabled)
      × (f.marshal input.manifest ≡ some json)
      × (valid_update_name name ≡ true)
      × (validate_desktop_manifest f input.manifest ≡ true)
      × (or_zero (current_revision name db.current) ≡ input.revision)
      × (db' ≡ saved name input enabled json actor now db)

  admitted : (a b c d : Bool) → (not a || b || c || not d) ≡ false → (a ≡ true) × (d ≡ true)
  admitted a b c d h = ground arith

  save-Saved :
      (name : Text) (input : UpdateFeedInput) (actor now : ℕ) (early late : Bool) (db : Feeds)
      (item : UpdateFeed)
      → (save_update_feed f name input actor now early late db).0 ≡ ok item
      → Saved name input actor now db (save_update_feed f name input actor now early late db).1
  unfolding save_update_feed
  save-Saved name input actor now early late db item h = elim (Option-cases input.enabled) [
    | inl e ↦ let refused = (rw e at h) in cc
    | inr (enabled, e) ↦
        elim (Bool-cases (
          not (valid_update_name name)
          || actor == 0
          || ltb 500 (f.rune_count input.description)
          || not (validate_desktop_manifest f input.manifest))) [
            | inl bad ↦ let refused = (rw (e, bad) at h) in cc
            | inr fit ↦ elim (Option-cases (f.marshal input.manifest)) [
              | inl k ↦ let refused = (rw (e, fit, k) at h) in cc
              | inr (json, k) ↦
                  let (valid, good) =
                    admitted (valid_update_name name) (actor == 0)
                      (ltb 500 (f.rune_count input.description))
                      (validate_desktop_manifest f input.manifest) fit in
                  let (base, written) =
                    checked-ok name input enabled json actor now early late db item
                      (rw (e, fit, k) at h) in
                  (enabled, json, e, k, valid, good, base, rw (e, fit, k) written)
            ]
          ]
  ]

  -- No feed is ahead of its revisions.
  abbrev pub InStep : Text → Feeds → Type 0
  InStep name db = or_zero (current_revision name db.current) ≤ max_revision name db.revisions

  -- A save behind another one must know of it: if a save of a feed succeeds, a second save that
  -- starts from the same revision fails, whatever it is to write. The feed is not ahead of its
  -- revisions.
  pub stale_save-fails :
      (name : Text) (input input' : UpdateFeedInput) (actor actor' now now' : ℕ)
      (early late early' late' : Bool) (db : Feeds) (item item' : UpdateFeed)
      → InStep name db
      → (save_update_feed f name input actor now early late db).0 ≡ ok item
      → input'.revision ≡ input.revision
      → (save_update_feed f name input' actor' now' early' late'
          (save_update_feed f name input actor now early late db).1).0
        ≢ ok item'
  stale_save-fails name input input' actor actor' now now' early late early' late' db item item'
        step h e h' =
      let (on, json, _, _, _, _, base, written) =
        save-Saved name input actor now early late db item h in
      let second =
        save-Saved name input' actor' now' early' late'
          (save_update_feed f name input actor now early late db).1 item' h' in
      let (_, _, _, _, _, _, base', _) = second in
      let moved =
        current_revision-set_revision name (max_revision name db.revisions + 1) db.current in
      let ahead : max_revision name db.revisions + 1 ≡ input'.revision =
        (rw (written, moved) at base') in
      omega (arith, step, base, e, ahead)

  validated-size :
      (m : DesktopManifest) (json : Text)
      → validate_desktop_manifest f m ≡ true
      → f.marshal m ≡ some json
      → length json ≤ max_desktop_manifest_bytes
  unfolding validate_desktop_manifest
  validated-size m json good k = ground arith

  decode_saved :
      (m : DesktopManifest) (json : Text)
      → f.marshal m ≡ some json
      → f.unmarshal json ≡ some m
      → validate_desktop_manifest f m ≡ true
      → decode_feed_manifest f json ≡ ok m
  unfolding decode_feed_manifest
  decode_saved m json k u good =
      let short = validated-size m json good k in rw (u, good) (ground arith)

  published :
      (name : Text) (input : UpdateFeedInput) (json : Text) (actor now : ℕ) (db : Feeds)
      → valid_update_name name ≡ true
      → get_public_update f name (saved name input true json actor now db)
        ≡ decode_feed_manifest f json
  unfolding get_public_update current_row
  published name input json actor now db valid =
      let next = max_revision name db.revisions + 1 in
      let row = new_revision name input true next json now actor in
      rw
        (
          valid,
          current_revision-set_revision name next db.current,
          revision_row-append_new name next db.revisions row (omega arith) refl refl,
        )
        refl

  -- A save that succeeds and enables the feed publishes its manifest: the public feed then is the
  -- manifest of the save, if json.Unmarshal reads what json.Marshal has written for it.
  pub save-publishes :
      (name : Text) (input : UpdateFeedInput) (json : Text) (actor now : ℕ) (early late : Bool)
      (db : Feeds) (item : UpdateFeed)
      → (save_update_feed f name input actor now early late db).0 ≡ ok item
      → input.enabled ≡ some true
      → f.marshal input.manifest ≡ some json
      → f.unmarshal json ≡ some input.manifest
      → get_public_update f name (save_update_feed f name input actor now early late db).1
        ≡ ok input.manifest
  save-publishes name input json actor now early late db item h on k u =
      let (enabled, json', on', k', valid, good, base, written) =
        save-Saved name input actor now early late db item h in
      let same : json' ≡ json = cc (k, k') in
      let same_flag : enabled ≡ true = cc (on, on') in
      rw written (
        rw (same, same_flag)
          (published name input json actor now db valid
            ∙ decode_saved input.manifest json k u good))

  decoded-valid :
      (json : Text) (m : DesktopManifest)
      → decode_feed_manifest f json ≡ ok m
      → validate_desktop_manifest f m ≡ true
  unfolding decode_feed_manifest
  decoded-valid json m h = elim (Option-cases (f.unmarshal json)) [
    | inl e ↦ absurd (ground arith)
    | inr (m', e) ↦ elim (Bool-cases (validate_desktop_manifest f m')) [
      | inl good ↦ elim (Bool-cases (ltb max_desktop_manifest_bytes (length json))) [
        | inl long ↦ let refused = (rw long at h) in cc
        | inr short ↦
            let whole : ok m' ≡ ok m = (rw (short, e, good) at h) in
            let same : m' ≡ m = cc in rw (← same) good
      ]
      | inr bad ↦ absurd (ground arith)
    ]
  ]

  -- The public feed serves only what it may: a manifest that is served passes the validation, and
  -- is what decodeFeedManifest reads from the row of the current revision of the feed, which is
  -- enabled and has a valid name.
  pub get_public_update_sound :
      (name : Text) (db : Feeds) (m : DesktopManifest)
      → get_public_update f name db ≡ ok m
      → (valid_update_name name ≡ true)
        × (validate_desktop_manifest f m ≡ true)
        × ((r : RevisionRow) × (current_row f name db ≡ ok r)
            × (r.enabled ≡ true)
            × (decode_feed_manifest f r.manifest ≡ ok m))
  unfolding get_public_update
  get_public_update_sound name db m h = elim (Bool-cases (valid_update_name name)) [
    | inr bad ↦ let refused = (rw bad at h) in cc
    | inl valid ↦ elim (Outcome-cases (current_row f name db)) [
      | inr (x, e) ↦ let refused = (rw (valid, e) at h) in cc
      | inl (r, e) ↦ elim (Bool-cases r.enabled) [
        | inr off ↦ let refused = (rw (valid, e, off) at h) in cc
        | inl on ↦
            let decoded : decode_feed_manifest f r.manifest ≡ ok m = (rw (valid, e, on) at h) in
            (valid, decoded-valid r.manifest m decoded, (r, e, on, decoded))
      ]
    ]
  ]
