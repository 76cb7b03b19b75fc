-- ===== src/Release/Migration/Laws.antt =====
-- What the import of the older tables leaves.
use mathlib.Core.Path.{subst}
use zenmind_official_server.Base.{
  ℕ, ◌≡◌, refl, sym, ap, ◌∙◌, Bool, true, false, Option, none, some, List, ◌⊎◌, inl, inr,
  if◌then◌else◌, Option-cases,
}
use zenmind_official_server.Text.{text}
use zenmind_official_server.Regex.{match_string}
use zenmind_official_server.Sqlite.{Conn}
use zenmind_official_server.Sqlite.Laws.{Ends, done-Ends, then-Ends, attempt-Ends, transaction-Ends}
use zenmind_official_server.Release.Manifest.{Formats, valid_update_name}
use zenmind_official_server.Release.Feeds.{
  Feeds, current_revision, revision_row, current_row, get_public_update, decode_feed_manifest,
}
use zenmind_official_server.Release.Migration.Rows.{
  release_of, import_revisions-row, import_current_feed-row,
}
use zenmind_official_server.Release.Migration.{
  LegacyRelease, Legacy, UpdateTables, latest, imported_row, import_revisions, import_current_feed,
  import_tables, migrate, update, refused_or, add_revisions, add_current, mark,
  ensure_desktop_update_schema,
}

-- What the import of the older tables makes of the feeds.
abbrev Imports : Option Legacy → Feeds → Feeds → Type 0
Imports none a b = Unit
Imports (some l) a b =
    (import_revisions l.releases a.revisions ≡ some b.revisions)
    × (import_current_feed l.current a.current ≡ some b.current)

abbrev IsMigrated : Option Legacy → Feeds → UpdateTables → Type 0
IsMigrated l a t = (t.migrated ≡ true) × Imports l a t.feeds

refused_or-ends :
    (r : Option UpdateTables) (c : Conn UpdateTables) (P : UpdateTables → Type 0) (u : Unit {0})
    → ((t : UpdateTables) → r ≡ some t → P t)
    → (refused_or r c).0 ≡ some u
    → P (refused_or r c).1.tables
refused_or-ends none c P u g h = cc
refused_or-ends (some t) c P u g h = g t refl

update-Ends :
    (f : UpdateTables → Option UpdateTables) (c : Conn UpdateTables) (P : UpdateTables → Type 0)
    → ((t : UpdateTables) → f c.tables ≡ some t → P t)
    → Ends (update f) c P
unfolding update
update-Ends f c P g = record { ends = λ u h. refused_or-ends (f c.tables) c P u g h }

add_revisions_lem :
    (l : Legacy) (a b : UpdateTables)
    → add_revisions l a ≡ some b
    → (import_revisions l.releases a.feeds.revisions ≡ some b.feeds.revisions)
      × (b.feeds.current ≡ a.feeds.current)
unfolding add_revisions
add_revisions_lem l a b h = elim (Option-cases (import_revisions l.releases a.feeds.revisions)) [
  | inl e ↦ let refused = (rw (add_revisions, e) at h) in cc
  | inr (rows, e) ↦
      let is : some (record a { feeds = record a.feeds { revisions = rows } }) ≡ some b =
        (rw (add_revisions, e) at h) in
      let same : record a { feeds = record a.feeds { revisions = rows } } ≡ b = cc in
      (e ∙ ap (λ t. some t.feeds.revisions) same, ap (λ t. t.feeds.current) (sym same))
]

add_current_lem :
    (l : Legacy) (a b : UpdateTables)
    → add_current l a ≡ some b
    → (import_current_feed l.current a.feeds.current ≡ some b.feeds.current)
      × (b.feeds.revisions ≡ a.feeds.revisions)
unfolding add_current
add_current_lem l a b h = elim (Option-cases (import_current_feed l.current a.feeds.current)) [
  | inl e ↦ let refused = (rw (add_current, e) at h) in cc
  | inr (rows, e) ↦
      let is : some (record a { feeds = record a.feeds { current = rows } }) ≡ some b =
        (rw (add_current, e) at h) in
      let same : record a { feeds = record a.feeds { current = rows } } ≡ b = cc in
      (e ∙ ap (λ t. some t.feeds.current) same, ap (λ t. t.feeds.revisions) (sym same))
]

import_tables-Ends :
    (l : Option Legacy) (c : Conn UpdateTables)
    → Ends (import_tables l) c (λ t. Imports l c.tables.feeds t.feeds)
unfolding import_tables
import_tables-Ends none c = done-Ends tt c tt
import_tables-Ends (some l) c = attempt-Ends c λ u d e.
    then-Ends {Q = λ t. add_revisions l d.tables ≡ some t} (update-Ends _ d _ λ t h. h) λ u d' h.
      attempt-Ends d' λ u d'' e'. update-Ends (add_current l) d'' _ λ t h'.
        let (rows, kept) = add_revisions_lem l d.tables d'.tables h in
        let (feeds, kept') = add_current_lem l d''.tables t h' in
        (
          ap (λ s. import_revisions l.releases s.feeds.revisions) (sym e)
              ∙ rows
              ∙ ap some (sym (kept' ∙ ap (λ s. s.feeds.revisions) e')),
          ap (import_current_feed l.current)
                (sym (ap (λ s. s.feeds.current) e' ∙ kept ∙ ap (λ s. s.feeds.current) e))
              ∙ feeds,
        )

migrate-Ends :
    (b : Bool) (c : Conn UpdateTables)
    → c.tables.migrated ≡ b
    → Ends
        (migrate b)
        c
        (λ t. if b then t ≡ c.tables else IsMigrated c.tables.legacy c.tables.feeds t)
unfolding migrate
migrate-Ends true c h = done-Ends tt c refl
migrate-Ends false c h = attempt-Ends c λ u d e.
    then-Ends {Q = λ t. Imports d.tables.legacy d.tables.feeds t.feeds}
      (record { ends = (import_tables-Ends d.tables.legacy d).ends })
      λ u d' done. attempt-Ends d' λ u d'' e'. update-Ends mark d'' _ λ t h'.
        let same : record d''.tables { migrated = true } ≡ t = cc in
        (
          ap (λ s. s.migrated) (sym same),
          subst (λ s. Imports s.legacy s.feeds t.feeds) e
              (subst (λ s. Imports d.tables.legacy d.tables.feeds s)
                (ap (λ s. s.feeds) (sym e') ∙ ap (λ s. s.feeds) same) done),
        )

-- What the schema leaves where it succeeds.
abbrev Left : Bool → Option Legacy → UpdateTables → UpdateTables → Type 0
Left migrated l a t = if migrated then t ≡ a else IsMigrated l a.feeds t

abbrev Leaves : UpdateTables → UpdateTables → Type 0
Leaves a t = Left a.migrated a.legacy a t

ensure-cases :
    (c : Conn UpdateTables)
    → (((ensure_desktop_update_schema c).0 ≡ none)
        × ((ensure_desktop_update_schema c).1.tables ≡ c.tables))
      ⊎ Leaves c.tables (ensure_desktop_update_schema c).1.tables
unfolding ensure_desktop_update_schema
ensure-cases c = transaction-Ends c (Leaves c.tables) λ d same. attempt-Ends d λ u d e.
    attempt-Ends d λ u d1 e1. attempt-Ends d1 λ u d2 e2. attempt-Ends d2 λ u d3 e3.
      let all : d3.tables ≡ c.tables = e3 ∙ e2 ∙ e1 ∙ e ∙ same in
      subst (λ s. Ends (λ x. migrate x.tables.migrated x) d3 (Leaves s)) all
        (record { ends = (migrate-Ends d3.tables.migrated d3 refl).ends })

Left-migrated : (a t : UpdateTables) → a.migrated ≡ true → Leaves a t → t ≡ a
Left-migrated a t h left = subst (λ m. Left m a.legacy a t) h left

Left-new :
    (l : Legacy) (a t : UpdateTables)
    → a.migrated ≡ false
    → a.legacy ≡ some l
    → Leaves a t
    → IsMigrated (some l) a.feeds t
Left-new l a t new old left =
    subst (λ m. Left m (some l) a t) new (subst (λ o. Left a.migrated o a t) old left)

latest-valid : valid_update_name latest ≡ true
unfolding latest text valid_update_name match_string
latest-valid = refl

module _ (f : Formats) where
  row_public :
      (id : ℕ) (r : LegacyRelease) (db : Feeds)
      → current_revision latest db.current ≡ some id
      → revision_row latest id db.revisions ≡ some (imported_row r)
      → get_public_update f latest db ≡ decode_feed_manifest f r.manifest
  unfolding get_public_update current_row
  row_public id r db e k = rw (latest-valid, e, k) refl

  migrated_public :
      (l : Legacy) (id : ℕ) (r : LegacyRelease) (a b : Feeds)
      → Imports (some l) a b
      → l.current ≡ some id
      → release_of id l.releases ≡ some r
      → get_public_update f latest b ≡ decode_feed_manifest f r.manifest
  migrated_public l id r a b (rows, feeds) now_id e =
      row_public id r b (import_current_feed-row id a.current b.current (rw now_id at feeds))
        (import_revisions-row l.releases a.revisions b.revisions id r rows e)

  again-same :
      (t : UpdateTables) (faults : List Bool)
      → t.migrated ≡ true
      → (ensure_desktop_update_schema (record { tables = t; faults = faults })).1.tables ≡ t
  again-same t faults h = elim (ensure-cases (record { tables = t; faults = faults })) [
    | inl (failed, same) ↦ same
    | inr left ↦ Left-migrated t _ h left
  ]

  -- The feed of the older version is imported once: on a database that is not migrated,
  -- ensureDesktopUpdateSchema fails and changes no table, or the public feed desktop-latest.json is
  -- the release that was current, and a later call, with whatever failures of the driver and
  -- whatever has become of the feeds by then, changes nothing.
  pub ensure_desktop_update_schema_once :
      (c : Conn UpdateTables) (l : Legacy) (id : ℕ) (r : LegacyRelease) (feeds : Feeds)
      (faults : List Bool)
      → c.tables.migrated ≡ false
      → c.tables.legacy ≡ some l
      → l.current ≡ some id
      → release_of id l.releases ≡ some r
      → (((ensure_desktop_update_schema c).0 ≡ none)
          × ((ensure_desktop_update_schema c).1.tables ≡ c.tables))
        ⊎ ((get_public_update f latest (ensure_desktop_update_schema c).1.tables.feeds
              ≡ decode_feed_manifest f r.manifest)
            × ((ensure_desktop_update_schema (record {
              tables = record (ensure_desktop_update_schema c).1.tables { feeds = feeds };
              faults = faults;
            })).1.tables
                ≡ record (ensure_desktop_update_schema c).1.tables { feeds = feeds }))
  ensure_desktop_update_schema_once c l id r feeds faults new old now_id e = elim (ensure-cases c) [
    | inl failed ↦ inl failed
    | inr left ↦
        let (done, imports) = Left-new l c.tables _ new old left in
        inr (
          migrated_public l id r c.tables.feeds _ imports now_id e,
          again-same (record (ensure_desktop_update_schema c).1.tables { feeds = feeds }) faults
              done,
        )
  ]
