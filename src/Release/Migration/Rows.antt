-- ===== src/Release/Migration/Rows.antt =====
-- The rows that the import of the older tables makes.
use mathlib.Core.Path.{subst}
use zenmind_official_server.Base.{
  ℕ, ◌≡◌, refl, ap, ◌∙◌, Option, none, some, List, [], ◌∷◌, ◌++◌, inl, inr, if◌then◌else◌, ◌==◌,
  arith, Option-cases, Bool-cases,
}
use zenmind_official_server.Text.{Text}
use zenmind_official_server.Text.Laws.{text_eq_refl}
use zenmind_official_server.Release.Feeds.{FeedRow, RevisionRow, current_revision, revision_row}
use zenmind_official_server.Release.Migration.{
  LegacyRelease, latest, imported_row, import_revisions, import_current_feed,
}

-- The release with the id.
unfoldable pub release_of : ℕ → List LegacyRelease → Option LegacyRelease
release_of id [] = none
release_of id (r ∷ releases) = if r.id == id then some r else release_of id releases

revision_row-append :
    (name : Text) (n : ℕ) (rows : List RevisionRow) (r s : RevisionRow)
    → revision_row name n rows ≡ some r
    → revision_row name n (rows ++ s ∷ []) ≡ some r
unfolding revision_row
revision_row-append name n [] r s h = absurd (ground arith)
revision_row-append name n (x ∷ rows) r s h = ground (arith, revision_row-append name n rows r s)

revision_row-append_missing :
    (name : Text) (rows : List RevisionRow) (s : RevisionRow)
    → s.name ≡ name
    → revision_row name s.revision rows ≡ none
    → revision_row name s.revision (rows ++ s ∷ []) ≡ some s
unfolding revision_row
revision_row-append_missing name [] s e h = rw e (ground (arith, text_eq_refl name))
revision_row-append_missing name (x ∷ rows) s e h =
    ground (arith, e, revision_row-append_missing name rows s e)

current_revision-append :
    (name : Text) (rows : List FeedRow) (s : FeedRow)
    → s.name ≡ name
    → current_revision name rows ≡ none
    → current_revision name (rows ++ s ∷ []) ≡ some s.revision
unfolding current_revision
current_revision-append name [] s e h = rw e (ground (arith, text_eq_refl name))
current_revision-append name (x ∷ rows) s e h =
    ground (arith, e, current_revision-append name rows s e)

import_revisions-kept :
    (releases : List LegacyRelease) (rows after : List RevisionRow) (n : ℕ) (r : RevisionRow)
    → import_revisions releases rows ≡ some after
    → revision_row latest n rows ≡ some r
    → revision_row latest n after ≡ some r
unfolding import_revisions
import_revisions-kept [] rows after n r h k = let same : rows ≡ after = cc in rw (← same) k
import_revisions-kept (x ∷ releases) rows after n r h k =
    elim (Option-cases (revision_row latest x.id rows)) [
      | inr (old, e) ↦ let refused = (rw (import_revisions, e) at h) in cc
      | inl e ↦
          import_revisions-kept releases (rows ++ imported_row x ∷ []) after n r
            (rw (import_revisions, e) at h) (revision_row-append latest n rows r (imported_row x) k)
    ]

pub import_revisions-row :
    (releases : List LegacyRelease) (rows after : List RevisionRow) (id : ℕ) (r : LegacyRelease)
    → import_revisions releases rows ≡ some after
    → release_of id releases ≡ some r
    → revision_row latest id after ≡ some (imported_row r)
unfolding import_revisions release_of
import_revisions-row [] rows after id r h k = cc
import_revisions-row (x ∷ releases) rows after id r h k =
    elim (Option-cases (revision_row latest x.id rows)) [
      | inr (old, e) ↦ let refused = (rw (import_revisions, e) at h) in cc
      | inl e ↦ elim (Bool-cases (x.id == id)) [
        | inr other ↦
            import_revisions-row releases (rows ++ imported_row x ∷ []) after id r
              (rw (import_revisions, e) at h) (rw other at k)
        | inl same ↦
            let hit : some x ≡ some r = (rw same at k) in
            let is : x ≡ r = cc in
            let at : x.id ≡ id = ground arith in
            let row =
              import_revisions-kept releases (rows ++ imported_row x ∷ []) after x.id
                (imported_row x) (rw (import_revisions, e) at h)
                (revision_row-append_missing latest rows (imported_row x) refl e) in
            subst (λ n. revision_row latest n after ≡ some (imported_row r)) at
              (row ∙ ap (λ y. some (imported_row y)) is)
      ]
    ]

pub import_current_feed-row :
    (id : ℕ) (rows after : List FeedRow)
    → import_current_feed (some id) rows ≡ some after
    → current_revision latest after ≡ some id
unfolding import_current_feed
import_current_feed-row id rows after h = elim (Option-cases (current_revision latest rows)) [
  | inr (old, e) ↦ let refused = (rw (import_current_feed, e) at h) in cc
  | inl e ↦
      let is : some (rows ++ record { name = latest; revision = id } ∷ []) ≡ some after =
        (rw (import_current_feed, e) at h) in
      let same : rows ++ record { name = latest; revision = id } ∷ [] ≡ after = cc in
      rw (← same)
        (current_revision-append latest rows (record { name = latest; revision = id }) refl e)
]
