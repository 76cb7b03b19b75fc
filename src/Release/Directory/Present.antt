-- ===== src/Release/Directory/Present.antt =====
-- internal/release/directory_updates.go: the files of the feeds in a directory that
-- grows.
use zenmind_official_server.Base.{
  ℕ, ◌≡◌, refl, ap, ◌∙◌, ◌⊎◌, inl, inr, Bool, true, false, Option, none, some, List, [], ◌∷◌,
  if◌then◌else◌, All,
}
use zenmind_official_server.Text.{Text}
use zenmind_official_server.Dict.{lookup, insert}
use zenmind_official_server.Dict.Laws.{lookup-insert_self}
use zenmind_official_server.Sqlite.{Conn}
use zenmind_official_server.Release.Feeds.{UpdateFeed, Outcome, ok, err}
use zenmind_official_server.Release.Directory.Files.{
  Entry, regular, Root, continue, or_driver, atomic_write, Temporary,
}
use zenmind_official_server.Release.Directory.Reads.{disabled_path, sidecar_path}
use zenmind_official_server.Release.Directory.Effects.{err-shut, atomic_write-Does}
use zenmind_official_server.Release.Directory.Growth.{
  Grows, after, Brings, done-Brings, pure-Brings, Stands, write_new-Brings, Covers, same-Covers,
  insert-Covers, written_last-Grows,
}
use zenmind_official_server.Release.Directory.Import.{write_missing}

or_driver-ok :
    {A : Type 0} (o : Option A) (a : A) → ◌≡◌ {A = Outcome A} (or_driver o) (ok a) → o ≡ some a
or_driver-ok none a h = cc
or_driver-ok (some b) a h = cc

pub write_missing-Brings :
    (X : Text → Entry → Type 0) (t : Temporary) (path : Text) (encoded : Option Text) (now : ℕ)
    (found : Option Entry) (c : Conn Root)
    → lookup path c.tables ≡ found
    → ((content : Text) → encoded ≡ some content → X path (regular content now))
    → Brings X (write_missing t path encoded now found) c (Stands path)
unfolding write_missing
write_missing-Brings X t path encoded now (some e) c h good = done-Brings tt c (e, h)
write_missing-Brings X t path encoded now none c h good =
    pure-Brings (or_driver encoded) c λ content e.
      write_new-Brings t path content now c h (good content (or_driver-ok encoded content e))

-- A public or a disabled file of the feed.
abbrev pub HasFile : Text → Root → Type 0
HasFile name r = Stands name r ⊎ Stands (disabled_path name) r

-- A feed with its history.
abbrev pub HasFeed : Text → Root → Type 0
HasFeed name r = Stands (sidecar_path name) r × HasFile name r

pub HasFeed-Covers : (name : Text) (r s : Root) → Covers r s → HasFeed name r → HasFeed name s
HasFeed-Covers name r s g (history, inl public) = (g.covers _ history, inl (g.covers _ public))
HasFeed-Covers name r s g (history, inr disabled) = (g.covers _ history, inr (g.covers _ disabled))

abbrev pub HasFeeds : List UpdateFeed → Root → Type 0
HasFeeds items r = All (λ item. HasFeed item.name r) items

HasFeeds-Covers :
    (items : List UpdateFeed) (r s : Root) → Covers r s → HasFeeds items r → HasFeeds items s
HasFeeds-Covers [] r s g a = tt
HasFeeds-Covers (item ∷ items) r s g (b, a) =
    (HasFeed-Covers item.name r s g b, HasFeeds-Covers items r s g a)

written_last-HasFeeds :
    (t : Temporary) (path content : Text) (now : ℕ) (items : List UpdateFeed) (d : Conn Root)
    (u : Unit {0})
    → (atomic_write t path content now d).0 ≡ ok u
    → HasFeeds items d.tables
    → Stands path (after (atomic_write t path content now) d)
      × HasFeeds items (after (atomic_write t path content now) d)
written_last-HasFeeds t path content now items d u done a =
    let entry = regular content now in
    let table = insert path entry d.tables in
    let e = (atomic_write-Does t path content now).does d u done in
    (
      (entry, ap (lookup path) e ∙ lookup-insert_self path entry d.tables),
      HasFeeds-Covers items table _ (same-Covers e)
          (HasFeeds-Covers items d.tables table (insert-Covers path entry d.tables) a),
    )

pub continue-written :
    (X : Text → Entry → Type 0) (t : Temporary) (path content : Text) (now : ℕ) (r : Root)
    (items : List UpdateFeed) (res : Outcome (Unit {0})) (d : Conn Root)
    → lookup path r ≡ none
    → Grows X r d.tables
    → ((u : Unit {0}) → res ≡ ok u → HasFeeds items d.tables)
    → X path (regular content now)
    → Grows X r (after (continue res λ _. atomic_write t path content now) d)
      × ((u : Unit {0})
          → (continue res (λ _. atomic_write t path content now) d).0 ≡ ok u
          → Stands path (after (continue res λ _. atomic_write t path content now) d)
            × HasFeeds items (after (continue res λ _. atomic_write t path content now) d))
continue-written X t path content now r items (ok a) d new g has good = (
  written_last-Grows t path content now r d new g good,
  λ u done. written_last-HasFeeds t path content now items d u done (has a refl),
)
continue-written X t path content now r items (err e) d new g has good =
    (g, λ u done. absurd (err-shut e u done))

pub either-none :
    (b : Bool) (p q : Text) (r : Root)
    → lookup p r ≡ none
    → lookup q r ≡ none
    → lookup (if b then p else q) r ≡ none
either-none true p q r h k = h
either-none false p q r h k = k

pub either-HasFile :
    (b : Bool) (name : Text) (r : Root)
    → Stands (if b then name else disabled_path name) r
    → HasFile name r
either-HasFile true name r there = inl there
either-HasFile false name r there = inr there
