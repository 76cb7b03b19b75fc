-- ===== src/Release/Directory/Paths.antt =====
-- internal/release/directory_updates.go: the paths that a save writes.
use zenmind_official_server.Base.{
  ℕ, ◌≡◌, refl, ap, ◌⊎◌, inl, inr, Bool, true, false, none, some, [], ◌∷◌, ◌++◌, if◌then◌else◌, ◌<◌,
  length, length-append, arith, Bool-cases,
}
use zenmind_official_server.Text.{Text, text, text_eq}
use zenmind_official_server.Text.Laws.{text_eq_iff, text_eq_refl}
use zenmind_official_server.Dict.{lookup, insert}
use zenmind_official_server.Dict.Laws.{lookup-insert, lookup-insert_self}
use zenmind_official_server.Release.Directory.Files.{regular, Root, without}
use zenmind_official_server.Release.Directory.Reads.{disabled_path, sidecar_path}

-- Where a save puts the manifest, and where it removes it.
abbrev pub feed_path : Text → Bool → Text
feed_path name enabled = if enabled then name else disabled_path name

abbrev pub other_path : Text → Bool → Text
other_path name enabled = if enabled then disabled_path name else name

abbrev pub written : Text → Bool → Text → Text → ℕ → Root → Root
written name enabled content metadata now s =
    insert (sidecar_path name) (regular metadata now)
      (without (other_path name enabled) (insert (feed_path name enabled) (regular content now) s))

lookup-without :
    (k p : Text) (m : Root) → lookup k (without p m) ≡ (if text_eq p k then none else lookup k m)
unfolding lookup without
lookup-without k p [] = ground arith
lookup-without k p ((i, e) ∷ m) =
    ground (arith, text_eq_iff i p, text_eq_iff i k, text_eq_iff p k, lookup-without k p m)

longer-neq : (p s : Text) → 0 < length p → text_eq (p ++ s) s ≡ false
longer-neq p s lt = elim (Bool-cases (text_eq (p ++ s) s)) [
  | inr other ↦ other
  | inl same ↦
      let e = ap length ((text_eq_iff (p ++ s) s).0 same) in
      absurd (omega (arith, e, length-append p s, lt))
]

-- After a save, the name has the manifest if the feed is enabled, and no file if it is not.
pub lookup-written :
    (name : Text) (enabled : Bool) (content metadata : Text) (now : ℕ) (s : Root)
    → lookup name (written name enabled content metadata now s)
      ≡ (if enabled then some (regular content now) else none)
unfolding text
lookup-written name true content metadata now s =
    rw
      (
        lookup-insert (sidecar_path name) name (regular metadata now)
            (without (disabled_path name) (insert name (regular content now) s)),
        longer-neq (text ".admin/") name (omega arith),
        lookup-without name (disabled_path name) (insert name (regular content now) s),
        longer-neq (text ".disabled/") name (omega arith),
        lookup-insert name name (regular content now) s,
        text_eq_refl name,
      )
      refl
lookup-written name false content metadata now s =
    rw
      (
        lookup-insert (sidecar_path name) name (regular metadata now)
            (without name (insert (disabled_path name) (regular content now) s)),
        longer-neq (text ".admin/") name (omega arith),
        lookup-without name name (insert (disabled_path name) (regular content now) s),
        text_eq_refl name,
      )
      refl

pub lookup-sidecar :
    (name : Text) (enabled : Bool) (content metadata : Text) (now : ℕ) (s : Root)
    → lookup (sidecar_path name) (written name enabled content metadata now s)
      ≡ some (regular metadata now)
lookup-sidecar name enabled content metadata now s =
    lookup-insert_self (sidecar_path name) (regular metadata now)
      (without (other_path name enabled) (insert (feed_path name enabled) (regular content now) s))

-- The paths of the files of a feed.
abbrev pub IsPath : Text → Text → Type 0
IsPath name path = (path ≡ name) ⊎ (path ≡ disabled_path name) ⊎ (path ≡ sidecar_path name)

pub elsewhere :
    (name : Text) (enabled : Bool) (content metadata : Text) (now : ℕ) (s : Root) (path : Text)
    → IsPath name path ⊎ (lookup path (written name enabled content metadata now s) ≡ lookup path s)
elsewhere name true content metadata now s path =
    rw
      (
        lookup-insert (sidecar_path name) path (regular metadata now)
            (without (disabled_path name) (insert name (regular content now) s)),
        lookup-without path (disabled_path name) (insert name (regular content now) s),
        lookup-insert name path (regular content now) s,
      )
      (ground (
        arith,
        text_eq_iff (sidecar_path name) path,
        text_eq_iff (disabled_path name) path,
        text_eq_iff name path,
      ))
elsewhere name false content metadata now s path =
    rw
      (
        lookup-insert (sidecar_path name) path (regular metadata now)
            (without name (insert (disabled_path name) (regular content now) s)),
        lookup-without path name (insert (disabled_path name) (regular content now) s),
        lookup-insert (disabled_path name) path (regular content now) s,
      )
      (ground (
        arith,
        text_eq_iff (sidecar_path name) path,
        text_eq_iff (disabled_path name) path,
        text_eq_iff name path,
      ))
