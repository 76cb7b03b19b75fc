-- ===== src/Auth/Avatar/Files.antt =====
-- internal/auth/avatar_proxy.go: the lookups in the cache, and the answer for a file.
use mathlib.Core.Path.{subst}
use zenmind_official_server.Base.{
  ◌≡◌, sym, ap, ◌∙◌, Bool, true, not, ◌||◌, ◌&&◌, Option, none, some, List, [], ◌∷◌, ◌++◌, ◌⊎◌, inl,
  inr, arith, All, Bool-cases, Option-cases,
}
use zenmind_official_server.Text.{Text, text, text_eq}
use zenmind_official_server.Text.Laws.{text_eq_iff}
use zenmind_official_server.Dict.{lookup}
use zenmind_official_server.Auth.Avatar.Cache.{
  CachedFile, Disk, image, avatar_content_type, is_file, find_file, if_regular, find_cached_avatar,
  tidy, serve_file,
}

some_inv : (f g : CachedFile) → ◌≡◌ {A = Option CachedFile} (some f) (some g) → f ≡ g
some_inv f g h = cc

if_regular-cases :
    (found rest : Option CachedFile) (f : CachedFile)
    → if_regular found rest ≡ some f
    → (found ≡ some f) ⊎ (rest ≡ some f)
if_regular-cases none rest f h = inr h
if_regular-cases (some g) rest f h = ground arith

is_file_lem :
    (user_dir version extension : Text) (f : CachedFile)
    → is_file user_dir version extension f ≡ true
    → (f.user_dir ≡ user_dir) × (f.version ≡ version)
unfolding is_file
is_file_lem user_dir version extension f h =
    ground (arith, text_eq_iff f.user_dir user_dir, text_eq_iff f.version version)

module _ (P : CachedFile → Type 0) where
  find_file-All :
      (p : CachedFile → Bool) (files : List CachedFile) (f : CachedFile)
      → All P files
      → find_file p files ≡ some f
      → P f × (p f ≡ true)
  unfolding find_file
  find_file-All p [] f a h = cc
  find_file-All p (g ∷ files) f (b, a) h = elim (Bool-cases (p g)) [
    | inl hit ↦ let same = some_inv g f (rw hit at h) in (subst P same b, ap p (sym same) ∙ hit)
    | inr miss ↦ find_file-All p files f a (rw miss at h)
  ]

  -- A file that is found is one of the directory and the version.
  pub found-All :
      (user_dir version : Text) (order : List Text) (files : List CachedFile) (f : CachedFile)
      → All P files
      → find_cached_avatar user_dir version order files ≡ some f
      → P f × (f.user_dir ≡ user_dir) × (f.version ≡ version)
  unfolding find_cached_avatar
  found-All user_dir version [] files f a h = cc
  found-All user_dir version (extension ∷ order) files f a h = elim (if_regular-cases _ _ f h) [
    | inr later ↦ found-All user_dir version order files f a later
    | inl first ↦
        let (b, hit) = find_file-All (is_file user_dir version extension) files f a first in
        let (dir, same) = is_file_lem user_dir version extension f hit in (b, dir, same)
  ]

  pub tidy-All :
      (disk : Disk) (user_dir version extension : Text) (files : List CachedFile)
      → All P files
      → All P (tidy disk user_dir version extension files)
  unfolding tidy
  tidy-All disk user_dir version extension [] a = tt
  tidy-All disk user_dir version extension (f ∷ files) (b, a) =
      elim (Bool-cases (
        is_file user_dir version extension f
        || (text_eq f.user_dir user_dir && not (disk.stays f)))) [
          | inl gone ↦ rw gone (tidy-All disk user_dir version extension files a)
          | inr kept ↦ rw kept (b, tidy-All disk user_dir version extension files a)
        ]

abbrev pub quoted : Text → Text
quoted version = text "\"" ++ version ++ text "\""

pub serve_file-image :
    (disk : Disk) (if_none_match : Text) (f : CachedFile) (content_type etag content : Text)
    → serve_file disk if_none_match f ≡ image content_type etag content
    → (content ≡ f.content)
      × (lookup f.extension avatar_content_type ≡ some content_type)
      × (etag ≡ quoted f.version)
unfolding serve_file
serve_file-image disk if_none_match f content_type etag content h =
    elim (Option-cases (lookup f.extension avatar_content_type)) [
      | inl unknown ↦ let nothing = (rw unknown at h) in cc
      | inr (known, e) ↦ let shown = (rw e at h) in ground arith
    ]
