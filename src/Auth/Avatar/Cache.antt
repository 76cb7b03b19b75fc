-- ===== src/Auth/Avatar/Cache.antt =====
-- internal/auth/avatar_proxy.go: the cache of the avatars on disk, and what is served from it.
use zenmind_official_server.Base.{
  ℕ, ◌-◌, Bool, true, not, ◌&&◌, ◌||◌, Option, none, some, List, [], ◌∷◌, ◌++◌, if◌then◌else◌, ltb,
}
use zenmind_official_server.Text.{Text, text, text_eq, trim_space, is_blank}
use zenmind_official_server.Text.Decimal.{format_int}
use zenmind_official_server.Dict.{Dict, lookup}
use zenmind_official_server.Auth.Store.Defs.{User}
use zenmind_official_server.Auth.Server.Defs.{Outside}
use zenmind_official_server.Auth.Avatar.{AvatarProxy, source_url, avatar_version}
use zenmind_official_server.Auth.Avatar.Download.{Upstream, Download, loaded, failed, download}

-- A file below the cache directory: the directory of its user, the parts of its name.
pub record CachedFile : Type 0 where
  pub user_dir : Text
  pub version : Text
  pub extension : Text
  pub content : Text
  pub mod_time : ℕ
  -- info.Mode().IsRegular()
  pub regular : Bool

-- What the calls of the operating system do.
pub record Disk : Type 0 where
  -- a call of writeCache before the renaming, or the renaming, fails
  pub write_fails : Bool
  pub stat_fails : Bool
  pub read_fails : Bool
  -- the files that os.Remove leaves there, or that os.ReadDir does not list
  pub stays : CachedFile → Bool

pub data AvatarReply : Type 0 where
  -- http.NotFound
  not_found : AvatarReply
  failure : ℕ → Text → AvatarReply
  -- 304 with the ETag
  not_modified : Text → AvatarReply
  -- the type, the ETag and the content
  image : Text → Text → Text → AvatarReply

-- avatarContentTypeByExtension
unfoldable pub avatar_content_type : Dict Text
unfolding text
avatar_content_type =
    (text ".gif", text "image/gif")
    ∷ (text ".jpg", text "image/jpeg")
    ∷ (text ".png", text "image/png")
    ∷ (text ".webp", text "image/webp")
    ∷ []

unfoldable pub is_file : Text → Text → Text → CachedFile → Bool
unfolding text_eq
is_file user_dir version extension f =
    text_eq f.user_dir user_dir && text_eq f.version version && text_eq f.extension extension

unfoldable pub find_file : (CachedFile → Bool) → List CachedFile → Option CachedFile
find_file p [] = none
find_file p (f ∷ fs) = if p f then some f else find_file p fs

abbrev pub if_regular : Option CachedFile → Option CachedFile → Option CachedFile
if_regular none rest = rest
if_regular (some f) rest = if f.regular then some f else rest

-- findCachedAvatar; the extensions come in the order in which Go ranges over the map.
unfoldable pub find_cached_avatar : Text → Text → List Text → List CachedFile → Option CachedFile
unfolding is_file find_file
find_cached_avatar user_dir version [] files = none
find_cached_avatar user_dir version (extension ∷ extensions) files =
    let rest = find_cached_avatar user_dir version extensions files in
    if_regular (find_file (is_file user_dir version extension) files) rest

-- The entries of the directory of the user are removed but for the new file; the rename replaces it.
unfoldable pub tidy : Disk → Text → Text → Text → List CachedFile → List CachedFile
unfolding is_file text_eq
tidy disk user_dir version extension [] = []
tidy disk user_dir version extension (f ∷ fs) =
    let rest = tidy disk user_dir version extension fs in
    if is_file user_dir version extension f || (text_eq f.user_dir user_dir && not (disk.stays f))
    then rest
    else f ∷ rest

abbrev pub new_file : Text → Text → Text → Text → ℕ → CachedFile
new_file user_dir version extension content now = record {
  user_dir = user_dir;
  version = version;
  extension = extension;
  content = content;
  mod_time = now;
  regular = true;
}

unfoldable pub write_cache :
    Disk → Text → Text → Text → Text → ℕ → List CachedFile → Option CachedFile × List CachedFile
unfolding tidy
write_cache disk user_dir version extension content now files =
    let f = new_file user_dir version extension content now in
    if disk.write_fails
    then (none, files)
    else (some f, f ∷ tidy disk user_dir version extension files)

-- serveFile; `if_none_match` is the header of the request.
unfoldable pub serve_file : Disk → Text → CachedFile → AvatarReply
unfolding lookup avatar_content_type trim_space text_eq text
serve_file disk if_none_match f = elim (lookup f.extension avatar_content_type) [
  | none ↦ not_found
  | some content_type ↦
      let etag = text "\"" ++ f.version ++ text "\"" in
      if text_eq (trim_space if_none_match) etag
      then not_modified etag
      else if disk.read_fails
      then not_found
      else image content_type etag f.content
]

abbrev pub is_fresh : AvatarProxy → ℕ → CachedFile → Bool
is_fresh p now f = ltb (now - f.mod_time) p.cache_ttl

-- The file that is served although it is old.
unfoldable pub serve_stale : Disk → Text → Option CachedFile → AvatarReply
unfolding serve_file text
serve_stale disk if_none_match none = failure 502 (text "avatar_unavailable")
serve_stale disk if_none_match (some f) = serve_file disk if_none_match f

unfoldable pub serve_written : Disk → Text → Option CachedFile → AvatarReply
unfolding serve_file text
serve_written disk if_none_match none = failure 500 (text "avatar_cache_failed")
serve_written disk if_none_match (some f) =
    if disk.stat_fails
    then failure 500 (text "avatar_cache_failed")
    else serve_file disk if_none_match f

-- The answer of a request and the files after it.
abbrev pub Served : Type 0
Served = AvatarReply × List CachedFile

module _ (out : Outside) (up : Upstream) (p : AvatarProxy) (order : List Text) where
  -- A file that is fresh is served, else the rest is done.
  unfoldable pub fresh_or : Disk → Text → ℕ → List CachedFile → Option CachedFile → Served → Served
  unfolding serve_file
  fresh_or disk if_none_match now files none rest = rest
  fresh_or disk if_none_match now files (some f) rest =
      if is_fresh p now f then (serve_file disk if_none_match f, files) else rest

  -- What is done with the download.
  unfoldable pub refreshed :
      Disk → Text → User → Text → ℕ → Option CachedFile → List CachedFile → Download → Served
  unfolding write_cache serve_stale serve_written format_int
  refreshed disk if_none_match user version now old files (failed e) =
      (serve_stale disk if_none_match old, files)
  refreshed disk if_none_match user version now old files (loaded content extension) =
      let (written, files') =
        write_cache disk (format_int user.id) version extension content now files in
      (serve_written disk if_none_match written, files')

  -- The part under the lock of the user and the version. Requests for other avatars change the files
  -- after the lookup, during the download.
  unfoldable pub serve_locked :
      Disk → Text → User → Text → ℕ → List CachedFile → List CachedFile → Served
  unfolding find_cached_avatar fresh_or refreshed download format_int
  serve_locked disk if_none_match user version now looked files =
      let found = find_cached_avatar (format_int user.id) version order looked in
      fresh_or disk if_none_match now files found (
        refreshed disk if_none_match user version now found files
          (download out up p user.avatar_url).0)

  -- serve; the files are those of the first lookup, those of the lookup under the lock, and those
  -- that the download finds at its end, since other requests change them meanwhile.
  unfoldable pub serve :
      Disk → Text → User → Text → ℕ → List CachedFile → List CachedFile → List CachedFile → Served
  unfolding source_url avatar_version is_blank text_eq find_cached_avatar fresh_or serve_locked
      format_int
  serve disk if_none_match user version now first looked files =
      if not p.enabled || is_blank version || not (text_eq version (avatar_version out user))
      then (not_found, files)
      else if not (source_url out p user.avatar_url)
      then (not_found, files)
      else fresh_or disk if_none_match now files
          (find_cached_avatar (format_int user.id) version order first)
          (serve_locked disk if_none_match user version now looked files)
