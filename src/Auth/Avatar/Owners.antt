-- ===== src/Auth/Avatar/Owners.antt =====
-- internal/auth/avatar_proxy.go: for whom the files of the cache were downloaded.
use zenmind_official_server.Base.{
  ℕ, ◌≡◌, refl, sym, ap, ◌∙◌, not, ◌||◌, Option, none, some, List, [], inl, inr, arith, All, Any,
  Any-map, Bool-cases,
}
use zenmind_official_server.Text.{Text, text_eq, is_blank}
use zenmind_official_server.Text.Laws.{text_eq_iff}
use zenmind_official_server.Text.Decimal.{format_int, format_int_inj}
use zenmind_official_server.Dict.{lookup}
use zenmind_official_server.Auth.Store.Defs.{User}
use zenmind_official_server.Auth.Server.Defs.{Outside}
use zenmind_official_server.Auth.Avatar.{AvatarProxy, source_url, avatar_version}
use zenmind_official_server.Auth.Avatar.Download.{Upstream, Download, loaded, failed, download}
use zenmind_official_server.Auth.Avatar.Cache.{
  new_file, fresh_or, refreshed, CachedFile, Disk, AvatarReply, image, avatar_content_type,
  find_cached_avatar, write_cache, serve_file, is_fresh, serve_stale, serve_written, Served,
  serve_locked, serve,
}
use zenmind_official_server.Auth.Avatar.Files.{found-All, tidy-All, quoted, serve_file-image}

-- A request for an avatar, with what the upstream servers and the disk do meanwhile.
pub record Visit : Type 0 where
  pub up : Upstream
  pub order : List Text
  pub disk : Disk
  pub if_none_match : Text
  pub user : User
  pub version : Text
  pub now : ℕ

-- `Sent up user` says that a request of the user was made while these upstream servers answered.
module _ (out : Outside) (p : AvatarProxy) (Sent : Upstream → User → Type 0) where
  -- The file holds what was sent to a request of a user with this id and this version.
  abbrev pub IsDownloaded : CachedFile → Type 0
  IsDownloaded f =
      (up : Upstream) × (u : User) × Sent up u
      × ((download out up p u.avatar_url).0 ≡ loaded f.content f.extension)
      × (f.user_dir ≡ format_int u.id)
      × (f.version ≡ avatar_version out u)

  -- The content of an image is what was sent to a request of this user, for this version of his URL.
  abbrev pub IsOwn : User → Text → Text → Text → Type 0
  IsOwn user content_type etag content =
      (up : Upstream) × (u : User) × (extension : Text) × Sent up u
      × ((download out up p u.avatar_url).0 ≡ loaded content extension)
      × (u.id ≡ user.id)
      × (avatar_version out u ≡ avatar_version out user)
      × (lookup extension avatar_content_type ≡ some content_type)
      × (etag ≡ quoted (avatar_version out user))

  abbrev Shows : User → AvatarReply → Type 0
  Shows user reply =
      (content_type etag content : Text)
      → reply ≡ image content_type etag content
      → IsOwn user content_type etag content

  -- A file of the user and the version.
  abbrev IsFor : User → CachedFile → Type 0
  IsFor user f =
      IsDownloaded f × (f.user_dir ≡ format_int user.id) × (f.version ≡ avatar_version out user)

  abbrev AllFor : User → Option CachedFile → Type 0
  AllFor user none = Unit
  AllFor user (some f) = IsFor user f

  abbrev Sound : User → Served → Type 0
  Sound user (reply, files) = All IsDownloaded files × Shows user reply

  serve_file-Shows :
      (disk : Disk) (if_none_match : Text) (user : User) (f : CachedFile)
      → IsFor user f
      → Shows user (serve_file disk if_none_match f)
  serve_file-Shows disk if_none_match user f ((up, u, asked, sent, dir, version), own, same)
        content_type etag content h =
      let (e, known, tag) = serve_file-image disk if_none_match f content_type etag content h in
      (
        up,
        u,
        f.extension,
        asked,
        rw e sent,
        format_int_inj u.id user.id (sym dir ∙ own),
        sym version ∙ same,
        known,
        tag ∙ ap quoted same,
      )

  serve_stale-Shows :
      (disk : Disk) (if_none_match : Text) (user : User) (old : Option CachedFile)
      → AllFor user old
      → Shows user (serve_stale disk if_none_match old)
  unfolding serve_stale
  serve_stale-Shows disk if_none_match user none a content_type etag content h = cc
  serve_stale-Shows disk if_none_match user (some f) a content_type etag content h =
      serve_file-Shows disk if_none_match user f a content_type etag content h

  serve_written-Shows :
      (disk : Disk) (if_none_match : Text) (user : User) (written : Option CachedFile)
      → AllFor user written
      → Shows user (serve_written disk if_none_match written)
  unfolding serve_written
  serve_written-Shows disk if_none_match user none a content_type etag content h = cc
  serve_written-Shows disk if_none_match user (some f) a content_type etag content h =
      elim (Bool-cases disk.stat_fails) [
        | inl bad ↦ let nothing = (rw bad at h) in cc
        | inr good ↦
            serve_file-Shows disk if_none_match user f a content_type etag content (rw good at h)
      ]

  write_cache-Sound :
      (up : Upstream) (disk : Disk) (user : User) (version extension content : Text) (now : ℕ)
      (files : List CachedFile)
      → version ≡ avatar_version out user
      → Sent up user
      → (download out up p user.avatar_url).0 ≡ loaded content extension
      → All IsDownloaded files
      → let (written, after) =
          write_cache disk (format_int user.id) version extension content now files in
        AllFor user written × All IsDownloaded after
  unfolding write_cache
  write_cache-Sound up disk user version extension content now files own asked sent a =
      elim (Bool-cases disk.write_fails) [
        | inl bad ↦ rw bad (tt, a)
        | inr good ↦
            let origin : IsDownloaded
                (new_file (format_int user.id) version extension content now) =
              (up, user, asked, sent, refl, own) in
            rw good (
              (origin, refl, own),
              (origin, tidy-All IsDownloaded disk (format_int user.id) version extension files a),
            )
      ]

  refreshed-Sound :
      (up : Upstream) (order : List Text) (disk : Disk) (if_none_match : Text) (user : User)
      (version : Text) (now : ℕ) (old : Option CachedFile) (files : List CachedFile) (d : Download)
      → version ≡ avatar_version out user
      → Sent up user
      → (download out up p user.avatar_url).0 ≡ d
      → AllFor user old
      → All IsDownloaded files
      → Sound user (refreshed out up p order disk if_none_match user version now old files d)
  unfolding refreshed
  refreshed-Sound up order disk if_none_match user version now old files (failed x) own asked e a
        b =
      (b, serve_stale-Shows disk if_none_match user old a)
  refreshed-Sound up order disk if_none_match user version now old files (loaded content extension)
        own asked e a b =
      let (written, kept) =
        write_cache-Sound up disk user version extension content now files own asked e b in
      (kept, serve_written-Shows disk if_none_match user _ written)

  fresh_or-Sound :
      (up : Upstream) (order : List Text) (disk : Disk) (if_none_match : Text) (user : User)
      (now : ℕ) (files : List CachedFile) (found : Option CachedFile) (rest : Served)
      → AllFor user found
      → All IsDownloaded files
      → Sound user rest
      → Sound user (fresh_or out up p order disk if_none_match now files found rest)
  unfolding fresh_or
  fresh_or-Sound up order disk if_none_match user now files none rest a b s = s
  fresh_or-Sound up order disk if_none_match user now files (some f) rest a b s =
      elim (Bool-cases (is_fresh p now f)) [
        | inl fresh ↦ rw fresh (b, serve_file-Shows disk if_none_match user f a)
        | inr old ↦ rw old s
      ]

  found-AllFor :
      (order : List Text) (user : User) (version : Text) (files : List CachedFile)
      (found : Option CachedFile)
      → version ≡ avatar_version out user
      → find_cached_avatar (format_int user.id) version order files ≡ found
      → All IsDownloaded files
      → AllFor user found
  found-AllFor order user version files none own e b = tt
  found-AllFor order user version files (some f) own e b =
      let (origin, dir, same) =
        found-All IsDownloaded (format_int user.id) version order files f b e in
      (origin, dir, same ∙ own)

  pub serve-Sound :
      (up : Upstream) (order : List Text) (disk : Disk) (if_none_match : Text) (user : User)
      (version : Text) (now : ℕ) (first looked files : List CachedFile)
      → All IsDownloaded first
      → All IsDownloaded looked
      → All IsDownloaded files
      → Sent up user
      → Sound user (serve out up p order disk if_none_match user version now first looked files)
  unfolding serve serve_locked
  serve-Sound up order disk if_none_match user version now first looked files a b d asked =
      elim (Bool-cases
        (not p.enabled || is_blank version || not (text_eq version (avatar_version out user)))) [
          | inl bad ↦ rw bad (d, λ content_type etag content h. cc)
          | inr fit ↦ elim (Bool-cases (source_url out p user.avatar_url)) [
            | inr strange ↦ rw (fit, strange) (d, λ content_type etag content h. cc)
            | inl allowed ↦
                let own : version ≡ avatar_version out user =
                  ground (arith, text_eq_iff version (avatar_version out user)) in
                let seen = found-AllFor order user version first _ own refl a in
                let found = found-AllFor order user version looked _ own refl b in
                rw (fit, allowed)
                  (fresh_or-Sound up order disk if_none_match user now files _ _ seen d (
                    fresh_or-Sound up order disk if_none_match user now files _ _ found d (
                      refreshed-Sound up order disk if_none_match user version now _ files _ own
                        asked refl found d)))
          ]
        ]

-- One of the requests is made by the user, while these upstream servers answer.
abbrev pub Asked : List Visit → Upstream → User → Type 0
Asked visits up user = Any (λ (v : Visit). (v.up ≡ up) × (v.user ≡ user)) visits

-- The answer of a request, and the files after it.
abbrev pub serve_visit :
    Outside → AvatarProxy → Visit → List CachedFile → List CachedFile → List CachedFile → Served
serve_visit out p v first looked files =
    serve out v.up p v.order v.disk v.if_none_match v.user v.version v.now first looked files

-- The files that the requests of the list leave, from none: a request finds files that have arisen,
-- at each of its three looks others, so that requests may overlap in any way.
pub data Arises (out : Outside) (p : AvatarProxy) (visits : List Visit)
    : List CachedFile → Type 0 where
  unused : Arises out p visits []
  visited :
      (v : Visit) (first looked files : List CachedFile)
      → Any (λ w. w ≡ v) visits
      → Arises out p visits first
      → Arises out p visits looked
      → Arises out p visits files
      → Arises out p visits (serve_visit out p v first looked files).1

pub Arises-IsDownloaded :
    (out : Outside) (p : AvatarProxy) (visits : List Visit) (files : List CachedFile)
    → Arises out p visits files
    → All (IsDownloaded out p (Asked visits)) files
Arises-IsDownloaded out p visits _ unused = tt
Arises-IsDownloaded out p visits _ (visited v first looked files member a b d) =
    let a' = Arises-IsDownloaded out p visits first a in
    let b' = Arises-IsDownloaded out p visits looked b in
    let d' = Arises-IsDownloaded out p visits files d in
    let asked : Asked visits v.up v.user =
      Any-map _ _ (λ w same. (ap (λ (x : Visit). x.up) same, ap (λ (x : Visit). x.user) same))
        visits member in
    (serve-Sound out p (Asked visits) v.up v.order v.disk v.if_none_match v.user v.version v.now
      first looked files a' b' d' asked).0
