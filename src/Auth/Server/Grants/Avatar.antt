-- ===== src/Auth/Server/Grants/Avatar.antt =====
-- Whose avatar a request is answered with.
use zenmind_official_server.Base.{ℕ, ◌≡◌, refl, List, ◌⊎◌, inl, inr, All-map, All}
use zenmind_official_server.Text.{Text, trim_space, text}
use zenmind_official_server.Auth.Avatar.{AvatarProxy}
use zenmind_official_server.Auth.Avatar.Download.{Upstream}
use zenmind_official_server.Auth.Avatar.Cache.{CachedFile, Disk, image}
use zenmind_official_server.Auth.Avatar.Owners.{
  Visit, Asked, IsDownloaded, IsOwn, Arises, Arises-IsDownloaded, serve-Sound,
}
use zenmind_official_server.Auth.Store.Defs.{User, Collation}
use zenmind_official_server.Auth.Store.Monad.{
  Error, not_found, disabled_user, driver, Result, ok, err,
}
use zenmind_official_server.Auth.Server.Defs.{Outside, Config, Request, Machine, ◌>>=◌}
use zenmind_official_server.Auth.Server.Cookies.{current_user}
use zenmind_official_server.Auth.Server.Avatars.{refuse_avatar, serve_user, avatar}

refuse_avatar-shut :
    (e : Error) (content_type etag content : Text)
    → refuse_avatar e ≡ image content_type etag content
    → ⊥
unfolding refuse_avatar
refuse_avatar-shut not_found content_type etag content h = cc
refuse_avatar-shut (disabled_user u) content_type etag content h = cc
refuse_avatar-shut driver content_type etag content h = cc

-- The request of the user that is answered, or one of the others.
abbrev pub AskedBy : List Visit → Upstream → User → Upstream → User → Type 0
AskedBy visits up user up' user' = Asked visits up' user' ⊎ ((up' ≡ up) × (user' ≡ user))

others-Asked :
    (out : Outside) (p : AvatarProxy) (visits : List Visit) (up : Upstream) (user : User)
    (files : List CachedFile)
    → Arises out p visits files
    → All (IsDownloaded out p (AskedBy visits up user)) files
others-Asked out p visits up user files a =
    All-map _ _ (λ f (up', u, asked, sent, dir, own). (up', u, inl asked, sent, dir, own)) files
      (Arises-IsDownloaded out p visits files a)

module _ (up : Upstream) (p : AvatarProxy) (order : List Text) (c : Collation) (out : Outside)
    (cfg : Config) (r : Request) (version : Text) (disk : Disk) (visits : List Visit) where
  serve_user-IsOwn :
      (first looked files : List CachedFile) (at : ℕ) (found : Result User)
      (content_type etag content : Text)
      → Arises out p visits first
      → Arises out p visits looked
      → Arises out p visits files
      → (serve_user up p order out r version disk first looked files at found).0
        ≡ image content_type etag content
      → (user : User) × (found ≡ ok user)
        × IsOwn out p (AskedBy visits up user) user content_type etag content
  unfolding serve_user
  serve_user-IsOwn first looked files at (err e) content_type etag content x y z h =
      absurd (refuse_avatar-shut e content_type etag content h)
  serve_user-IsOwn first looked files at (ok user) content_type etag content x y z h = (
    user,
    refl,
    (serve-Sound out p (AskedBy visits up user) up order disk (r.header (text "If-None-Match")) user
          (trim_space version) at first looked files (others-Asked out p visits up user first x)
          (others-Asked out p visits up user looked y) (others-Asked out p visits up user files z)
          (inr (refl, refl))).1
        content_type etag content h,
  )

  -- A request is answered with nobody else's avatar, whatever the upstream servers send, whatever
  -- calls of the disk fail, and however the requests for avatars overlap: on files that a list of
  -- requests has left from an empty cache, an image is sent only to a session that authenticates a
  -- user. It is what the upstream servers have sent to one of these requests or to this one, which
  -- was made by a user with the same id and the same version of the URL, for the URL of this user;
  -- it has the type of its extension, and carries the version as its entity tag.
  pub avatar-IsOwn :
      (first looked files : List CachedFile) (m : Machine) (content_type etag content : Text)
      → Arises out p visits first
      → Arises out p visits looked
      → Arises out p visits files
      → (avatar up p order c out cfg r version disk first looked files m).0.0
        ≡ image content_type etag content
      → (user : User) × ((current_user c out cfg r m).0 ≡ ok user)
        × IsOwn out p (AskedBy visits up user) user content_type etag content
  unfolding avatar ◌>>=◌
  avatar-IsOwn first looked files m content_type etag content x y z h =
      serve_user-IsOwn first looked files _ (current_user c out cfg r m).0 content_type etag content
        x y z h
