-- ===== src/Auth/Server/Avatars.antt =====
-- internal/auth/server.go: the handler of the avatars, over the proxy.
use zenmind_official_server.Base.{ℕ, List}
use zenmind_official_server.Text.{Text, text, trim_space}
use zenmind_official_server.Auth.Avatar.{AvatarProxy}
use zenmind_official_server.Auth.Avatar.Download.{Upstream}
use zenmind_official_server.Auth.Avatar.Cache.{
  CachedFile, Disk, AvatarReply, Served, failure, serve,
}
use zenmind_official_server.Auth.Store.Defs.{Collation, User}
use zenmind_official_server.Auth.Store.Monad.{
  Error, Result, ok, err, not_found, disabled_user, driver,
}
use zenmind_official_server.Auth.Server.Defs.{Outside, Config, Request, H, ◌>>=◌, pure, now}
use zenmind_official_server.Auth.Server.Cookies.{current_user}

unfoldable pub refuse_avatar : Error → AvatarReply
unfolding text
refuse_avatar not_found = failure 401 (text "unauthorized")
refuse_avatar (disabled_user u) = failure 403 (text "account_disabled")
refuse_avatar driver = failure 500 (text "server_error")

module _ (up : Upstream) (p : AvatarProxy) (order : List Text) where
  -- What is done for the user of the session.
  unfoldable pub serve_user :
      Outside
      → Request
      → Text
      → Disk
      → List CachedFile
      → List CachedFile
      → List CachedFile
      → ℕ
      → Result User
      → Served
  unfolding serve refuse_avatar trim_space text
  serve_user out r version disk first looked files at (err e) = (refuse_avatar e, files)
  serve_user out r version disk first looked files at (ok user) =
      serve out up p order disk (r.header (text "If-None-Match")) user (trim_space version) at first
        looked files

  -- The version is the one of the path of the request; the files are those of `serve`.
  unfoldable pub avatar :
      Collation
      → Outside
      → Config
      → Request
      → Text
      → Disk
      → List CachedFile
      → List CachedFile
      → List CachedFile
      → H Served
  unfolding ◌>>=◌ serve_user
  avatar c out cfg r version disk first looked files = do
    found ← current_user c out cfg r
    at ← now
    pure (serve_user out r version disk first looked files at found)
