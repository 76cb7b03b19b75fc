-- ===== src/Auth/Server/Catalogs.antt =====
-- internal/auth/server.go: the handlers on the catalogs of the installers and of the feeds in SQLite.
use zenmind_official_server.Base.{ℕ, false, Option, none, some, List, [], ◌∷◌, if◌then◌else◌}
use zenmind_official_server.Sqlite.{Conn}
use zenmind_official_server.Release.Manifest.{Formats}
use zenmind_official_server.Release.Feeds.{
  Feeds, get_update_feed, save_update_feed, get_public_update,
}
use zenmind_official_server.Release.Listing.{list_update_feeds, update_feed_history}
use zenmind_official_server.Release.Installers.{
  Installer, InstallerRow, is_allowed_installer_key, list_installers,
}
use zenmind_official_server.Auth.Server.Updates.{DesktopUpdateCatalog}

-- SQLiteCatalog as a DesktopUpdateCatalog, at the time `now`, where no call of the driver fails.
unfoldable pub sqlite_catalog : Formats → ℕ → DesktopUpdateCatalog Feeds
unfolding list_update_feeds get_update_feed update_feed_history save_update_feed get_public_update
sqlite_catalog f now = record {
  list_update_feeds = list_update_feeds;
  get_update_feed = get_update_feed f;
  update_feed_history = update_feed_history f;
  save_update_feed = λ name input actor db. save_update_feed f name input actor now false false db;
  get_public_update = get_public_update f;
  get_public_json = none;
}

pub data InstallersReply : Type 0 where
  -- 503
  unavailable : InstallersReply
  installers_reply : List Installer → InstallersReply

unfoldable pub visible_installers : List Installer → List Installer
unfolding is_allowed_installer_key
visible_installers [] = []
visible_installers (i ∷ rest) =
    let visible = visible_installers rest in
    if is_allowed_installer_key i.key then i ∷ visible else visible

abbrev visible_reply : Option (List Installer) → InstallersReply
visible_reply none = unavailable
visible_reply (some l) = installers_reply (visible_installers l)

-- `none` is a nil catalog.
unfoldable pub installers : Option (Conn (List InstallerRow)) → InstallersReply
unfolding list_installers visible_installers
installers none = unavailable
installers (some catalog) = visible_reply (list_installers catalog).0
