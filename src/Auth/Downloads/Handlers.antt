-- ===== src/Auth/Downloads/Handlers.antt =====
-- internal/auth/server.go: downloadEvent and downloadStats.
use zenmind_official_server.Base.{
  ℕ, Bool, not, ◌||◌, Option, none, some, List, [], ◌∷◌, if◌then◌else◌,
}
use zenmind_official_server.Text.{Text, text, text_eq, trim_space}
use zenmind_official_server.Dict.{Dict, insert}
use zenmind_official_server.Sqlite.{Conn}
use zenmind_official_server.Auth.Downloads.{
  DownloadEvent, DownloadStat, Downloads, record_download_event, list_download_stats,
}
use zenmind_official_server.Auth.Server.Defs.{Outside, Config, Request}
use zenmind_official_server.Auth.Server.Requests.{request_ip, valid_remote_ip}

pub record DownloadEventRequest : Type 0 where
  pub installer_key : Text
  pub version : Text

pub data DownloadReply : Type 0 where
  failure : ℕ → Text → DownloadReply
  -- 202 with {"ok": true}
  accepted : DownloadReply
  -- {"totals": ...}
  totals_reply : Dict ℕ → DownloadReply

-- allowedInstallerKeys[key]
unfoldable pub allowed_installer_key : Text → Bool
unfolding text text_eq
allowed_installer_key key = text_eq key (text "mac") || text_eq key (text "windows")

unfoldable pub download_event_from_request : Outside → Request → Text → Text → ℕ → DownloadEvent
unfolding valid_remote_ip trim_space text
download_event_from_request out r installer_key version downloaded_at = record {
  id = 0;
  installer_key = installer_key;
  version = version;
  client_ip = valid_remote_ip out r.remote_addr;
  remote_addr = trim_space r.remote_addr;
  x_forwarded_for = trim_space (r.header (text "X-Forwarded-For"));
  x_real_ip = trim_space (r.header (text "X-Real-IP"));
  user_agent = r.user_agent;
  referer = trim_space (r.header (text "Referer"));
  accept_language = trim_space (r.header (text "Accept-Language"));
  downloaded_at = downloaded_at;
}

unfoldable pub after_record : Option (Unit {0}) → DownloadReply
unfolding text
after_record none = failure 500 (text "server_error")
after_record (some u) = accepted

-- The body is `none` if it is no JSON.
unfoldable pub download_event :
    Outside
    → Config
    → Request
    → Option DownloadEventRequest
    → ℕ
    → Conn Downloads
    → DownloadReply × Conn Downloads
unfolding trim_space allowed_installer_key download_event_from_request request_ip
    record_download_event after_record text
download_event out cfg r none now c = (failure 400 (text "invalid_json"), c)
download_event out cfg r (some req) now c =
    let key = trim_space req.installer_key in
    if not (allowed_installer_key key)
    then (failure 400 (text "invalid_installer"), c)
    else let event = download_event_from_request out r key req.version now in
      let (result, c') =
        record_download_event (record event { client_ip = request_ip out cfg r }) now c in
      (after_record result, c')

unfoldable pub add_total : DownloadStat → Dict ℕ → Dict ℕ
unfolding allowed_installer_key insert
add_total s totals =
    if allowed_installer_key s.installer_key then insert s.installer_key s.total totals else totals

-- The loop over the rows, on the totals so far.
unfoldable pub add_totals : List DownloadStat → Dict ℕ → Dict ℕ
unfolding add_total
add_totals [] totals = totals
add_totals (s ∷ ss) totals = add_totals ss (add_total s totals)

abbrev pub no_totals : Dict ℕ
no_totals = (text "mac", 0) ∷ (text "windows", 0) ∷ []

unfoldable pub stats_reply : Option (List DownloadStat) → DownloadReply
unfolding add_totals text
stats_reply none = failure 500 (text "server_error")
stats_reply (some stats) = totals_reply (add_totals stats no_totals)

unfoldable pub download_stats : Conn Downloads → DownloadReply × Conn Downloads
unfolding list_download_stats stats_reply
download_stats c = let (result, c') = list_download_stats c in (stats_reply result, c')
