-- ===== src/Auth/Downloads.antt =====
-- internal/auth/download_store.go, with downloadEvent and downloadStats of internal/auth/server.go:
-- the downloads and their number for each installer.
pub mod Answers
pub mod Handlers
pub mod Laws
pub mod Totals
use zenmind_official_server.Base.{
  ℕ, ◌+◌, ◌≡◌, Bool, Option, some, List, [], ◌∷◌, ◌++◌, if◌then◌else◌, ◌==◌, ◌≤◌, length,
}
use zenmind_official_server.Text.{Text, text_eq, trim_space, truncate}
use zenmind_official_server.Sqlite.{Sql, ◌>>=◌, ◌>>◌, pure, gets, modify, attempt, transaction}

-- The rows of the table `download` are events with an id.
pub record DownloadEvent : Type 0 where
  pub id : ℕ
  pub installer_key : Text
  pub version : Text
  pub client_ip : Text
  pub remote_addr : Text
  pub x_forwarded_for : Text
  pub x_real_ip : Text
  pub user_agent : Text
  pub referer : Text
  pub accept_language : Text
  -- 0 is the zero time
  pub downloaded_at : ℕ

pub record DownloadStat : Type 0 where
  pub installer_key : Text
  pub total : ℕ

-- download_stat
pub record StatRow : Type 0 where
  pub installer_key : Text
  pub total : ℕ
  pub created_at : ℕ
  pub updated_at : ℕ

-- The tables, with the next AUTOINCREMENT value.
pub record Downloads : Type 0 where
  pub events : List DownloadEvent
  pub stats : List StatRow
  pub next_id : ℕ

-- `truncate(strings.TrimSpace(value), max)`
unfoldable pub column : Text → ℕ → Text
unfolding truncate trim_space
column value max = truncate (trim_space value) max

unfoldable pub event_row : DownloadEvent → ℕ → ℕ → DownloadEvent
unfolding column
event_row e id now = record {
  id = id;
  installer_key = column e.installer_key 64;
  version = column e.version 32;
  client_ip = column e.client_ip 64;
  remote_addr = column e.remote_addr 128;
  x_forwarded_for = column e.x_forwarded_for 1024;
  x_real_ip = column e.x_real_ip 64;
  user_agent = column e.user_agent 512;
  referer = column e.referer 1024;
  accept_language = column e.accept_language 256;
  downloaded_at = if e.downloaded_at == 0 then now else e.downloaded_at;
}

-- INSERT INTO download_stat ... ON CONFLICT(INSTALLER_KEY_) DO UPDATE SET TOTAL_ = TOTAL_ + 1, ...
unfoldable pub count_download : Text → ℕ → List StatRow → List StatRow
unfolding text_eq
count_download key now [] =
    record { installer_key = key; total = 1; created_at = now; updated_at = now } ∷ []
count_download key now (r ∷ rs) =
    if text_eq r.installer_key key
    then record r { total = r.total + 1; updated_at = now } ∷ rs
    else r ∷ count_download key now rs

-- RecordDownloadEvent at the time `now`
unfoldable pub record_download_event : DownloadEvent → ℕ → Sql Downloads (Unit {0})
unfolding transaction ◌>>=◌ attempt event_row count_download column
record_download_event e now = transaction do
  attempt
  modify (λ (t : Downloads). record t {
    events = t.events ++ event_row e t.next_id now ∷ [];
    next_id = t.next_id + 1;
  })
  attempt
  modify (λ (t : Downloads). record t {
    stats = count_download (column e.installer_key 64) now t.stats;
  })

abbrev pub stat_of : StatRow → DownloadStat
stat_of r = record { installer_key = r.installer_key; total = r.total }

abbrev pub stats_of : List StatRow → List DownloadStat
stats_of [] = []
stats_of (r ∷ rs) = stat_of r ∷ stats_of rs

unfoldable pub list_download_stats : Sql Downloads (List DownloadStat)
unfolding ◌>>=◌ attempt
list_download_stats = do attempt; gets (λ (t : Downloads). stats_of t.stats)
