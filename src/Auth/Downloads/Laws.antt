-- ===== src/Auth/Downloads/Laws.antt =====
-- The totals of the downloads against the events that were accepted.
use zenmind_official_server.Base.{
  ℕ, ◌+◌, ◌≤◌, ◌≡◌, Bool, true, false, ◌&&◌, Option, none, some, List, [], ◌∷◌, ◌++◌, ◌⊎◌, inl, inr,
  if◌then◌else◌, arith, once, length, All, All-append, Bool-cases,
}
use zenmind_official_server.Text.{Text, text_eq, trim_space}
use zenmind_official_server.Text.Laws.{text_eq_iff, truncate-length}
use zenmind_official_server.Sqlite.{Conn, ◌>>=◌, attempt, transaction}
use zenmind_official_server.Auth.Store.Table.{count}
use zenmind_official_server.Auth.Store.Table.Laws.{count-append}
use zenmind_official_server.Auth.Downloads.{
  DownloadEvent, StatRow, Downloads, column, event_row, count_download, record_download_event,
}

-- The total of a key, 0 without a row.
abbrev pub total_of : Text → List StatRow → ℕ
total_of k [] = 0
total_of k (r ∷ rs) = if text_eq r.installer_key k then r.total else total_of k rs

abbrev pub is_some : Option (Unit {0}) → Bool
is_some none = false
is_some (some u) = true

abbrev pub has_key : Text → DownloadEvent → Bool
has_key k e = text_eq e.installer_key k

-- No key stands twice.
abbrev Lacks : Text → List StatRow → Type 0
Lacks k rs = All (λ (r : StatRow). text_eq r.installer_key k ≡ false) rs

abbrev pub IsDistinct : List StatRow → Type 0
IsDistinct [] = Unit
IsDistinct (r ∷ rs) = Lacks r.installer_key rs × IsDistinct rs

total_of-count_download :
    (k key : Text) (now : ℕ) (rs : List StatRow)
    → total_of k (count_download key now rs) ≡ total_of k rs + once (text_eq key k)
unfolding count_download
total_of-count_download k key now [] = ground arith
total_of-count_download k key now (r ∷ rs) = ground (
  arith,
  text_eq_iff r.installer_key key,
  text_eq_iff r.installer_key k,
  text_eq_iff key k,
  total_of-count_download k key now rs,
)

count_download-Lacks :
    (k key : Text) (now : ℕ) (rs : List StatRow)
    → text_eq key k ≡ false
    → Lacks k rs
    → Lacks k (count_download key now rs)
unfolding count_download
count_download-Lacks k key now [] e h = (e, tt)
count_download-Lacks k key now (r ∷ rs) e h = elim (Bool-cases (text_eq r.installer_key key)) [
  | inl same ↦ rw same h
  | inr other ↦ rw other (h.0, count_download-Lacks k key now rs e h.1)
]

count_download-IsDistinct :
    (key : Text) (now : ℕ) (rs : List StatRow)
    → IsDistinct rs
    → IsDistinct (count_download key now rs)
unfolding count_download
count_download-IsDistinct key now [] h = (tt, tt)
count_download-IsDistinct key now (r ∷ rs) h = elim (Bool-cases (text_eq r.installer_key key)) [
  | inl same ↦ rw same h
  | inr other ↦ rw other (
    count_download-Lacks r.installer_key key now rs
        (ground (arith, text_eq_iff r.installer_key key, text_eq_iff key r.installer_key)) h.0,
    count_download-IsDistinct key now rs h.1,
  )
]

count-append_one :
    (k : Text) (es : List DownloadEvent) (e : DownloadEvent)
    → count (has_key k) (es ++ e ∷ []) ≡ count (has_key k) es + once (text_eq e.installer_key k)
unfolding count
count-append_one k es e = ground (arith, count-append (has_key k) es (e ∷ []))

-- What a call that returns has written, and that one that fails has written nothing.
pub record-cases :
    (e : DownloadEvent) (now : ℕ) (c : Conn Downloads)
    → let (r, c') = record_download_event e now c in
      ((r ≡ none) × (c'.tables ≡ c.tables))
      ⊎ ((r ≡ some tt)
          × (c'.tables.events ≡ c.tables.events ++ event_row e c.tables.next_id now ∷ [])
          × (c'.tables.stats ≡ count_download (column e.installer_key 64) now c.tables.stats))
unfolding record_download_event transaction ◌>>=◌ attempt
record-cases e now c = ground arith

-- The totals are the numbers of the rows, under every key, and every key has one total.
abbrev pub IsTallied : Downloads → Type 0
IsTallied t = IsDistinct t.stats × ((k : Text) → total_of k t.stats ≡ count (has_key k) t.events)

-- A call adds one to the total of its key if it returns, and keeps the tables in step.
pub record-IsTallied :
    (e : DownloadEvent) (now : ℕ) (c : Conn Downloads)
    → IsTallied c.tables
    → IsTallied (record_download_event e now c).1.tables
unfolding event_row
record-IsTallied e now c (distinct, tally) =
    let after = (record_download_event e now c).1.tables in
    elim (record-cases e now c) [
      | inl (_, same) ↦ rw same (distinct, tally)
      | inr (_, events, stats) ↦ (
        rw stats
            (count_download-IsDistinct (column e.installer_key 64) now c.tables.stats distinct),
        λ k.
            rw (stats, events)
              (ground (
                arith,
                tally k,
                total_of-count_download k (column e.installer_key 64) now c.tables.stats,
                count-append_one k c.tables.events (event_row e c.tables.next_id now),
              )),
      )
    ]

pub total_of-record :
    (k : Text) (e : DownloadEvent) (now : ℕ) (c : Conn Downloads)
    → total_of k (record_download_event e now c).1.tables.stats
      ≡ total_of k c.tables.stats
        + once (is_some (record_download_event e now c).0 && text_eq (column e.installer_key 64) k)
total_of-record k e now c = elim (record-cases e now c) [
  | inl (failed, same) ↦ rw (failed, same) (omega arith)
  | inr (good, events, stats) ↦
      rw (good, stats) (total_of-count_download k (column e.installer_key 64) now c.tables.stats)
]

-- The columns of a row fit the sizes that the code truncates to.
abbrev pub IsBounded : DownloadEvent → Type 0
IsBounded e =
    (length e.installer_key ≤ 64)
    × (length e.version ≤ 32)
    × (length e.client_ip ≤ 64)
    × (length e.remote_addr ≤ 128)
    × (length e.x_forwarded_for ≤ 1024)
    × (length e.x_real_ip ≤ 64)
    × (length e.user_agent ≤ 512)
    × (length e.referer ≤ 1024)
    × (length e.accept_language ≤ 256)

column-length : (s : Text) (n : ℕ) → length (column s n) ≤ n
unfolding column
column-length s n = truncate-length (trim_space s) n

event_row-IsBounded : (e : DownloadEvent) (id now : ℕ) → IsBounded (event_row e id now)
unfolding event_row
event_row-IsBounded e id now = (
  column-length e.installer_key 64,
  column-length e.version 32,
  column-length e.client_ip 64,
  column-length e.remote_addr 128,
  column-length e.x_forwarded_for 1024,
  column-length e.x_real_ip 64,
  column-length e.user_agent 512,
  column-length e.referer 1024,
  column-length e.accept_language 256,
)

pub record-IsBounded :
    (e : DownloadEvent) (now : ℕ) (c : Conn Downloads)
    → All IsBounded c.tables.events
    → All IsBounded (record_download_event e now c).1.tables.events
record-IsBounded e now c h = elim (record-cases e now c) [
  | inl (_, same) ↦ rw same h
  | inr (_, events, _) ↦
      rw events (All-append IsBounded _ _ h (event_row-IsBounded e c.tables.next_id now, tt))
]
