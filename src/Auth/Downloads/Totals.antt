-- ===== src/Auth/Downloads/Totals.antt =====
-- What downloadStats answers after any requests of downloadEvent.
use zenmind_official_server.Base.{
  ℕ, ◌+◌, ◌≡◌, refl, sym, ap, ◌∙◌, Bool, true, false, ◌&&◌, Option, none, some, List, [], ◌∷◌, ◌⊎◌,
  inl, inr, arith, once, All, Bool-cases, Option-cases,
}
use zenmind_official_server.Text.{Text, text, text_eq, trim_space}
use zenmind_official_server.Dict.{Dict, lookup}
use zenmind_official_server.Sqlite.{Conn}
use zenmind_official_server.Auth.Store.Table.{count}
use zenmind_official_server.Auth.Server.Defs.{Outside, Config, Request}
use zenmind_official_server.Auth.Server.Requests.{request_ip}
use zenmind_official_server.Auth.Downloads.{
  DownloadEvent, Downloads, column, stats_of, record_download_event,
}
use zenmind_official_server.Auth.Downloads.Handlers.{
  DownloadEventRequest, DownloadReply, accepted, totals_reply, failure, allowed_installer_key,
  download_event, download_event_from_request, after_record, add_totals, no_totals, stats_reply,
  download_stats,
}
use zenmind_official_server.Auth.Downloads.Laws.{
  total_of, has_key, is_some, IsTallied, record-IsTallied, total_of-record, IsBounded,
  record-IsBounded,
}
use zenmind_official_server.Auth.Downloads.Answers.{
  add_totals-total, column_allowed, lookup_zero, list-cases,
}

pub record Call : Type 0 where
  pub request : Request
  pub body : Option DownloadEventRequest
  pub now : ℕ

abbrev is_accepted : DownloadReply → Bool
is_accepted accepted = true
is_accepted _ = false

abbrev is_for : Text → Option DownloadEventRequest → Bool
is_for k none = false
is_for k (some req) = text_eq (trim_space req.installer_key) k

-- What the answer of downloadStats says of an installer.
abbrev pub Says : DownloadReply → Text → ℕ → Type 0
Says r k n = (totals : Dict ℕ) × (r ≡ totals_reply totals) × (lookup k totals ≡ some n)

abbrev pub no_downloads : List Bool → Conn Downloads
no_downloads faults = record {
  tables = record { events = []; stats = []; next_id = 1 };
  faults = faults;
}

module _ (out : Outside) (cfg : Config) where
  abbrev pub serve : Call → Conn Downloads → DownloadReply × Conn Downloads
  serve x = download_event out cfg x.request x.body x.now

  pub serve_all : List Call → Conn Downloads → Conn Downloads
  serve_all [] c = c
  serve_all (x ∷ xs) c = serve_all xs (serve x c).1

  -- How many of the requests report a download of the installer and are accepted.
  unfoldable pub accepted_count : Text → List Call → Conn Downloads → ℕ
  accepted_count k [] c = 0
  accepted_count k (x ∷ xs) c =
      once (is_accepted (serve x c).0 && is_for k x.body) + accepted_count k xs (serve x c).1

  -- The event of a request.
  event_of : Call → DownloadEventRequest → DownloadEvent
  event_of x req =
      record (download_event_from_request out x.request (trim_space req.installer_key) req.version
        x.now) { client_ip = request_ip out cfg x.request }

  -- A request is refused, or its event goes to the store.
  serve-cases :
      (x : Call) (c : Conn Downloads)
      → ((is_accepted (serve x c).0 ≡ false) × ((serve x c).1 ≡ c))
        ⊎ ((req : DownloadEventRequest) × (x.body ≡ some req)
            × (allowed_installer_key (trim_space req.installer_key) ≡ true)
            × (serve x c ≡ (
              after_record (record_download_event (event_of x req) x.now c).0,
              (record_download_event (event_of x req) x.now c).1,
            )))
  unfolding download_event event_of
  serve-cases x c = elim (Option-cases x.body) [
    | inl none_sent ↦ inl (rw none_sent (refl, refl))
    | inr (req, e) ↦ elim (Bool-cases (allowed_installer_key (trim_space req.installer_key))) [
      | inr strange ↦ inl (rw (e, strange) (refl, refl))
      | inl good ↦ inr (req, e, good, rw (e, good) refl)
    ]
  ]

  is_accepted-after_record : (r : Option (Unit {0})) → is_accepted (after_record r) ≡ is_some r
  unfolding after_record
  is_accepted-after_record none = refl
  is_accepted-after_record (some u) = refl

  event_of-key :
      (x : Call) (req : DownloadEventRequest)
      → allowed_installer_key (trim_space req.installer_key) ≡ true
      → column (event_of x req).installer_key 64 ≡ trim_space req.installer_key
  unfolding event_of download_event_from_request
  event_of-key x req a = column_allowed (trim_space req.installer_key) a

  serve-total :
      (k : Text) (x : Call) (c : Conn Downloads)
      → total_of k (serve x c).1.tables.stats
        ≡ total_of k c.tables.stats + once (is_accepted (serve x c).0 && is_for k x.body)
  unfolding event_of
  serve-total k x c = elim (serve-cases x c) [
    | inl (refused, same) ↦ rw (refused, same) (omega arith)
    | inr (req, e, a, run) ↦ rw run (
        rw (is_accepted-after_record, e)
          (total_of-record k (event_of x req) x.now c ∙ (rw (event_of-key x req a) refl)))
  ]

  serve-IsTallied :
      (x : Call) (c : Conn Downloads) → IsTallied c.tables → IsTallied (serve x c).1.tables
  serve-IsTallied x c h = elim (serve-cases x c) [
    | inl (refused, same) ↦ rw same h
    | inr (req, e, a, run) ↦ rw run (record-IsTallied (event_of x req) x.now c h)
  ]

  serve-IsBounded :
      (x : Call) (c : Conn Downloads)
      → All IsBounded c.tables.events
      → All IsBounded (serve x c).1.tables.events
  serve-IsBounded x c h = elim (serve-cases x c) [
    | inl (refused, same) ↦ rw same h
    | inr (req, e, a, run) ↦ rw run (record-IsBounded (event_of x req) x.now c h)
  ]

  serve_all-total :
      (k : Text) (xs : List Call) (c : Conn Downloads)
      → total_of k (serve_all xs c).tables.stats ≡ total_of k c.tables.stats + accepted_count k xs c
  unfolding serve_all accepted_count
  serve_all-total k [] c = omega arith
  serve_all-total k (x ∷ xs) c =
      omega (arith, serve-total k x c, serve_all-total k xs (serve x c).1)

  serve_all-IsTallied :
      (xs : List Call) (c : Conn Downloads) → IsTallied c.tables → IsTallied (serve_all xs c).tables
  unfolding serve_all
  serve_all-IsTallied [] c h = h
  serve_all-IsTallied (x ∷ xs) c h = serve_all-IsTallied xs (serve x c).1 (serve-IsTallied x c h)

  -- The statistics count the accepted events: from empty tables, after any requests of
  -- downloadEvent, whatever calls of the driver fail, downloadStats fails, or answers for mac and
  -- for windows with the number of the requests that reported a download of this installer and
  -- were accepted, which is the number of its rows in the table `download`.
  pub download_stats_counts :
      (k : Text) (xs : List Call) (faults : List Bool)
      → allowed_installer_key k ≡ true
      → let c = serve_all xs (no_downloads faults) in
        ((download_stats c).0 ≡ failure 500 (text "server_error"))
        ⊎ (Says (download_stats c).0 k (accepted_count k xs (no_downloads faults))
            × (count (has_key k) c.tables.events ≡ accepted_count k xs (no_downloads faults)))
  unfolding download_stats stats_reply count
  download_stats_counts k xs faults a =
      let c = serve_all xs (no_downloads faults) in
      let total : total_of k c.tables.stats ≡ accepted_count k xs (no_downloads faults) =
        omega (arith, serve_all-total k xs (no_downloads faults)) in
      let (distinct, tally) = serve_all-IsTallied xs (no_downloads faults) (tt, λ k. refl) in
      elim (list-cases c) [
        | inl failed ↦ inl (rw failed refl)
        | inr listed ↦ inr (
          (
            add_totals (stats_of c.tables.stats) no_totals,
            rw listed refl,
            add_totals-total k c.tables.stats _ a distinct (lookup_zero k a)
                ∙ ap (λ n. some n) total,
          ),
          sym (tally k) ∙ total,
        )
      ]

  -- Every row of the table `download` fits the sizes of its columns: after any requests of
  -- downloadEvent on rows that do, whatever calls of the driver fail.
  pub serve_all-IsBounded :
      (xs : List Call) (c : Conn Downloads)
      → All IsBounded c.tables.events
      → All IsBounded (serve_all xs c).tables.events
  unfolding serve_all
  serve_all-IsBounded [] c h = h
  serve_all-IsBounded (x ∷ xs) c h = serve_all-IsBounded xs (serve x c).1 (serve-IsBounded x c h)
