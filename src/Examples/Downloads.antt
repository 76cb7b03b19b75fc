-- ===== src/Examples/Downloads.antt =====
-- internal/auth/download_store.go: requests that report downloads.
use zenmind_official_server.Base.{◌≡◌, refl, ◌⊎◌, true, false, some, none, [], ◌∷◌, List, Bool, All}
use zenmind_official_server.Text.{text, text_eq}
use zenmind_official_server.Auth.Store.Table.{count}
use zenmind_official_server.Auth.Downloads.Handlers.{
  failure, allowed_installer_key, download_event, download_stats,
}
use zenmind_official_server.Auth.Downloads.Laws.{has_key, IsBounded}
use zenmind_official_server.Auth.Downloads.Totals.{
  Call, serve_all, accepted_count, no_downloads, Says, download_stats_counts, serve_all-IsBounded,
}
use zenmind_official_server.Examples.Handlers.{outside, config, request}

-- Two downloads of mac, an unknown installer, and a body that is no JSON.
abbrev calls : List Call
calls =
    record {
      request = request;
      body = some (record { installer_key = text " mac "; version = text "1" });
      now = 5;
    }
    ∷ record {
      request = request;
      body = some (record { installer_key = text "linux"; version = text "1" });
      now = 6;
    }
    ∷ record { request = request; body = none; now = 7 }
    ∷ record {
      request = request;
      body = some (record { installer_key = text "mac"; version = text "2" });
      now = 8;
    }
    ∷ record {
      request = request;
      body = some (record { installer_key = text "mac"; version = text "2" });
      now = 9;
    }
    ∷ []

-- The third event fails at its second statement.
abbrev faults : List Bool
faults = false ∷ false ∷ false ∷ false ∷ false ∷ false ∷ false ∷ false ∷ false ∷ false ∷ true ∷ []

two_accepted : accepted_count outside config (text "mac") calls (no_downloads faults) ≡ 2
unfolding accepted_count allowed_installer_key download_event text text_eq
two_accepted = refl

allowed : allowed_installer_key (text "mac") ≡ true
unfolding allowed_installer_key text text_eq
allowed = refl

download_stats_counts_example :
    let c = serve_all outside config calls (no_downloads faults) in
    ((download_stats c).0 ≡ failure 500 (text "server_error"))
    ⊎ (Says
          (download_stats c).0
          (text "mac")
          (accepted_count outside config (text "mac") calls (no_downloads faults))
        × (count (has_key (text "mac")) c.tables.events
            ≡ accepted_count outside config (text "mac") calls (no_downloads faults)))
download_stats_counts_example =
    download_stats_counts outside config (text "mac") calls faults allowed

serve_all-IsBounded_example :
    All IsBounded (serve_all outside config calls (no_downloads faults)).tables.events
serve_all-IsBounded_example = serve_all-IsBounded outside config calls (no_downloads faults) tt
