-- ===== src/Auth/Downloads/Answers.antt =====
-- What the answer of downloadStats takes from the rows.
use zenmind_official_server.Base.{
  ℕ, ◌≡◌, refl, sym, ◌∙◌, true, false, none, some, List, [], ◌∷◌, ◌⊎◌, inl, inr, if◌then◌else◌,
  arith, All, Bool-cases,
}
use zenmind_official_server.Text.{Text, text, text_eq, trim_space, truncate}
use zenmind_official_server.Text.Laws.{text_eq_iff}
use zenmind_official_server.Dict.{Dict, lookup}
use zenmind_official_server.Dict.Laws.{lookup-insert}
use zenmind_official_server.Sqlite.{Conn, ◌>>=◌, attempt}
use zenmind_official_server.Auth.Downloads.{
  DownloadStat, StatRow, Downloads, column, stat_of, stats_of, list_download_stats,
}
use zenmind_official_server.Auth.Downloads.Handlers.{
  allowed_installer_key, add_total, add_totals, no_totals,
}
use zenmind_official_server.Auth.Downloads.Laws.{total_of, IsDistinct}

lookup-add_total :
    (k : Text) (s : DownloadStat) (totals : Dict ℕ)
    → allowed_installer_key k ≡ true
    → lookup k (add_total s totals)
      ≡ (if text_eq s.installer_key k then some s.total else lookup k totals)
unfolding add_total
lookup-add_total k s totals a = elim (Bool-cases (allowed_installer_key s.installer_key)) [
  | inl good ↦ rw good (lookup-insert s.installer_key k s.total totals)
  | inr strange ↦ rw strange (ground (arith, text_eq_iff s.installer_key k))
]

add_totals-Lacks :
    (k : Text) (rs : List StatRow) (totals : Dict ℕ)
    → allowed_installer_key k ≡ true
    → All (λ (r : StatRow). text_eq r.installer_key k ≡ false) rs
    → lookup k (add_totals (stats_of rs) totals) ≡ lookup k totals
unfolding add_totals
add_totals-Lacks k [] totals a h = refl
add_totals-Lacks k (r ∷ rs) totals a h =
    add_totals-Lacks k rs (add_total (stat_of r) totals) a h.1
    ∙ (lookup-add_total k (stat_of r) totals a ∙ (rw (h.0) refl))

-- The answer has the total of every key that it starts with at 0.
pub add_totals-total :
    (k : Text) (rs : List StatRow) (totals : Dict ℕ)
    → allowed_installer_key k ≡ true
    → IsDistinct rs
    → lookup k totals ≡ some 0
    → lookup k (add_totals (stats_of rs) totals) ≡ some (total_of k rs)
unfolding add_totals
add_totals-total k [] totals a d z = z
add_totals-total k (r ∷ rs) totals a d z = elim (Bool-cases (text_eq r.installer_key k)) [
  | inl same ↦
      let e : k ≡ r.installer_key = sym ((text_eq_iff r.installer_key k).0 same) in
      rw same (
        add_totals-Lacks k rs (add_total (stat_of r) totals) a (rw e d.0)
        ∙ (lookup-add_total k (stat_of r) totals a ∙ (rw same refl)))
  | inr other ↦ rw other (
      add_totals-total k rs (add_total (stat_of r) totals) a d.1
        (lookup-add_total k (stat_of r) totals a ∙ (rw other z)))
]

column_mac : column (text "mac") 64 ≡ text "mac"
unfolding column truncate trim_space text
column_mac = refl

column_windows : column (text "windows") 64 ≡ text "windows"
unfolding column truncate trim_space text
column_windows = refl

pub lookup_zero : (k : Text) → allowed_installer_key k ≡ true → lookup k no_totals ≡ some 0
unfolding allowed_installer_key lookup
lookup_zero k h = ground (
  arith,
  text_eq_iff k (text "mac"),
  text_eq_iff (text "mac") k,
  text_eq_iff k (text "windows"),
  text_eq_iff (text "windows") k,
)

pub list-cases :
    (c : Conn Downloads)
    → ((list_download_stats c).0 ≡ none)
      ⊎ ((list_download_stats c).0 ≡ some (stats_of c.tables.stats))
unfolding list_download_stats ◌>>=◌ attempt
list-cases c = ground arith

-- The key of an event that is let through is stored as it is.
pub column_allowed : (k : Text) → allowed_installer_key k ≡ true → column k 64 ≡ k
unfolding allowed_installer_key
column_allowed k h = elim (Bool-cases (text_eq k (text "mac"))) [
  | inl mac ↦ let e : k ≡ text "mac" = (text_eq_iff k (text "mac")).0 mac in rw e column_mac
  | inr other ↦
      let e : k ≡ text "windows" = (text_eq_iff k (text "windows")).0 (ground arith) in
      rw e column_windows
]
