-- ===== src/Auth/RateLimiter.antt =====
-- internal/auth/request_security.go: the fixed-window rate limiter. Times and durations are counted
-- in nanoseconds from the zero time; every call holds the mutex, so a call is one step.
pub mod Window
pub mod Sweep
use zenmind_official_server.Base.{
  ℕ, ◌+◌, ◌-◌, ◌*◌, ◌≤◌, Bool, true, false, ◌&&◌, ◌||◌, Option, none, some, List, [], ◌∷◌, length,
  leb, ltb, ◌==◌, if◌then◌else◌,
}
use zenmind_official_server.Text.{Text, is_blank}
use zenmind_official_server.Dict.{Dict, lookup, insert, keep}

pub record RateLimitEntry : Type 0 where
  pub count : ℕ
  pub window_start : ℕ

abbrev pub RateLimiter : Type 0
RateLimiter = Dict RateLimitEntry

abbrev pub minute : ℕ
minute = 60 * 1_000_000_000

abbrev pub new_rate_limiter : RateLimiter
new_rate_limiter = []

-- `l.entries[key]`, the zero entry for a missing key
abbrev pub entry_or_zero : Option RateLimitEntry → RateLimitEntry
entry_or_zero none = record { count = 0; window_start = 0 }
entry_or_zero (some e) = e

abbrev pub is_recent : ℕ → RateLimitEntry → Bool
is_recent now entry = ltb (now - entry.window_start) (30 * minute)

-- The entries are swept when there are more than ten thousand.
unfoldable pub sweep : ℕ → RateLimiter → RateLimiter
unfolding keep
sweep now entries = if ltb 10_000 (length entries) then keep (is_recent now) entries else entries

-- The decision of `allow`, and the entry that it writes back, if it writes one.
unfoldable pub decide_entry : RateLimitEntry → ℕ → ℕ → ℕ → Bool × Option RateLimitEntry
decide_entry entry limit window now =
    if entry.window_start == 0 || leb window (now - entry.window_start)
    then (true, some (record { count = 1; window_start = now }))
    else if leb limit entry.count
    then (false, none)
    else (true, some (record entry { count = entry.count + 1 }))

abbrev pub write_entry : Text → Option RateLimitEntry → RateLimiter → RateLimiter
write_entry key none entries = entries
write_entry key (some entry) entries = insert key entry entries

-- What is left of `allow` after the guard and the sweep.
unfoldable pub admit : RateLimiter → Text → ℕ → ℕ → ℕ → Bool × RateLimiter
unfolding decide_entry lookup insert
admit entries key limit window now =
    let (allowed, written) = decide_entry (entry_or_zero (lookup key entries)) limit window now in
    (allowed, write_entry key written entries)

abbrev pub is_unlimited : Text → ℕ → ℕ → Bool
is_unlimited key limit window = is_blank key || limit == 0 || window == 0

unfoldable pub allow : RateLimiter → Text → ℕ → ℕ → ℕ → Bool × RateLimiter
unfolding admit sweep is_blank
allow entries key limit window now =
    if is_unlimited key limit window
    then (true, entries)
    else admit (sweep now entries) key limit window now

-- Several calls in a row, with their decisions.
pub record Call : Type 0 where
  pub key : Text
  pub limit : ℕ
  pub window : ℕ
  pub at : ℕ

unfoldable pub run : RateLimiter → List Call → List Bool
unfolding allow
run l [] = []
run l (c ∷ cs) = let (allowed, next) = allow l c.key c.limit c.window c.at in allowed ∷ run next cs

-- The calls come in the order of their times, from `now` on.
abbrev pub InOrder : ℕ → List Call → Type 0
InOrder now [] = Unit
InOrder now (c ∷ cs) = (now ≤ c.at) × InOrder c.at cs
