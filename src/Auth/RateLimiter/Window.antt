-- ===== src/Auth/RateLimiter/Window.antt =====
-- How many calls of one key pass in one window.
use zenmind_official_server.Base.{
  ℕ, suc, ◌+◌, ◌-◌, ◌*◌, ◌≤◌, ◌<◌, ◌≡◌, refl, sym, ◌∙◌, Bool, true, false, ◌&&◌, Option, none, some,
  List, [], ◌∷◌, if◌then◌else◌, arith, inl, inr, Bool-cases, All,
}
use zenmind_official_server.Text.{Text, text_eq}
use zenmind_official_server.Text.Laws.{text_eq_iff}
use zenmind_official_server.Dict.{lookup, IsDict}
use zenmind_official_server.Dict.Laws.{lookup-insert}
use zenmind_official_server.Auth.RateLimiter.{
  RateLimitEntry, RateLimiter, minute, entry_or_zero, decide_entry, write_entry, admit,
  is_unlimited, allow, Call, run, InOrder,
}
use zenmind_official_server.Auth.RateLimiter.Sweep.{
  run_unswept, allow_unswept, run-eq-run_unswept, ShortWindows,
}

-- How many of the calls of the key were allowed.
abbrev pub granted : Text → List Call → List Bool → ℕ
granted k [] bs = 0
granted k (c ∷ cs) [] = 0
granted k (c ∷ cs) (b ∷ bs) =
    if text_eq c.key k && b then suc (granted k cs bs) else granted k cs bs

abbrev after : Option RateLimitEntry → Option RateLimitEntry → Option RateLimitEntry
after none o = o
after (some e) o = some e

-- How many more calls a window lets through.
abbrev budget : ℕ → Option RateLimitEntry → ℕ
budget limit none = limit
budget limit (some e) = limit - e.count

-- The window began at `start` or later.
abbrev BeganAt : ℕ → Option RateLimitEntry → Type 0
BeganAt start none = Unit
BeganAt start (some e) = start ≤ e.window_start

abbrev spent : Bool → ℕ
spent true = 1
spent false = 0

decide_budget :
    (o : Option RateLimitEntry) (limit window start now : ℕ)
    → BeganAt start o
    → 0 < start
    → 0 < limit
    → now < start + window
    → start ≤ now
    → BeganAt start (after (decide_entry (entry_or_zero o) limit window now).1 o)
      × (budget limit (after (decide_entry (entry_or_zero o) limit window now).1 o)
            + spent (decide_entry (entry_or_zero o) limit window now).0
          ≤ budget limit o)
unfolding decide_entry
decide_budget none limit window start now b s l h g = ground arith
decide_budget (some e) limit window start now b s l h g = ground arith

lookup-write_self :
    (k : Text) (o : Option RateLimitEntry) (l : RateLimiter)
    → lookup k (write_entry k o l) ≡ after o (lookup k l)
lookup-write_self k none l = refl
lookup-write_self k (some e) l = rw (lookup-insert k k e l) (ground (arith, text_eq_iff k k))

lookup-write_ne :
    (k j : Text) (o : Option RateLimitEntry) (l : RateLimiter)
    → text_eq k j ≡ false
    → lookup j (write_entry k o l) ≡ lookup j l
lookup-write_ne k j none l h = refl
lookup-write_ne k j (some e) l h = rw (lookup-insert k j e l) (rw h)

module _ (k : Text) (limit window start : ℕ) where
  -- The calls of the key share its limit and window, and all calls lie in one window from `start`.
  abbrev pub InWindow : List Call → Type 0
  InWindow = All λ c.
      (c.at < start + window) × (text_eq c.key k ≡ true → (c.limit ≡ limit) × (c.window ≡ window))

  other_step :
      (l : RateLimiter) (c : Call)
      → text_eq c.key k ≡ false
      → lookup k (allow_unswept l c.key c.limit c.window c.at).1 ≡ lookup k l
  unfolding allow_unswept admit
  other_step l c h = elim (Bool-cases (is_unlimited c.key c.limit c.window)) [
    | inl free ↦ rw free refl
    | inr paid ↦ rw paid (
        lookup-write_ne c.key k
          (decide_entry (entry_or_zero (lookup c.key l)) c.limit c.window c.at).1 l h)
  ]

  own_step :
      (l : RateLimiter) (c : Call)
      → is_unlimited k limit window ≡ false
      → 0 < start
      → start ≤ c.at
      → c.at < start + window
      → c.key ≡ k
      → c.limit ≡ limit
      → c.window ≡ window
      → BeganAt start (lookup k l)
      → BeganAt start (lookup k (allow_unswept l c.key c.limit c.window c.at).1)
        × (budget limit (lookup k (allow_unswept l c.key c.limit c.window c.at).1)
              + spent (allow_unswept l c.key c.limit c.window c.at).0
            ≤ budget limit (lookup k l))
  unfolding allow_unswept admit
  own_step l c paid s g short ek el ew b =
      rw (ek, el, ew)
        (rw paid (
          rw (lookup-write_self k (decide_entry (entry_or_zero (lookup k l)) limit window c.at).1 l)
            (decide_budget (lookup k l) limit window start c.at b s (ground arith) short g)))

  unswept_bound :
      (l : RateLimiter) (now : ℕ) (calls : List Call)
      → is_unlimited k limit window ≡ false
      → 0 < start
      → start ≤ now
      → InOrder now calls
      → InWindow calls
      → BeganAt start (lookup k l)
      → granted k calls (run_unswept l calls) ≤ budget limit (lookup k l)
  unfolding run_unswept
  unswept_bound l now [] paid s g o w b = omega arith
  unswept_bound l now (c ∷ cs) paid s g (le, o) ((short, same), w) b =
      let next = (allow_unswept l c.key c.limit c.window c.at).1 in
      elim (Bool-cases (text_eq c.key k)) [
        | inl own ↦ rw own (
            let (el, ew) = same own in
            let (b', fits) =
              own_step l c paid s (omega arith) short ((text_eq_iff c.key k).0 own) el ew b in
            let rest = unswept_bound next c.at cs paid s (omega arith) o w b' in ground arith)
        | inr other ↦
            let e = other_step l c other in
            let rest = unswept_bound next c.at cs paid s (omega arith) o w (rw e b) in
            rw other (rw (← e) rest)
      ]

-- In one window the limiter lets a key through at most `limit` times: of the calls at the times
-- `start <= t < start + window`, in any order of keys, on a limiter that has no entry for the key,
-- at most `limit` calls of the key are allowed.
pub run_window_bound :
    (l : RateLimiter) (k : Text) (limit window start : ℕ) (calls : List Call)
    → IsDict l
    → lookup k l ≡ none
    → is_unlimited k limit window ≡ false
    → 0 < start
    → InOrder start calls
    → InWindow k limit window start calls
    → ShortWindows calls
    → granted k calls (run l calls) ≤ limit
run_window_bound l k limit window start calls d fresh paid s o w short =
    rw (run-eq-run_unswept l start calls d o short) (
      let r =
        unswept_bound k limit window start l start calls paid s (omega arith) o w (rw fresh tt) in
      rw fresh at r)

-- Two calls in a row decide as they do without the sweep.
second_call :
    (l : RateLimiter) (b c : Call)
    → IsDict l
    → b.at ≤ c.at
    → b.window ≤ 30 * minute
    → c.window ≤ 30 * minute
    → ((allow l b.key b.limit b.window b.at).0 ≡ (allow_unswept l b.key b.limit b.window b.at).0)
      × ((allow (allow l b.key b.limit b.window b.at).1 c.key c.limit c.window c.at).0
          ≡ (allow_unswept
              (allow_unswept l b.key b.limit b.window b.at).1
              c.key
              c.limit
              c.window
              c.at).0)
unfolding run run_unswept
second_call l b c d le w v =
    let e = run-eq-run_unswept l b.at (b ∷ c ∷ []) d (omega arith, (le, tt)) (w, (v, tt)) in
    (cc (e), cc (e))

refused_writes_nothing :
    (e : RateLimitEntry) (limit window now : ℕ)
    → (decide_entry e limit window now).0 ≡ false
    → (decide_entry e limit window now).1 ≡ none
unfolding decide_entry
refused_writes_nothing e limit window now h = ground arith

past_window :
    (e : RateLimitEntry) (limit window later : ℕ)
    → e.window_start + window ≤ later
    → (decide_entry e limit window later).0 ≡ true
unfolding decide_entry
past_window e limit window later h = ground arith

unswept_again :
    (l : RateLimiter) (k : Text) (limit window now later : ℕ) (e : RateLimitEntry)
    → lookup k l ≡ some e
    → (allow_unswept l k limit window now).0 ≡ false
    → e.window_start + window ≤ later
    → (allow_unswept (allow_unswept l k limit window now).1 k limit window later).0 ≡ true
unfolding allow_unswept admit
unswept_again l k limit window now later e h refused past =
    elim (Bool-cases (is_unlimited k limit window)) [
      | inl free ↦ rw free refl
      | inr paid ↦
          rw (paid, h)
            (rw (refused_writes_nothing e limit window now (rw (paid, h) at refused))
              (rw h (past_window e limit window later past)))
    ]

-- After the end of its window a key that was refused is allowed again: refusals do not extend the
-- window.
pub allow_again :
    (l : RateLimiter) (k : Text) (limit window now later : ℕ) (e : RateLimitEntry)
    → IsDict l
    → lookup k l ≡ some e
    → window ≤ 30 * minute
    → now ≤ later
    → (allow l k limit window now).0 ≡ false
    → e.window_start + window ≤ later
    → (allow (allow l k limit window now).1 k limit window later).0 ≡ true
allow_again l k limit window now later e d h w le refused past =
    let b : Call = record { key = k; limit = limit; window = window; at = now } in
    let c : Call = record { key = k; limit = limit; window = window; at = later } in
    let (first, second) = second_call l b c d le w w in
    second ∙ unswept_again l k limit window now later e h (sym first ∙ refused) past
