-- ===== src/Auth/RateLimiter/Sweep.antt =====
-- The limiter with and without its sweep.
use mathlib.Core.Path.{ap₂}
use zenmind_official_server.Base.{
  ℕ, ◌*◌, ◌≤◌, ◌<◌, ◌≡◌, refl, ap, ◌∙◌, Bool, All, true, false, Option, none, some, List, [], ◌∷◌,
  length, ltb, if◌then◌else◌, arith, inl, inr, Bool-cases,
}
use zenmind_official_server.Text.{Text, text_eq}
use zenmind_official_server.Dict.{lookup, IsDict}
use zenmind_official_server.Dict.Laws.{pass, lookup-keep, lookup-insert, insert-IsDict, keep-IsDict}
use zenmind_official_server.Auth.RateLimiter.{
  RateLimitEntry, RateLimiter, minute, entry_or_zero, is_recent, sweep, decide_entry, write_entry,
  admit, is_unlimited, allow, Call, run, InOrder,
}

sweep-IsDict : (now : ℕ) (l : RateLimiter) → IsDict l → IsDict (sweep now l)
unfolding sweep
sweep-IsDict now l h = elim (Bool-cases (ltb 10_000 (length l))) [
  | inl e ↦ rw e (keep-IsDict (is_recent now) l h)
  | inr e ↦ rw e h
]

write-IsDict :
    (key : Text) (o : Option RateLimitEntry) (l : RateLimiter)
    → IsDict l
    → IsDict (write_entry key o l)
write-IsDict key none l h = h
write-IsDict key (some e) l h = insert-IsDict key e l h

admit-IsDict :
    (l : RateLimiter) (key : Text) (limit window now : ℕ)
    → IsDict l
    → IsDict (admit l key limit window now).1
unfolding admit
admit-IsDict l key limit window now h = write-IsDict key _ l h

-- `allow` without the sweep, and a run of it.
unfoldable pub allow_unswept : RateLimiter → Text → ℕ → ℕ → ℕ → Bool × RateLimiter
allow_unswept l key limit window now =
    if is_unlimited key limit window then (true, l) else admit l key limit window now

unfoldable pub run_unswept : RateLimiter → List Call → List Bool
unfolding allow_unswept admit
run_unswept l [] = []
run_unswept l (c ∷ cs) =
    let (allowed, next) = allow_unswept l c.key c.limit c.window c.at in
    allowed ∷ run_unswept next cs

-- Dropping an entry that is half an hour old changes no decision over a window of at most that.
decide-pass :
    (o : Option RateLimitEntry) (limit window earlier now : ℕ)
    → earlier ≤ now
    → 0 < window
    → window ≤ 30 * minute
    → decide_entry (entry_or_zero (pass (is_recent earlier) o)) limit window now
      ≡ decide_entry (entry_or_zero o) limit window now
unfolding decide_entry
decide-pass none limit window earlier now h p w = refl
decide-pass (some e) limit window earlier now h p w = ground arith

-- From `now` on, the two limiters decide alike for windows of at most half an hour.
record Agrees (now : ℕ) (l m : RateLimiter) : Type 0 where
  at :
      (j : Text) (limit window later : ℕ)
      → now ≤ later
      → 0 < window
      → window ≤ 30 * minute
      → decide_entry (entry_or_zero (lookup j l)) limit window later
        ≡ decide_entry (entry_or_zero (lookup j m)) limit window later

sweep-Agrees :
    (now : ℕ) (l m : RateLimiter) → IsDict l → Agrees now l m → Agrees now (sweep now l) m
unfolding sweep
sweep-Agrees now l m d h = elim (Bool-cases (ltb 10_000 (length l))) [
  | inl e ↦ rw e (record {
    at = λ j limit window later le p w.
        rw (lookup-keep (is_recent now) j l d) (
          decide-pass (lookup j l) limit window now later le p w
          ∙ h.at j limit window later le p w);
  })
  | inr e ↦ rw e h
]

write-Agrees :
    (key : Text) (o : Option RateLimitEntry) (l m : RateLimiter) (earlier now : ℕ)
    → earlier ≤ now
    → Agrees earlier l m
    → Agrees now (write_entry key o l) (write_entry key o m)
write-Agrees key none l m earlier now le h = record {
  at = λ j limit window later le' p w. h.at j limit window later (omega arith) p w;
}
write-Agrees key (some e) l m earlier now le h = record {
  at = λ j limit window later le' p w.
      rw (lookup-insert key j e l, lookup-insert key j e m)
        (elim (Bool-cases (text_eq key j)) [
          | inl same ↦ rw same refl
          | inr other ↦ rw other (h.at j limit window later (omega arith) p w)
        ]);
}

admit-Agrees :
    (l m : RateLimiter) (key : Text) (limit window earlier now : ℕ)
    → earlier ≤ now
    → 0 < window
    → window ≤ 30 * minute
    → Agrees earlier l m
    → ((admit l key limit window now).0 ≡ (admit m key limit window now).0)
      × Agrees now (admit l key limit window now).1 (admit m key limit window now).1
unfolding admit
admit-Agrees l m key limit window earlier now le p w h =
    let e = h.at key limit window now le p w in
    (ap (λ r. r.0) e, rw e (write-Agrees key _ l m earlier now le h))

-- Every window of the calls is at most half an hour.
abbrev pub ShortWindows : List Call → Type 0
ShortWindows = All (λ c. c.window ≤ 30 * minute)

positive_window :
    (key : Text) (limit window : ℕ) → is_unlimited key limit window ≡ false → 0 < window
positive_window key limit window h = ground arith

step-Agrees :
    (l m : RateLimiter) (c : Call) (earlier : ℕ)
    → earlier ≤ c.at
    → c.window ≤ 30 * minute
    → IsDict l
    → Agrees earlier l m
    → ((allow l c.key c.limit c.window c.at).0 ≡ (allow_unswept m c.key c.limit c.window c.at).0)
      × IsDict (allow l c.key c.limit c.window c.at).1
      × Agrees c.at
          (allow l c.key c.limit c.window c.at).1
          (allow_unswept m c.key c.limit c.window c.at).1
unfolding allow allow_unswept
step-Agrees l m c earlier le w d h = elim (Bool-cases (is_unlimited c.key c.limit c.window)) [
  | inl free ↦ rw free (refl, d, write-Agrees c.key none l m earlier c.at le h)
  | inr paid ↦
      let p : 0 < c.window = positive_window c.key c.limit c.window paid in
      let swept = sweep-Agrees c.at l m d (write-Agrees c.key none l m earlier c.at le h) in
      let (same, later) =
        admit-Agrees (sweep c.at l) m c.key c.limit c.window c.at c.at (omega arith) p w swept in
      rw paid (
        same,
        admit-IsDict (sweep c.at l) c.key c.limit c.window c.at (sweep-IsDict c.at l d),
        later,
      )
]

run-Agrees :
    (l m : RateLimiter) (now : ℕ) (calls : List Call)
    → IsDict l
    → Agrees now l m
    → InOrder now calls
    → ShortWindows calls
    → run l calls ≡ run_unswept m calls
unfolding run run_unswept
run-Agrees l m now [] d h o w = refl
run-Agrees l m now (c ∷ cs) d h (le, o) (w, ws) =
    let (same, d', h') = step-Agrees l m c now le w d h in
    ap₂ ◌∷◌ same (
      run-Agrees (allow l c.key c.limit c.window c.at).1
        (allow_unswept m c.key c.limit c.window c.at).1 c.at cs d' h' o ws)

-- The sweep of old entries is invisible: calls whose times do not decrease and whose windows are at
-- most half an hour get the decisions that a limiter without the sweep would give.
pub run-eq-run_unswept :
    (l : RateLimiter) (now : ℕ) (calls : List Call)
    → IsDict l
    → InOrder now calls
    → ShortWindows calls
    → run l calls ≡ run_unswept l calls
run-eq-run_unswept l now calls d o w =
    run-Agrees l l now calls d (record { at = λ j limit window later le p q. refl }) o w
