-- ===== src/Auth/Store/History/Acceptance.antt =====
-- Which code a verification accepts, over any sequence of calls.
use zenmind_official_server.Base.{
  ℕ, ◌+◌, ◌≤◌, ◌≡◌, refl, Bool, false, not, ◌&&◌, Option, none, some, List, [], ◌∷◌, ◌++◌, ◌==◌,
  ltb, ◌⊎◌, inl, inr, arith, once, Bool-cases, Option-cases,
}
use zenmind_official_server.Text.{Text, normalize_email}
use zenmind_official_server.Auth.Store.Defs.{EmailCodeRow, Db, Collation}
use zenmind_official_server.Auth.Store.Monad.{World, is_ok, attempt, transaction, ◌>>=◌}
use zenmind_official_server.Auth.Store.Table.{update, count, is_none}
use zenmind_official_server.Auth.Store.Table.Laws.{
  count-append, count-update_drop, count_mono, find_newest-holds,
}
use zenmind_official_server.Auth.Store.Codes.{
  save_email_code, new_code, is_pending, consume_code, consume_email_code_body, consume_email_code,
}
use zenmind_official_server.Auth.Store.Codes.Laws.{newest, consume_none, consume_some}
use zenmind_official_server.Auth.Store.History.{
  Op, op_save_code, op_consume_code, perform, Event, world_at,
}
use zenmind_official_server.Auth.Store.History.Frames.{codes-perform, next_code_id-perform}

abbrev pub has_id : ℕ → Option EmailCodeRow → Bool
has_id id none = false
has_id id (some r) = r.id == id

abbrev is_live : ℕ → EmailCodeRow → Bool
is_live id r = r.id == id && is_none r.consumed_at

module _ (c : Collation) (id : ℕ) where
  -- Whether the call accepts the code with the id: it succeeds, and the code is the newest one of
  -- the address that is not consumed, against which ConsumeEmailCode checks.
  abbrev pub accepts : Op → World → Bool
  accepts (op_consume_code email hash now) w =
      is_ok (consume_email_code c email hash now w).0
      && has_id id (newest c (normalize_email email) w.db)
  accepts _ w = false

  -- How many of the calls accept the code.
  abbrev pub acceptances : Db → List Event → ℕ
  acceptances db [] = 0
  acceptances db (e ∷ es) =
      once (accepts e.op (world_at db e)) + acceptances (perform c e.op (world_at db e)).1 es

  -- The code can be accepted: it stands in the table, or it is still to be saved.
  abbrev credit : List EmailCodeRow → ℕ → ℕ
  credit rows next = count (is_live id) rows + once (not (ltb id next))

  save_cases :
      (email hash : Text) (expires : ℕ) (w : World)
      → (((save_email_code email hash expires w).1.db.email_codes ≡ w.db.email_codes)
          × ((save_email_code email hash expires w).1.db.next_code_id ≡ w.db.next_code_id))
        ⊎ (((save_email_code email hash expires w).1.db.email_codes
              ≡ w.db.email_codes ++ new_code w.db.next_code_id email hash expires w.clock ∷ [])
            × ((save_email_code email hash expires w).1.db.next_code_id ≡ w.db.next_code_id + 1))
  unfolding save_email_code attempt ◌>>=◌
  save_cases email hash expires w = ground arith

  save_pays :
      (email hash : Text) (expires : ℕ) (w : World)
      → let db = (save_email_code email hash expires w).1.db in
        credit db.email_codes db.next_code_id ≤ credit w.db.email_codes w.db.next_code_id
  unfolding count
  save_pays email hash expires w = elim (save_cases email hash expires w) [
    | inl (same, next) ↦ rw (same, next) (omega arith)
    | inr (added, next) ↦
        rw (added, next)
          (rw
            (count-append (is_live id) w.db.email_codes
              (new_code w.db.next_code_id email hash expires w.clock ∷ []))
            (ground arith))
  ]

  consume-next_id :
      (email hash : Text) (now : ℕ) (w : World)
      → (consume_email_code c email hash now w).1.db.next_code_id ≡ w.db.next_code_id
  unfolding consume_email_code consume_email_code_body transaction attempt ◌>>=◌
  consume-next_id email hash now w = ground arith

  -- Marking the newest code costs it its credit.
  marked :
      (email : Text) (now : ℕ) (w : World) (r : EmailCodeRow)
      → newest c email w.db ≡ some r
      → count (is_live id) (update (λ s. s.id == r.id) (consume_code c now) w.db.email_codes)
          + once (r.id == id)
        ≤ count (is_live id) w.db.email_codes
  marked email now w r h =
      let drop =
        count-update_drop (λ s. s.id == r.id) (is_live id) (consume_code c now) w.db.email_codes
          (λ s. ground arith) in
      let hit =
        find_newest-holds (is_pending c email) (λ s. s.id == r.id) (λ s. s.created_at)
          w.db.email_codes r h (ground arith) in
      elim (Bool-cases (r.id == id)) [
        | inl e ↦
            let more =
              count_mono (λ s. s.id == r.id && is_pending c email s)
                (λ s. s.id == r.id && is_live id s) w.db.email_codes (λ s o. ground (arith, e)) in
            rw e (omega arith)
        | inr e ↦ rw e (omega arith)
      ]

  consume_pays :
      (email hash : Text) (now : ℕ) (w : World)
      → count (is_live id) (consume_email_code c email hash now w).1.db.email_codes
          + once (accepts (op_consume_code email hash now) w)
        ≤ count (is_live id) w.db.email_codes
  consume_pays email hash now w = elim (Option-cases (newest c (normalize_email email) w.db)) [
    | inl e ↦ let (same, failed) = consume_none c email hash now w e in rw (same, e) (ground arith)
    | inr (r, e) ↦ elim (consume_some c email hash now w r e) [
      | inl (same, failed) ↦ rw (same, failed) (omega arith)
      | inr (written, f) ↦
          rw (written, e) (ground (arith, marked (normalize_email email) now w r e))
    ]
  ]

  pays :
      (op : Op) (w : World)
      → credit (perform c op w).1.email_codes (perform c op w).1.next_code_id + once (accepts op w)
        ≤ credit w.db.email_codes w.db.next_code_id
  unfolding perform
  pays (op_save_code e h x) w = omega (arith, save_pays e h x w)
  pays (op_consume_code e h n) w =
      rw (consume-next_id e h n w) (omega (arith, consume_pays e h n w))
  pays op w = rw (codes-perform c op w refl, next_code_id-perform c op w refl) (omega arith)

  acceptances-le :
      (db : Db) (es : List Event) → acceptances db es ≤ credit db.email_codes db.next_code_id
  acceptances-le db [] = omega arith
  acceptances-le db (e ∷ es) =
      let rest = acceptances-le (perform c e.op (world_at db e)).1 es in
      let step = pays e.op (world_at db e) in omega arith

  fresh : (rows : List EmailCodeRow) (next : ℕ) → rows ≡ [] → credit rows next ≤ 1
  unfolding count
  fresh rows next h = rw h (ground arith)

  -- No code is accepted twice: from tables without codes, whatever methods of the store are called
  -- in whatever order, with whatever failures of the driver, each row of the codes is accepted by at
  -- most one call of ConsumeEmailCode.
  pub code_accepted_once : (db : Db) (es : List Event) → db.email_codes ≡ [] → acceptances db es ≤ 1
  code_accepted_once db es h =
      omega (arith, acceptances-le db es, fresh db.email_codes db.next_code_id h)
