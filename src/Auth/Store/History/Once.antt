-- ===== src/Auth/Store/History/Once.antt =====
-- One-time tokens over any sequence of calls.
use zenmind_official_server.Base.{
  ℕ, ◌+◌, ◌≤◌, ◌≡◌, refl, Bool, false, ◌&&◌, List, [], ◌∷◌, arith, once,
}
use zenmind_official_server.Text.{Text}
use zenmind_official_server.Auth.Store.Defs.{TicketRow, OauthRow, Db, Collation}
use zenmind_official_server.Auth.Store.Monad.{World}
use zenmind_official_server.Auth.Store.Table.{count}
use zenmind_official_server.Auth.Store.Tickets.Laws as TicketLaws
use zenmind_official_server.Auth.Store.Oauth.Laws as OauthLaws
use zenmind_official_server.Auth.Store.History.{
  Op, op_save_oauth, op_consume_oauth, op_save_ticket, op_consume_ticket, perform, Event, world_at,
  run, successes,
}
use zenmind_official_server.Auth.Store.History.Frames.{tickets-perform, oauth-perform}

-- A credit that every call pays for its successes bounds the successes of a sequence of calls.
abbrev pub added : (Op → ℕ) → List Event → ℕ
added adds [] = 0
added adds (e ∷ es) = adds e.op + added adds es

added_none : (es : List Event) → added (λ op. 0) es ≡ 0
added_none [] = refl
added_none (e ∷ es) = let rest = added_none es in omega arith

module _ (c : Collation) (counts : Op → Bool) (credit : Db → ℕ) (adds : Op → ℕ) where
  pub successes-le :
      ((op : Op) (w : World)
        → credit (perform c op w).1 + once (counts op && (perform c op w).0)
          ≤ credit w.db + adds op)
      → (db : Db) (es : List Event) → successes counts es (run c db es) ≤ credit db + added adds es
  unfolding run
  successes-le pays db [] = omega arith
  successes-le pays db (e ∷ es) =
      let rest = successes-le pays (perform c e.op (world_at db e)).1 es in
      let step = pays e.op (world_at db e) in ground arith

module _ (c : Collation) (hash : Text) where
  abbrev pub redeems_ticket : Op → Bool
  redeems_ticket (op_consume_ticket h now) = c.same h hash
  redeems_ticket _ = false

  ticket_pays :
      (op : Op) (w : World)
      → TicketLaws.credit c hash (perform c op w).1.tickets
          + once (redeems_ticket op && (perform c op w).0)
        ≤ TicketLaws.credit c hash w.db.tickets + 0
  unfolding perform
  ticket_pays (op_save_ticket id h x i a) w =
      omega (arith, TicketLaws.credit-save c hash id h x i a w)
  ticket_pays (op_consume_ticket h n) w = omega (arith, TicketLaws.credit-consume c hash h n w)
  ticket_pays op w = rw (tickets-perform c op w refl) (omega arith)

  fresh_ticket : (ts : List TicketRow) → ts ≡ [] → TicketLaws.credit c hash ts ≡ 1
  unfolding count
  fresh_ticket ts h = rw h refl

  -- A Desktop ticket is redeemed at most once: from tables without tickets, whatever methods of the
  -- store are called in whatever order, with whatever failures of the driver, at most one of the
  -- redemptions of its hash succeeds.
  pub ticket_redeemed_once :
      (db : Db) (es : List Event) → db.tickets ≡ [] → successes redeems_ticket es (run c db es) ≤ 1
  ticket_redeemed_once db es h =
      let bound =
        successes-le c redeems_ticket (λ db. TicketLaws.credit c hash db.tickets) (λ op. 0)
          ticket_pays db es in
      omega (arith, bound, fresh_ticket db.tickets h, added_none es)

-- Consuming the sign-in request of an OAuth state.
module _ (c : Collation) (state : Text) where
  abbrev pub consumes_state : Op → Bool
  consumes_state (op_consume_oauth s now) = c.same s state
  consumes_state _ = false

  state_pays :
      (op : Op) (w : World)
      → OauthLaws.credit c state (perform c op w).1.oauth_requests
          + once (consumes_state op && (perform c op w).0)
        ≤ OauthLaws.credit c state w.db.oauth_requests + 0
  unfolding perform
  state_pays (op_save_oauth s r) w = omega (arith, OauthLaws.credit-save c state s r w)
  state_pays (op_consume_oauth s n) w = omega (arith, OauthLaws.credit-consume c state s n w)
  state_pays op w = rw (oauth-perform c op w refl) (omega arith)

  fresh_state : (rs : List OauthRow) → rs ≡ [] → OauthLaws.credit c state rs ≡ 1
  unfolding count
  fresh_state rs h = rw h refl

  -- An OAuth state is consumed at most once: from tables without sign-in requests, whatever methods
  -- of the store are called in whatever order, with whatever failures of the driver, at most one
  -- consumption of the state succeeds.
  pub state_consumed_once :
      (db : Db) (es : List Event)
      → db.oauth_requests ≡ []
      → successes consumes_state es (run c db es) ≤ 1
  state_consumed_once db es h =
      let bound =
        successes-le c consumes_state (λ db. OauthLaws.credit c state db.oauth_requests) (λ op. 0)
          state_pays db es in
      omega (arith, bound, fresh_state db.oauth_requests h, added_none es)
