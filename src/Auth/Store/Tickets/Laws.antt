-- ===== src/Auth/Store/Tickets/Laws.antt =====
-- The credit of a Desktop ticket: how often it can still be redeemed.
use zenmind_official_server.Base.{
  ℕ, ◌+◌, ◌≤◌, ◌<◌, ◌≡◌, refl, Bool, true, false, ◌&&◌, List, [], ◌∷◌, ◌++◌, if◌then◌else◌, ◌==◌,
  inl, inr, ◌⊎◌, arith, once, Bool-cases,
}
use zenmind_official_server.Text.{Text}
use zenmind_official_server.Auth.Store.Defs.{User, TicketRow, Collation}
use zenmind_official_server.Auth.Store.Monad.{
  ok, bind-ok, World, is_ok, attempt, transaction, ◌>>=◌,
}
use zenmind_official_server.Auth.Store.Table.{find, update, count, is_none}
use zenmind_official_server.Auth.Store.Table.Laws.{
  count-append, count-update, count-update_drop, count_mono, find-none_iff,
}
use zenmind_official_server.Auth.Store.Tickets.{
  has_hash, is_open, consume, consume_body, consume_desktop_sso_ticket, save_desktop_sso_ticket,
  new_ticket, check_enabled,
}

module _ (c : Collation) (hash : Text) where
  abbrev pub is_unspent : TicketRow → Bool
  is_unspent t = has_hash c hash t && is_none t.consumed_at

  -- The rows with the hash that are not consumed, and one to come while no row has the hash.
  abbrev pub credit : List TicketRow → ℕ
  credit ts = count is_unspent ts + once (count (has_hash c hash) ts == 0)

  consume_cases :
      (h : Text) (now : ℕ) (w : World)
      → (((consume_desktop_sso_ticket c h now w).1.db.tickets ≡ w.db.tickets)
          × ((is_ok (consume_desktop_sso_ticket c h now w).0) ≡ false))
        ⊎ (((consume_desktop_sso_ticket c h now w).1.db.tickets
              ≡ update (is_open c h now) (consume c now) w.db.tickets)
            × (is_ok (consume_desktop_sso_ticket c h now w).0 ≡ true
                → 0 < count (is_open c h now) w.db.tickets))
  unfolding transaction attempt ◌>>=◌ consume_body consume_desktop_sso_ticket
  consume_cases h now w = ground arith

  -- Closing the open tickets of a hash takes their number off the credit, if it is the same hash.
  credit-update :
      (h : Text) (now : ℕ) (ts : List TicketRow)
      → credit (update (is_open c h now) (consume c now) ts)
          + (if c.same h hash then count (is_open c h now) ts else 0)
        ≤ credit ts
  credit-update h now ts =
      let drop =
        count-update_drop (is_open c h now) is_unspent (consume c now) ts (λ t. ground arith) in
      let rows = count-update (is_open c h now) (has_hash c hash) (consume c now) ts (λ t. refl) in
      elim (Bool-cases (c.same h hash)) [
        | inl e ↦
            let open_rows =
              count_mono (is_open c h now) (λ t. is_open c h now t && is_unspent t) ts
                (λ t o. ground (arith, c.same_trans t.ticket_hash h hash)) in
            rw e (rw rows (omega arith))
        | inr e ↦ rw e (rw rows (omega arith))
      ]

  -- A successful redemption of the hash costs one credit, and no call of the method adds any.
  pub credit-consume :
      (h : Text) (now : ℕ) (w : World)
      → credit (consume_desktop_sso_ticket c h now w).1.db.tickets
          + once (c.same h hash && is_ok (consume_desktop_sso_ticket c h now w).0)
        ≤ credit w.db.tickets
  credit-consume h now w = elim (consume_cases h now w) [
    | inl (same, failed) ↦ rw same (ground arith)
    | inr (written, counted) ↦
        rw written (ground (arith, credit-update h now w.db.tickets, counted))
  ]

  save_cases :
      (user_id : ℕ) (h : Text) (expires_at : ℕ) (ip user_agent : Text) (w : World)
      → ((save_desktop_sso_ticket c user_id h expires_at ip user_agent w).1.db.tickets
          ≡ w.db.tickets)
        ⊎ (((save_desktop_sso_ticket c user_id h expires_at ip user_agent w).1.db.tickets
              ≡ w.db.tickets ++ new_ticket user_id h expires_at w.clock ip user_agent ∷ [])
            × (is_none (find (has_hash c h) w.db.tickets) ≡ true))
  unfolding save_desktop_sso_ticket attempt ◌>>=◌
  save_cases user_id h expires_at ip user_agent w = ground arith

  -- A new row for the hash replaces the one to come; there is none before it.
  credit-append :
      (h : Text) (row : TicketRow) (ts : List TicketRow)
      → row.ticket_hash ≡ h
      → is_none (find (has_hash c h) ts) ≡ true
      → credit (ts ++ row ∷ []) ≤ credit ts
  unfolding count
  credit-append h row ts e free =
      let rows = count-append (has_hash c hash) ts (row ∷ []) in
      let unspent = count-append is_unspent ts (row ∷ []) in
      elim (Bool-cases (c.same row.ticket_hash hash)) [
        | inl hit ↦
            let none_h = find-none_iff (has_hash c h) ts free in
            let none_hash =
              count_mono (has_hash c hash) (has_hash c h) ts
                (λ t o. c.same_trans t.ticket_hash hash h o (c.same_sym h hash (rw e at hit))) in
            let none_unspent = count_mono is_unspent (has_hash c hash) ts (λ t o. ground arith) in
            ground arith
        | inr miss ↦ ground arith
      ]

  -- Saving a ticket adds no credit: a hash is saved once.
  pub credit-save :
      (user_id : ℕ) (h : Text) (expires_at : ℕ) (ip user_agent : Text) (w : World)
      → credit (save_desktop_sso_ticket c user_id h expires_at ip user_agent w).1.db.tickets
        ≤ credit w.db.tickets
  credit-save user_id h expires_at ip user_agent w =
      elim (save_cases user_id h expires_at ip user_agent w) [
        | inl same ↦ rw same (omega arith)
        | inr (added, free) ↦ rw added (
            credit-append h (new_ticket user_id h expires_at w.clock ip user_agent) w.db.tickets
              refl free)
      ]

module _ (c : Collation) where
  check_enabled-ok :
      (user found : User) (w : World) → (check_enabled c user w).0 ≡ ok found → found.enabled ≡ true
  check_enabled-ok user found w h = ground arith

  -- A ticket is redeemed for an enabled user.
  pub consume-enabled :
      (h : Text) (now : ℕ) (w : World) (user : User)
      → (consume_desktop_sso_ticket c h now w).0 ≡ ok user
      → user.enabled ≡ true
  unfolding consume_desktop_sso_ticket
  consume-enabled h now w user e =
      let (found, first, whole) =
        bind-ok (transaction (consume_body c h now)) (check_enabled c) w user e in
      check_enabled-ok found user (transaction (consume_body c h now) w).1 (rw whole at e)
