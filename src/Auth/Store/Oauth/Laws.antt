-- ===== src/Auth/Store/Oauth/Laws.antt =====
-- The credit of an OAuth state: how often it can still be consumed.
use zenmind_official_server.Base.{
  ℕ, ◌+◌, ◌≤◌, ◌<◌, ◌≡◌, refl, Bool, true, false, ◌&&◌, some, List, [], ◌∷◌, ◌++◌, if◌then◌else◌,
  ◌==◌, inl, inr, ◌⊎◌, arith, once, Bool-cases,
}
use zenmind_official_server.Text.{Text}
use zenmind_official_server.Auth.Store.Defs.{OauthRequest, OauthRow, Collation}
use zenmind_official_server.Auth.Store.Monad.{ok, World, is_ok, attempt, transaction, ◌>>=◌}
use zenmind_official_server.Auth.Store.Table.{find, update, count, is_none}
use zenmind_official_server.Auth.Store.Table.Laws.{
  count-append, count-update, count-update_drop, count_mono, find-none_iff, find_none_mono,
  find-append_new, find-count,
}
use zenmind_official_server.Auth.Store.Oauth.{
  has_state, consume_request, consume_oauth_body, consume_oauth_request, save_oauth_request,
  new_request, stored_request,
}

module _ (c : Collation) (state : Text) where
  abbrev pub is_unspent : OauthRow → Bool
  is_unspent r = has_state c state r && is_none r.consumed_at

  -- The rows of the state that are not consumed, and one to come while no row has the state.
  abbrev pub credit : List OauthRow → ℕ
  credit rs = count is_unspent rs + once (count (has_state c state) rs == 0)

  consume_cases :
      (h : Text) (now : ℕ) (w : World)
      → (((consume_oauth_request c h now w).1.db.oauth_requests ≡ w.db.oauth_requests)
          × ((is_ok (consume_oauth_request c h now w).0) ≡ false))
        ⊎ (((consume_oauth_request c h now w).1.db.oauth_requests
              ≡ update (has_state c h) (consume_request c now) w.db.oauth_requests)
            × ((r : OauthRow) × (find
                    (λ r. has_state c h r && is_none r.consumed_at)
                    w.db.oauth_requests
                  ≡ some r)))
  unfolding consume_oauth_request consume_oauth_body transaction attempt ◌>>=◌
  consume_cases h now w = ground arith

  credit-update :
      (h : Text) (now : ℕ) (rs : List OauthRow)
      → credit (update (has_state c h) (consume_request c now) rs)
          + (if c.same h state then count (λ r. has_state c h r && is_none r.consumed_at) rs else 0)
        ≤ credit rs
  credit-update h now rs =
      let drop =
        count-update_drop (has_state c h) is_unspent (consume_request c now) rs
          (λ r. ground arith) in
      let rows =
        count-update (has_state c h) (has_state c state) (consume_request c now) rs (λ r. refl) in
      elim (Bool-cases (c.same h state)) [
        | inl e ↦
            let pending =
              count_mono (λ r. has_state c h r && is_none r.consumed_at)
                (λ r. has_state c h r && is_unspent r) rs
                (λ r o. ground (arith, c.same_trans r.state_hash h state)) in
            rw e (rw rows (omega arith))
        | inr e ↦ rw e (rw rows (omega arith))
      ]

  -- A successful consumption of the state costs one credit, and no call of the method adds any.
  pub credit-consume :
      (h : Text) (now : ℕ) (w : World)
      → credit (consume_oauth_request c h now w).1.db.oauth_requests
          + once (c.same h state && is_ok (consume_oauth_request c h now w).0)
        ≤ credit w.db.oauth_requests
  credit-consume h now w = elim (consume_cases h now w) [
    | inl (same, failed) ↦ rw same (ground arith)
    | inr (written, (r, found)) ↦
        let hit =
          find-count (λ r. has_state c h r && is_none r.consumed_at) w.db.oauth_requests r found in
        rw written (ground (arith, credit-update h now w.db.oauth_requests))
  ]

  save_cases :
      (h : Text) (request : OauthRequest) (w : World)
      → ((save_oauth_request c h request w).1.db.oauth_requests ≡ w.db.oauth_requests)
        ⊎ (((save_oauth_request c h request w).1.db.oauth_requests
              ≡ w.db.oauth_requests ++ new_request h request w.clock ∷ [])
            × (is_none (find (has_state c h) w.db.oauth_requests) ≡ true))
  unfolding save_oauth_request attempt ◌>>=◌
  save_cases h request w = ground arith

  credit-append :
      (h : Text) (row : OauthRow) (rs : List OauthRow)
      → row.state_hash ≡ h
      → is_none (find (has_state c h) rs) ≡ true
      → credit (rs ++ row ∷ []) ≤ credit rs
  unfolding count
  credit-append h row rs e free =
      let rows = count-append (has_state c state) rs (row ∷ []) in
      let unspent = count-append is_unspent rs (row ∷ []) in
      elim (Bool-cases (c.same row.state_hash state)) [
        | inl hit ↦
            let none_h = find-none_iff (has_state c h) rs free in
            let none_state =
              count_mono (has_state c state) (has_state c h) rs
                (λ r o. c.same_trans r.state_hash state h o (c.same_sym h state (rw e at hit))) in
            let none_unspent = count_mono is_unspent (has_state c state) rs (λ r o. ground arith) in
            ground arith
        | inr miss ↦ ground arith
      ]

  pub credit-save :
      (h : Text) (request : OauthRequest) (w : World)
      → credit (save_oauth_request c h request w).1.db.oauth_requests ≤ credit w.db.oauth_requests
  credit-save h request w = elim (save_cases h request w) [
    | inl same ↦ rw same (omega arith)
    | inr (added, free) ↦
        rw added (credit-append h (new_request h request w.clock) w.db.oauth_requests refl free)
  ]

module _ (c : Collation) where
  saved :
      (h : Text) (request : OauthRequest) (w : World)
      → is_ok (save_oauth_request c h request w).0 ≡ true
      → ((save_oauth_request c h request w).1.db.oauth_requests
          ≡ w.db.oauth_requests ++ new_request h request w.clock ∷ [])
        × (is_none (find (has_state c h) w.db.oauth_requests) ≡ true)
  unfolding save_oauth_request attempt ◌>>=◌
  saved h request w good = ground arith

  consumed_quietly :
      (h : Text) (now : ℕ) (v : World) (row : OauthRow)
      → v.faults ≡ []
      → find (λ r. has_state c h r && is_none r.consumed_at) v.db.oauth_requests ≡ some row
      → now < row.request.expires_at
      → (consume_oauth_request c h now v).0 ≡ ok row.request
  unfolding consume_oauth_request consume_oauth_body transaction attempt ◌>>=◌
  consumed_quietly h now v row quiet e lt = ground arith

  -- What was saved for a state comes back: once SaveOAuthRequest has succeeded, and before the
  -- request expires, consuming the state returns the request as it is stored, if no call of the
  -- driver fails.
  pub save-consume :
      (h : Text) (request : OauthRequest) (w : World) (now : ℕ) (v : World)
      → is_ok (save_oauth_request c h request w).0 ≡ true
      → v.db ≡ (save_oauth_request c h request w).1.db
      → v.faults ≡ []
      → now < request.expires_at
      → (consume_oauth_request c h now v).0 ≡ ok (stored_request request)
  unfolding stored_request
  save-consume h request w now v good same quiet lt =
      let (rows, free) = saved h request w good in
      let row = new_request h request w.clock in
      let pending : OauthRow → Bool = λ r. has_state c h r && is_none r.consumed_at in
      let none_pending =
        find_none_mono (has_state c h) pending (λ r k. ground arith) w.db.oauth_requests free in
      let found =
        find-append_new pending w.db.oauth_requests row none_pending
          (ground (arith, c.same_refl h)) in
      consumed_quietly h now v row quiet (rw (same, rows) found) lt
