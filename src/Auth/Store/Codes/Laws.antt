-- ===== src/Auth/Store/Codes/Laws.antt =====
-- When an email code is accepted.
use zenmind_official_server.Base.{
  ℕ, ◌<◌, ◌≡◌, ◌↔◌, true, false, Option, none, some, [], ◌==◌, inl, inr, ◌⊎◌, arith, Option-cases,
}
use zenmind_official_server.Text.{Text, normalize_email}
use zenmind_official_server.Text.Laws.{text_eq_iff}
use zenmind_official_server.Auth.Store.Defs.{Db, EmailCodeRow, Collation}
use zenmind_official_server.Auth.Store.Monad.{World, is_ok, attempt, transaction, ◌>>=◌}
use zenmind_official_server.Auth.Store.Table.{find_newest, update}
use zenmind_official_server.Auth.Store.Codes.{
  is_pending, consume_code, consume_email_code_body, consume_email_code,
}

module _ (c : Collation) where
  -- The newest code of the address that is not consumed.
  abbrev pub newest : Text → Db → Option EmailCodeRow
  newest email db = find_newest (is_pending c email) (λ r. r.created_at) db.email_codes

  abbrev pub Fits : EmailCodeRow → Text → ℕ → Type 0
  Fits r code_hash now = (r.code_hash ≡ code_hash) × (now < r.expires_at)

  pub consume_none :
      (email code_hash : Text) (now : ℕ) (w : World)
      → newest (normalize_email email) w.db ≡ none
      → ((consume_email_code c email code_hash now w).1.db.email_codes ≡ w.db.email_codes)
        × (is_ok (consume_email_code c email code_hash now w).0 ≡ false)
  unfolding consume_email_code consume_email_code_body transaction attempt ◌>>=◌
  consume_none email code_hash now w h = ground arith

  pub consume_some :
      (email code_hash : Text) (now : ℕ) (w : World) (r : EmailCodeRow)
      → newest (normalize_email email) w.db ≡ some r
      → (((consume_email_code c email code_hash now w).1.db.email_codes ≡ w.db.email_codes)
          × (is_ok (consume_email_code c email code_hash now w).0 ≡ false))
        ⊎ (((consume_email_code c email code_hash now w).1.db.email_codes
              ≡ update (λ s. s.id == r.id) (consume_code c now) w.db.email_codes)
            × Fits r code_hash now)
  unfolding consume_email_code consume_email_code_body transaction attempt ◌>>=◌
  consume_some email code_hash now w r h = ground (arith, text_eq_iff r.code_hash code_hash)

  accept_newest :
      (email code_hash : Text) (now : ℕ) (w : World) (r : EmailCodeRow)
      → w.faults ≡ []
      → newest (normalize_email email) w.db ≡ some r
      → Fits r code_hash now
      → is_ok (consume_email_code c email code_hash now w).0 ≡ true
  unfolding consume_email_code consume_email_code_body transaction attempt ◌>>=◌
  accept_newest email code_hash now w r quiet h f =
      ground (arith, text_eq_iff r.code_hash code_hash)

  -- While no call of the driver fails, a code is accepted exactly if the newest code of the address
  -- that is not consumed has this hash and has not expired.
  pub consume_email_code_iff :
      (email code_hash : Text) (now : ℕ) (w : World)
      → w.faults ≡ []
      → (is_ok (consume_email_code c email code_hash now w).0 ≡ true) ↔ (
          (r : EmailCodeRow) × (newest (normalize_email email) w.db ≡ some r)
          × Fits r code_hash now)
  consume_email_code_iff email code_hash now w quiet =
      (to, λ (r, h, f). accept_newest email code_hash now w r quiet h f)
    where
      to :
          is_ok (consume_email_code c email code_hash now w).0 ≡ true
          → (r : EmailCodeRow) × (newest (normalize_email email) w.db ≡ some r)
            × Fits r code_hash now
      to good = elim (Option-cases (newest (normalize_email email) w.db)) [
        | inl e ↦ cc (good, (consume_none email code_hash now w e).1)
        | inr (r, e) ↦ elim (consume_some email code_hash now w r e) [
          | inl (same, failed) ↦ cc (good, failed)
          | inr (written, f) ↦ (r, e, f)
        ]
      ]
