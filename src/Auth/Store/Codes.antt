-- ===== src/Auth/Store/Codes.antt =====
-- internal/auth/store.go: the email verification codes.
pub mod Laws
use zenmind_official_server.Base.{
  ℕ, ◌+◌, ◌≡◌, Bool, true, false, not, ◌&&◌, ◌||◌, Option, none, some, List, [], ◌∷◌, ◌++◌,
  if◌then◌else◌, ltb, ◌==◌,
}
use zenmind_official_server.Text.{Text, text_eq, normalize_email}
use zenmind_official_server.Auth.Store.Defs.{Db, EmailCodeRow, Collation}
use zenmind_official_server.Auth.Store.Monad.{
  M, not_found, pure, raise, gets, modify, time_now, attempt, required, transaction, ◌>>=◌, ◌>>◌,
}
use zenmind_official_server.Auth.Store.Table.{find_newest, update, is_none}

-- The row that SaveEmailCode inserts.
abbrev pub new_code : ℕ → Text → Text → ℕ → ℕ → EmailCodeRow
new_code id email code_hash expires_at now = record {
  id = id;
  email = normalize_email email;
  code_hash = code_hash;
  expires_at = expires_at;
  consumed_at = none;
  created_at = now;
}

unfoldable pub save_email_code : Text → Text → ℕ → M (Unit {0})
unfolding attempt ◌>>=◌
save_email_code email code_hash expires_at = do
  now ← time_now
  attempt
  modify (λ db. record db {
    email_codes = db.email_codes ++ new_code db.next_code_id email code_hash expires_at now ∷ [];
    next_code_id = db.next_code_id + 1;
  })

module _ (c : Collation) where
  -- EMAIL_ = ? AND CONSUMED_AT_ IS NULL
  abbrev pub is_pending : Text → EmailCodeRow → Bool
  is_pending email r = c.same r.email email && is_none r.consumed_at

  abbrev pub consume_code : ℕ → EmailCodeRow → EmailCodeRow
  consume_code now r = record r { consumed_at = some now }

  unfoldable pub consume_email_code_body : Text → Text → ℕ → M (Unit {0})
  unfolding attempt ◌>>=◌ find_newest update text_eq
  consume_email_code_body email code_hash now = do
    attempt
    row ← gets (λ db. find_newest (is_pending email) (λ r. r.created_at) db.email_codes)
    challenge ← required row
    if not (ltb now challenge.expires_at) || not (text_eq challenge.code_hash code_hash)
        then raise not_found
        else do
          attempt
          modify (λ db. record db {
            email_codes = update (λ r. r.id == challenge.id) (consume_code now) db.email_codes;
          })

  unfoldable pub consume_email_code : Text → Text → ℕ → M (Unit {0})
  unfolding transaction consume_email_code_body
  consume_email_code email code_hash now =
      transaction (consume_email_code_body (normalize_email email) code_hash now)
