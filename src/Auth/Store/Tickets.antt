-- ===== src/Auth/Store/Tickets.antt =====
-- internal/auth/store.go: the one-time Desktop tickets.
pub mod Laws
use zenmind_official_server.Base.{
  ℕ, ◌≡◌, Bool, true, false, not, ◌&&◌, Option, none, some, List, [], ◌∷◌, ◌++◌, if◌then◌else◌, ltb,
  ◌==◌,
}
use zenmind_official_server.Text.{Text, truncate, trim_space}
use zenmind_official_server.Auth.Store.Defs.{Db, User, UserRow, TicketRow, Collation}
use zenmind_official_server.Auth.Store.Monad.{
  M, not_found, disabled_user, driver, pure, raise, gets, modify, time_now, attempt, required,
  transaction, ◌>>=◌, ◌>>◌,
}
use zenmind_official_server.Auth.Store.Table.{find, update, count, is_none}
use zenmind_official_server.Auth.Store.Users.Rows.{scan_user}

-- The row that SaveDesktopSsoTicket inserts.
abbrev pub new_ticket : ℕ → Text → ℕ → ℕ → Text → Text → TicketRow
new_ticket user_id hash expires_at now ip user_agent = record {
  user_id = user_id;
  ticket_hash = hash;
  expires_at = expires_at;
  consumed_at = none;
  created_at = now;
  ip = truncate (trim_space ip) 64;
  user_agent = truncate (trim_space user_agent) 512;
}

module _ (c : Collation) where
  abbrev pub has_hash : Text → TicketRow → Bool
  has_hash hash t = c.same t.ticket_hash hash

  -- TICKET_HASH_ = ? AND CONSUMED_AT_ IS NULL AND EXPIRES_AT_ > ?
  abbrev pub is_open : Text → ℕ → TicketRow → Bool
  is_open hash now t = has_hash hash t && is_none t.consumed_at && ltb now t.expires_at

  abbrev pub consume : ℕ → TicketRow → TicketRow
  consume now t = record t { consumed_at = some now }

  -- The INSERT fails on a second row with the hash (UK_AUTH_DESKTOP_SSO_TICKET_HASH), and on a user
  -- that is not there (FK_AUTH_DESKTOP_SSO_TICKET_USER).
  unfoldable pub save_desktop_sso_ticket : ℕ → Text → ℕ → Text → Text → M (Unit {0})
  unfolding attempt ◌>>=◌ find
  save_desktop_sso_ticket user_id hash expires_at ip user_agent = do
    now ← time_now
    attempt
    taken ← gets (λ db. find (has_hash hash) db.tickets)
    owner ← gets (λ db. find (λ u. u.id == user_id) db.users)
    if is_none taken && not (is_none owner)
        then modify (λ db. record db {
          tickets = db.tickets ++ new_ticket user_id hash expires_at now ip user_agent ∷ [];
        })
        else raise driver

  -- ... FROM auth_desktop_sso_ticket ticket INNER JOIN auth_user u WHERE ticket.TICKET_HASH_ = ?
  unfoldable pub ticket_user : Text → List UserRow → List TicketRow → Option UserRow
  unfolding find
  ticket_user hash users [] = none
  ticket_user hash users (t ∷ ts) =
      let owner = find (λ u. u.id == t.user_id) users in
      if has_hash hash t && not (is_none owner) then owner else ticket_user hash users ts

  unfoldable pub consume_body : Text → ℕ → M User
  unfolding attempt ◌>>=◌ ticket_user update count scan_user
  consume_body hash now = do
    attempt
    rows_affected ← gets (λ db. count (is_open hash now) db.tickets)
    modify (λ db. record db { tickets = update (is_open hash now) (consume now) db.tickets })
    attempt
    if rows_affected == 0 then raise not_found else do
      attempt
      row ← gets (λ db. ticket_user hash db.users db.tickets)
      user ← required row
      pure (scan_user user [])

  abbrev pub check_enabled : User → M User
  check_enabled user = if user.enabled then pure user else raise (disabled_user user)

  unfoldable pub consume_desktop_sso_ticket : Text → ℕ → M User
  unfolding transaction consume_body
  consume_desktop_sso_ticket hash now = do
    user ← transaction (consume_body hash now)
    check_enabled user
