-- ===== src/Auth/Store/TokenFrames.antt =====
-- Which tables of one-time tokens a method leaves alone.
use zenmind_official_server.Base.{ℕ, ◌≡◌, arith, Bool, List}
use zenmind_official_server.Text.{Text}
use zenmind_official_server.Auth.Store.Defs.{
  Db, OauthRequest, GoogleIdentity, AuthentikIdentity, LoginLog, TicketRow, OauthRow, EmailCodeRow,
  Collation,
}
use zenmind_official_server.Auth.Store.Monad.{modify}
use zenmind_official_server.Auth.Store.Keeps.{Keeps, keeps_rules}
use zenmind_official_server.Auth.Store.Tickets.{
  save_desktop_sso_ticket, consume_desktop_sso_ticket, consume_body,
}
use zenmind_official_server.Auth.Store.Codes.{
  save_email_code, consume_email_code, consume_email_code_body,
}
use zenmind_official_server.Auth.Store.Oauth.{
  save_oauth_request, consume_oauth_request, consume_oauth_body,
}
use zenmind_official_server.Auth.Store.Sessions.{
  create_session, find_user_by_session, find_session_csrf, find_session_started_at, revoke_session,
}
use zenmind_official_server.Auth.Store.Users.Identity.{
  upsert_google_user, upsert_email_code_user, upsert_identity_user, upsert_identity_body, linked_id,
  link_new, sign_in_as, account_id, link_identity,
}
use zenmind_official_server.Auth.Store.Users.Accounts.{
  touch_last_login, record_login, find_local_user_by_email, ensure_admin, upsert_authentik_user,
  insert_admin, admin_id, add_credential,
}

-- The tables of one-time tokens, and the id of the next code.
abbrev pub tokens : Db → List TicketRow × List OauthRow × List EmailCodeRow × ℕ
tokens db = (db.tickets, db.oauth_requests, db.email_codes, db.next_code_id)

module _ (c : Collation) (t : List TicketRow × List OauthRow × List EmailCodeRow × ℕ) where
  abbrev pub HasTokens : Db → Type 0
  HasTokens db = tokens db ≡ t

  pub Keeps-linked :
      (provider subject email name avatar : Text) (now : ℕ)
      → Keeps HasTokens (linked_id c provider subject email name avatar now)
  unfolding linked_id link_new account_id link_identity
  Keeps-linked provider subject email name avatar now = search keeps_rules depth 30

  pub Keeps-identity :
      (provider subject email name avatar : Text)
      → Keeps HasTokens (upsert_identity_user c provider subject email name avatar)
  unfolding upsert_identity_user upsert_identity_body sign_in_as
  Keeps-identity provider subject email name avatar = search (keeps_rules, Keeps-linked) depth 30

  pub Keeps-google : (i : GoogleIdentity) → Keeps HasTokens (upsert_google_user c i)
  unfolding upsert_google_user
  Keeps-google i = search (keeps_rules, Keeps-identity) depth 30

  pub Keeps-email_code : (email : Text) → Keeps HasTokens (upsert_email_code_user c email)
  unfolding upsert_email_code_user
  Keeps-email_code email = search (keeps_rules, Keeps-identity) depth 30

  pub Keeps-authentik : (i : AuthentikIdentity) → Keeps HasTokens (upsert_authentik_user c i)
  unfolding upsert_authentik_user
  Keeps-authentik i = search keeps_rules depth 30

  pub Keeps-insert_admin : (r : Bool) (e : Text) (n : ℕ) → Keeps HasTokens (insert_admin c r e n)
  unfolding insert_admin
  Keeps-insert_admin r e n = search keeps_rules depth 30

  pub Keeps-admin_id : (e : Text) (n : ℕ) → Keeps HasTokens (admin_id c e n)
  unfolding admin_id
  Keeps-admin_id e n = search keeps_rules depth 30

  pub Keeps-add_credential :
      (id : ℕ) (hash : Text) → Keeps HasTokens (modify (add_credential c id hash))
  Keeps-add_credential id hash = record { at = λ w h. ground arith }

  pub Keeps-admin : (r : Bool) (e hash : Text) → Keeps HasTokens (ensure_admin c r e hash)
  unfolding ensure_admin
  Keeps-admin r e hash =
      search (keeps_rules, Keeps-insert_admin, Keeps-admin_id, Keeps-add_credential) depth 30

  pub Keeps-local : (email : Text) → Keeps HasTokens (find_local_user_by_email c email)
  unfolding find_local_user_by_email
  Keeps-local email = search keeps_rules depth 30

  pub Keeps-by_session :
      (token : Text) (now : ℕ) → Keeps HasTokens (find_user_by_session c token now)
  unfolding find_user_by_session
  Keeps-by_session token now = search keeps_rules depth 30

  pub Keeps-create_session :
      (id : ℕ) (token csrf : Text) (expires : ℕ) (agent ip : Text)
      → Keeps HasTokens (create_session c id token csrf expires agent ip)
  unfolding create_session
  Keeps-create_session id token csrf expires agent ip = search keeps_rules depth 30

  pub Keeps-csrf : (token : Text) (now : ℕ) → Keeps HasTokens (find_session_csrf c token now)
  unfolding find_session_csrf
  Keeps-csrf token now = search keeps_rules depth 30

  pub Keeps-started :
      (token : Text) (now : ℕ) → Keeps HasTokens (find_session_started_at c token now)
  unfolding find_session_started_at
  Keeps-started token now = search keeps_rules depth 30

  pub Keeps-revoke : (token : Text) → Keeps HasTokens (revoke_session c token)
  unfolding revoke_session
  Keeps-revoke token = search keeps_rules depth 30

  pub Keeps-touch : (id at : ℕ) → Keeps HasTokens (touch_last_login id at)
  unfolding touch_last_login
  Keeps-touch id at = search keeps_rules depth 30

  pub Keeps-record : (entry : LoginLog) → Keeps HasTokens (record_login entry)
  unfolding record_login
  Keeps-record entry = search keeps_rules depth 30

-- The methods on one table of tokens leave the other two alone.
module _ (c : Collation) where
  pub Keeps-save_ticket :
      (t : List OauthRow × List EmailCodeRow × ℕ) (id : ℕ) (hash : Text) (expires : ℕ)
      (ip agent : Text)
      → Keeps
          (λ db. (db.oauth_requests, db.email_codes, db.next_code_id) ≡ t)
          (save_desktop_sso_ticket c id hash expires ip agent)
  unfolding save_desktop_sso_ticket
  Keeps-save_ticket t id hash expires ip agent = search keeps_rules depth 30

  pub Keeps-consume_ticket :
      (t : List OauthRow × List EmailCodeRow × ℕ) (hash : Text) (now : ℕ)
      → Keeps
          (λ db. (db.oauth_requests, db.email_codes, db.next_code_id) ≡ t)
          (consume_desktop_sso_ticket c hash now)
  unfolding consume_desktop_sso_ticket consume_body
  Keeps-consume_ticket t hash now = search keeps_rules depth 30

  pub Keeps-save_code :
      (t : List TicketRow × List OauthRow) (email hash : Text) (expires : ℕ)
      → Keeps (λ db. (db.tickets, db.oauth_requests) ≡ t) (save_email_code email hash expires)
  unfolding save_email_code
  Keeps-save_code t email hash expires = search keeps_rules depth 30

  pub Keeps-consume_code :
      (t : List TicketRow × List OauthRow) (email hash : Text) (now : ℕ)
      → Keeps (λ db. (db.tickets, db.oauth_requests) ≡ t) (consume_email_code c email hash now)
  unfolding consume_email_code consume_email_code_body
  Keeps-consume_code t email hash now = search keeps_rules depth 30

  pub Keeps-save_oauth :
      (t : List TicketRow × List EmailCodeRow × ℕ) (state : Text) (request : OauthRequest)
      → Keeps
          (λ db. (db.tickets, db.email_codes, db.next_code_id) ≡ t)
          (save_oauth_request c state request)
  unfolding save_oauth_request
  Keeps-save_oauth t state request = search keeps_rules depth 30

  pub Keeps-consume_oauth :
      (t : List TicketRow × List EmailCodeRow × ℕ) (state : Text) (now : ℕ)
      → Keeps
          (λ db. (db.tickets, db.email_codes, db.next_code_id) ≡ t)
          (consume_oauth_request c state now)
  unfolding consume_oauth_request consume_oauth_body
  Keeps-consume_oauth t state now = search keeps_rules depth 30
