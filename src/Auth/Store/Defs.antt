-- ===== src/Auth/Store/Defs.antt =====
-- The types of internal/auth/store.go and the rows of its tables (EnsureSchema). Times are counted
-- in nanoseconds from the zero time, ids are int64 and positive.
use zenmind_official_server.Base.{ℕ, ◌≡◌, Bool, true, Option, List}
use zenmind_official_server.Text.{Text}

pub record User : Type 0 where
  pub id : ℕ
  pub email : Text
  pub display_name : Text
  pub avatar_url : Text
  pub auth_provider : Text
  pub auth_sub : Text
  pub role : Text
  pub enabled : Bool
  pub last_login_at : Option ℕ
  pub password_hash : Text

pub record GoogleIdentity : Type 0 where
  pub subject : Text
  pub email : Text
  pub email_verified : Bool
  pub name : Text
  pub picture : Text

pub record AuthentikIdentity : Type 0 where
  pub subject : Text
  pub email : Text
  pub name : Text
  pub username : Text
  pub picture : Text

pub record LoginLog : Type 0 where
  pub user_id : Option ℕ
  pub email : Text
  pub display_name : Text
  pub auth_method : Text
  pub login_result : Text
  pub failure_reason : Text
  pub ip : Text
  pub user_agent : Text
  pub login_at : ℕ

pub record OauthRequest : Type 0 where
  pub kind : Text
  pub nonce : Text
  pub code_verifier : Text
  pub return_to : Text
  pub callback_url : Text
  pub desktop_state : Text
  pub expires_at : ℕ

-- auth_user
pub record UserRow : Type 0 where
  pub id : ℕ
  pub email : Text
  pub display_name : Text
  pub avatar_url : Text
  pub auth_provider : Text
  pub auth_sub : Text
  pub role : Text
  pub enabled : Bool
  pub created_at : ℕ
  pub updated_at : ℕ
  pub last_login_at : Option ℕ

-- auth_local_credential
pub record CredentialRow : Type 0 where
  pub user_id : ℕ
  pub password_hash : Text

-- auth_identity
pub record IdentityRow : Type 0 where
  pub user_id : ℕ
  pub provider : Text
  pub subject : Text
  pub email : Text
  pub email_verified : Bool
  pub created_at : ℕ
  pub updated_at : ℕ

-- auth_session
pub record SessionRow : Type 0 where
  pub user_id : ℕ
  pub token_hash : Text
  pub csrf_token : Text
  pub expires_at : ℕ
  pub created_at : ℕ
  pub last_seen_at : ℕ
  pub user_agent : Text
  pub ip : Text

-- auth_oauth_request
pub record OauthRow : Type 0 where
  pub state_hash : Text
  pub request : OauthRequest
  pub consumed_at : Option ℕ
  pub created_at : ℕ

-- auth_desktop_sso_ticket
pub record TicketRow : Type 0 where
  pub user_id : ℕ
  pub ticket_hash : Text
  pub expires_at : ℕ
  pub consumed_at : Option ℕ
  pub created_at : ℕ
  pub ip : Text
  pub user_agent : Text

-- auth_email_code
pub record EmailCodeRow : Type 0 where
  pub id : ℕ
  pub email : Text
  pub code_hash : Text
  pub expires_at : ℕ
  pub consumed_at : Option ℕ
  pub created_at : ℕ

-- The tables, each in the order of its primary key, with the next AUTO_INCREMENT value of the two
-- whose ids the server reads.
pub record Db : Type 0 where
  pub users : List UserRow
  pub credentials : List CredentialRow
  pub identities : List IdentityRow
  pub sessions : List SessionRow
  pub oauth_requests : List OauthRow
  pub tickets : List TicketRow
  pub login_logs : List LoginLog
  pub email_codes : List EmailCodeRow
  pub next_user_id : ℕ
  pub next_code_id : ℕ

-- Equality of two strings in SQL, under the collation of the tables. MySQL implements it; the code
-- relies on its being an equivalence.
pub record Collation : Type 0 where
  pub same : Text → Text → Bool
  pub same_refl : (s : Text) → same s s ≡ true
  pub same_sym : (s t : Text) → same s t ≡ true → same t s ≡ true
  pub same_trans : (s t u : Text) → same s t ≡ true → same t u ≡ true → same s u ≡ true
