-- ===== src/Auth/Store/Users/Identity.antt =====
-- internal/auth/store.go: upsertIdentityUser, which links a verified identity to an account, and the
-- two methods that call it.
use zenmind_official_server.Base.{
  ℕ, Bool, true, not, ◌&&◌, ◌||◌, some, [], ◌∷◌, ◌++◌, reverse, if◌then◌else◌, ◌==◌,
}
use zenmind_official_server.Text.{Text, text, trim_space, normalize_email, is_blank}
use zenmind_official_server.Auth.Email.{valid_email}
use zenmind_official_server.Auth.Store.Defs.{User, UserRow, IdentityRow, GoogleIdentity, Collation}
use zenmind_official_server.Auth.Store.Monad.{
  M, not_found, driver, pure, raise, gets, modify, time_now, attempt, required, on_row, transaction,
  ◌>>=◌, ◌>>◌,
}
use zenmind_official_server.Auth.Store.Table.{find, update, is_none}
use zenmind_official_server.Auth.Store.Users.Rows.{
  scan_user, has_id, has_login, user_by_email, insert_user,
}

-- TRIM of SQL: blanks alone.
unfoldable pub trim_blanks : Text → Text
trim_blanks [] = []
trim_blanks (d ∷ s) = if d == 32 then trim_blanks s else d ∷ s

unfoldable pub sql_trim : Text → Text
unfolding trim_blanks
sql_trim s = reverse (trim_blanks (reverse (trim_blanks s)))

-- The row that links an identity to an account.
abbrev pub new_identity : ℕ → Text → Text → Text → ℕ → IdentityRow
new_identity user_id provider subject email now = record {
  user_id = user_id;
  provider = provider;
  subject = subject;
  email = email;
  email_verified = true;
  created_at = now;
  updated_at = now;
}

module _ (c : Collation) where
  -- PROVIDER_ = ? AND SUBJECT_ = ?
  abbrev pub is_identity : Text → Text → IdentityRow → Bool
  is_identity provider subject i = c.same i.provider provider && c.same i.subject subject

  -- updateIdentityUserProfileSQL: DISPLAY_NAME_
  unfoldable pub profile_name : Text → Text → Text → Text
  unfolding sql_trim text
  profile_name provider display_name old =
      if c.same provider (text "email_code") && not (c.same (sql_trim old) [])
      then old
      else if c.same display_name []
      then old
      else display_name

  -- updateIdentityUserProfileSQL
  unfoldable pub update_profile : Text → Text → Text → Text → ℕ → UserRow → UserRow
  unfolding profile_name
  update_profile provider email display_name avatar_url now u = record u {
    email = email;
    display_name = profile_name provider display_name u.display_name;
    avatar_url = if c.same avatar_url [] then u.avatar_url else avatar_url;
    updated_at = now;
    last_login_at = some now;
  }

  -- The account that a new identity is linked to: one with the address, or a new one.
  unfoldable pub account_id : Text → Text → Text → Text → Text → ℕ → M ℕ
  unfolding attempt ◌>>=◌ find user_by_email text
  account_id provider subject email display_name avatar_url now = do
    attempt
    account ← gets (λ db. user_by_email c email db.users)
    on_row account (λ u. pure u.id)
        (do
          attempt
          taken ← gets (λ db. find (has_login c provider subject) db.users)
          id ← gets (λ db. db.next_user_id)
          if is_none taken
              then (do
                modify (
                    insert_user (λ id. record {
                      id = id;
                      email = email;
                      display_name = display_name;
                      avatar_url = avatar_url;
                      auth_provider = provider;
                      auth_sub = subject;
                      role = text "user";
                      enabled = true;
                      created_at = now;
                      updated_at = now;
                      last_login_at = some now;
                    }))
                pure id)
              else raise driver)

  -- INSERT INTO auth_identity, which fails on a second row with the provider and the subject.
  unfoldable pub link_identity : ℕ → Text → Text → Text → ℕ → M (Unit {0})
  unfolding attempt ◌>>=◌ find
  link_identity user_id provider subject email now = do
    attempt
    taken ← gets (λ db. find (is_identity provider subject) db.identities)
    if is_none taken
        then modify (λ db. record db {
          identities = db.identities ++ new_identity user_id provider subject email now ∷ [];
        })
        else raise driver

  unfoldable pub link_new : Text → Text → Text → Text → Text → ℕ → M ℕ
  unfolding account_id link_identity
  link_new provider subject email display_name avatar_url now = do
    id ← account_id provider subject email display_name avatar_url now
    link_identity id provider subject email now
    pure id

  -- The account of the identity, linked first if the identity is new.
  unfoldable pub linked_id : Text → Text → Text → Text → Text → ℕ → M ℕ
  unfolding link_new
  linked_id provider subject email display_name avatar_url now = do
    attempt
    known ← gets (λ db. find (is_identity provider subject) db.identities)
    on_row known (λ i. pure i.user_id) (link_new provider subject email display_name avatar_url now)

  abbrev pub touch_identity : Text → ℕ → IdentityRow → IdentityRow
  touch_identity email now i = record i { email = email; email_verified = true; updated_at = now }

  -- What a sign-in of the account writes, and the user that it returns.
  unfoldable pub sign_in_as : Text → Text → Text → Text → Text → ℕ → ℕ → M User
  unfolding attempt ◌>>=◌ update_profile update find scan_user
  sign_in_as provider subject email display_name avatar_url now user_id = do
    attempt
    modify (λ db. record db {
      users =
          update (has_id user_id) (update_profile provider email display_name avatar_url now)
            db.users;
    })
    attempt
    modify (λ db. record db {
      identities = update (is_identity provider subject) (touch_identity email now) db.identities;
    })
    attempt
    row ← gets (λ db. find (has_id user_id) db.users)
    found ← required row
    pure (scan_user found [])

  unfoldable pub upsert_identity_body : Text → Text → Text → Text → Text → ℕ → M User
  unfolding ◌>>=◌ linked_id sign_in_as
  upsert_identity_body provider subject email display_name avatar_url now =
      linked_id provider subject email display_name avatar_url now
      >>= sign_in_as provider subject email display_name avatar_url now

  unfoldable pub upsert_identity_user : Text → Text → Text → Text → Text → M User
  unfolding upsert_identity_body transaction valid_email trim_space normalize_email is_blank
  upsert_identity_user provider subject email display_name avatar_url =
      let provider' = trim_space provider in
      let subject' = trim_space subject in
      let email' = normalize_email email in
      let name = trim_space display_name in
      let name' = if is_blank name then email' else name in
      if is_blank provider' || is_blank subject' || not (valid_email email')
      then raise not_found
      else do
        now ← time_now
        transaction (upsert_identity_body provider' subject' email' name' avatar_url now)

  unfoldable pub upsert_google_user : GoogleIdentity → M User
  unfolding upsert_identity_user
  upsert_google_user identity =
      if not identity.email_verified
      then raise not_found
      else upsert_identity_user (text "google") (trim_space identity.subject)
          (normalize_email identity.email) (trim_space identity.name) (trim_space identity.picture)

  unfoldable pub upsert_email_code_user : Text → M User
  unfolding upsert_identity_user
  upsert_email_code_user email =
      let email' = normalize_email email in
      upsert_identity_user (text "email_code") email' email' email' []
