-- ===== src/Auth/Store/Users/Rows.antt =====
-- internal/auth/store.go: the statements on auth_user that several methods share, and
-- scanUserWithPassword.
use zenmind_official_server.Base.{ℕ, ◌+◌, Bool, ◌&&◌, Option, none, some, List, [], ◌∷◌, ◌++◌, ◌==◌}
use zenmind_official_server.Text.{Text, text}
use zenmind_official_server.Auth.Store.Defs.{Db, User, UserRow, Collation}
use zenmind_official_server.Auth.Store.Table.{find}

-- The user of a selected row.
unfoldable pub scan_user : UserRow → Text → User
scan_user u password_hash = record {
  id = u.id;
  email = u.email;
  display_name = u.display_name;
  avatar_url = u.avatar_url;
  auth_provider = u.auth_provider;
  auth_sub = u.auth_sub;
  role = u.role;
  enabled = u.enabled;
  last_login_at = u.last_login_at;
  password_hash = password_hash;
}

-- WHERE ID_ = ?
abbrev pub has_id : ℕ → UserRow → Bool
has_id id u = u.id == id

module _ (c : Collation) where
  -- UK_AUTH_USER_PROVIDER_SUB
  abbrev pub has_login : Text → Text → UserRow → Bool
  has_login provider sub u = c.same u.auth_provider provider && c.same u.auth_sub sub

  -- WHERE EMAIL_ = ? ORDER BY (ROLE_ = 'admin') DESC, ID_ ASC LIMIT 1
  unfoldable pub user_by_email : Text → List UserRow → Option UserRow
  unfolding find text
  user_by_email email users =
      elim (find (λ u. c.same u.email email && c.same u.role (text "admin")) users) [
        | some u ↦ some u
        | none ↦ find (λ u. c.same u.email email) users
      ]

-- A row with the next AUTO_INCREMENT value.
abbrev pub insert_user : (ℕ → UserRow) → Db → Db
insert_user row db = record db {
  users = db.users ++ row db.next_user_id ∷ [];
  next_user_id = db.next_user_id + 1;
}
