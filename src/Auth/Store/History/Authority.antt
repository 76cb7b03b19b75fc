-- ===== src/Auth/Store/History/Authority.antt =====
-- Who can sign in and who is an administrator, after any sequence of calls.
use mathlib.Core.Path.{subst⁻¹}
use zenmind_official_server.Base.{
  ℕ, ◌≡◌, ◌≢◌, ◌<◌, Bool, true, false, List, [], ◌∷◌, arith, All, All-map, Any-All, Any, Any-map,
  All-of_places, refl, ap, ◌⊎◌, inl, inr,
}
use zenmind_official_server.Text.{Text, text}
use zenmind_official_server.Auth.Store.Defs.{Db, User, UserRow, Collation}
use zenmind_official_server.Auth.Store.Monad.{World, ok}
use zenmind_official_server.Auth.Store.Users.Rows.{scan_user}
use zenmind_official_server.Auth.Store.Sessions.{find_user_by_session}
use zenmind_official_server.Auth.Store.Sessions.Laws.{find_user_by_session_sound}
use zenmind_official_server.Auth.Store.History.{Op, op_ensure_admin, Event, final}
use zenmind_official_server.Auth.Store.History.AccountRows.{Holds-final, Allowed}

module _ (c : Collation) where
  -- The account is disabled.
  abbrev pub Disabled : ℕ → ℕ → Text → Bool → Type 0
  Disabled id n role on = n ≡ id → on ≡ false

  Disabled-Allowed : (id : ℕ) (op : Op) → Allowed c id (Disabled id) op
  Disabled-Allowed id (op_ensure_admin r e h) = record {
    new_admin = λ n lt same. absurd (omega arith);
    old_admin = λ n role on k. k;
  }
  Disabled-Allowed id op = tt

  All-Allowed : (id : ℕ) (es : List Event) → All (λ e. Allowed c id (Disabled id) e.op) es
  All-Allowed id [] = tt
  All-Allowed id (e ∷ es) = (Disabled-Allowed id e.op, All-Allowed id es)

  enabled_row :
      (id : ℕ) (user : User) (u : UserRow)
      → (user ≡ scan_user u []) × (u.enabled ≡ true)
      → Disabled id u.id u.role u.enabled
      → user.id ≢ id
  unfolding scan_user
  enabled_row id user u (same, on) off e = let still = off (rw same at e) in cc

  -- No method enables an account: whatever calls are made, no session authenticates an account that
  -- was disabled before them.
  pub Disabled-never_authenticates :
      (id : ℕ) (db : Db) (es : List Event) (token : Text) (now : ℕ) (w : World) (user : User)
      → All (λ u. Disabled id u.id u.role u.enabled) db.users
      → id < db.next_user_id
      → w.db ≡ final c db es
      → (find_user_by_session c token now w).0 ≡ ok user
      → user.id ≢ id
  Disabled-never_authenticates id db es token now w user off old after h =
      let (rows, lt) =
        Holds-final c id (Disabled id) (λ n lt same. absurd (omega arith)) db es (All-Allowed id es)
          (off, old) in
      let (session, known) = find_user_by_session_sound c token now w user h in
      let (u, on, still) =
        Any-All (λ u. (user ≡ scan_user u []) × (u.enabled ≡ true))
          (λ u. Disabled id u.id u.role u.enabled) w.db.users known (rw after rows) in
      enabled_row id user u on still

  abbrev pub SparesAdmin : Op → Type 0
  SparesAdmin (op_ensure_admin reports email hash) = ⊥
  SparesAdmin _ = Unit

  -- The roles that updateAdmin takes for an administrator.
  abbrev pub IsAdmin : Text → Type 0
  IsAdmin role = (role ≡ text "admin") ⊎ (role ≡ text "administrator")

  -- An account with the id was an administrator in `db`.
  abbrev pub WasAdmin : Db → ℕ → Type 0
  WasAdmin db n = Any (λ (v : UserRow). (v.id ≡ n) × IsAdmin v.role) db.users

  abbrev NoNewAdmin : Db → ℕ → Text → Bool → Type 0
  NoNewAdmin db n role on = IsAdmin role → WasAdmin db n

  user-NoNewAdmin : (db : Db) (n : ℕ) → NoNewAdmin db n (text "user") true
  unfolding text
  user-NoNewAdmin db n (inl h) = cc
  user-NoNewAdmin db n (inr h) = cc

  NoNewAdmin-Allowed : (db : Db) (op : Op) → SparesAdmin op → Allowed c 0 (NoNewAdmin db) op
  NoNewAdmin-Allowed db (op_ensure_admin r e h) k = absurd k
  NoNewAdmin-Allowed db op k = tt

  themselves :
      (db : Db) (users : List UserRow)
      → All (λ (u : UserRow). Any (λ (v : UserRow). v ≡ u) db.users) users
      → All (λ u. NoNewAdmin db u.id u.role u.enabled) users
  themselves db users a =
      All-map _ _
        (λ u at h.
          Any-map _ _
            (λ v same.
              (ap (λ (x : UserRow). x.id) same, subst⁻¹ (λ (x : UserRow). IsAdmin x.role) same h))
            db.users at)
        users a

  -- Only EnsureAdmin makes administrators: whatever other calls are made, every account that has
  -- the role `admin` or `administrator` afterwards was an account with one of these roles before.
  -- No sign-in makes a new one. The ids of the table start at 1.
  pub administrators_final :
      (db : Db) (es : List Event)
      → 0 < db.next_user_id
      → All (λ e. SparesAdmin e.op) es
      → All (λ u. IsAdmin u.role → WasAdmin db u.id) (final c db es).users
  administrators_final db es some_id spared =
      (Holds-final c 0 (NoNewAdmin db) (λ n lt. user-NoNewAdmin db n) db es
        (All-map _ _ (λ e k. NoNewAdmin-Allowed db e.op k) es spared)
        (themselves db db.users (All-of_places (λ u v. v ≡ u) db.users λ u. refl), some_id)).0
