-- ===== src/Auth/Store/Sessions/Laws.antt =====
-- What a session that authenticates is: one row of the table, live, of a user who is enabled.
use zenmind_official_server.Base.{
  ℕ, ◌<◌, ◌≡◌, refl, true, false, not, ◌&&◌, some, List, [], ◌∷◌, ◌++◌, ◌==◌, inl, inr, arith,
  Bool-cases, Any, Any-map,
}
use zenmind_official_server.Text.{Text}
use zenmind_official_server.Auth.Store.Defs.{User, UserRow, SessionRow, Collation}
use zenmind_official_server.Auth.Store.Monad.{World, ok, is_ok, attempt, ◌>>=◌}
use zenmind_official_server.Auth.Store.Table.{find, is_none}
use zenmind_official_server.Auth.Store.Users.Rows.{scan_user}
use zenmind_official_server.Auth.Store.Sessions.{
  create_session, new_session, has_token, is_live, session_user, find_user_by_session,
}

module _ (c : Collation) where
  -- The session has the token, ends after `now`, and belongs to the user.
  abbrev pub Authenticates : Text → ℕ → ℕ → SessionRow → Type 0
  Authenticates token now id s =
      (c.same s.token_hash token ≡ true) × (now < s.expires_at) × (s.user_id ≡ id)

  find_owner :
      (id : ℕ) (users : List UserRow) (u : UserRow)
      → find (λ u. u.id == id) users ≡ some u
      → (u.id ≡ id) × Any (λ v. v ≡ u) users
  unfolding find
  find_owner id [] u h = cc
  find_owner id (v ∷ vs) u h = elim (Bool-cases (v.id == id)) [
    | inl e ↦
        let same : some v ≡ some u = (rw e at h) in
        let vu : v ≡ u = cc in (rw (← vu) (ground arith), inl vu)
    | inr e ↦ let (a, b) = find_owner id vs u (rw e at h) in (a, inr b)
  ]

  session_user_sound :
      (token : Text) (now : ℕ) (users : List UserRow) (sessions : List SessionRow) (u : UserRow)
      → session_user c token now users sessions ≡ some u
      → Any (Authenticates token now u.id) sessions × Any (λ v. v ≡ u) users
  unfolding session_user
  session_user_sound token now users [] u h = cc
  session_user_sound token now users (s ∷ ss) u h =
      elim (Bool-cases
        (is_live c token now s && not (is_none (find (λ u. u.id == s.user_id) users)))) [
          | inl e ↦
              let (same, known) = find_owner s.user_id users u (rw e at h) in
              (inl (ground arith), known)
          | inr e ↦
              let (row, known) = session_user_sound token now users ss u (rw e at h) in
              (inr row, known)
        ]

  found_row :
      (token : Text) (now : ℕ) (w : World) (user : User)
      → (find_user_by_session c token now w).0 ≡ ok user
      → (u : UserRow) × (session_user c token now w.db.users w.db.sessions ≡ some u)
        × (u.enabled ≡ true)
        × (user ≡ scan_user u [])
  unfolding find_user_by_session attempt ◌>>=◌ scan_user
  found_row token now w user h = ground arith

  -- A token authenticates a user only by a session in the table that has the token, has not expired
  -- and belongs to the user, whose row is in the table and is enabled; the user is that row.
  pub find_user_by_session_sound :
      (token : Text) (now : ℕ) (w : World) (user : User)
      → (find_user_by_session c token now w).0 ≡ ok user
      → Any (Authenticates token now user.id) w.db.sessions
        × Any (λ u. (user ≡ scan_user u []) × (u.enabled ≡ true)) w.db.users
  unfolding scan_user
  find_user_by_session_sound token now w user h =
      let (u, e, on, same) = found_row token now w user h in
      let (row, known) = session_user_sound token now w.db.users w.db.sessions u e in
      rw same (row, Any-map _ _ (λ v vu. rw vu (refl, on)) w.db.users known)

  no_other :
      (token : Text) (now : ℕ) (users : List UserRow) (sessions : List SessionRow)
      (row : SessionRow) (u : UserRow)
      → is_none (find (has_token c token) sessions) ≡ true
      → is_live c token now row ≡ true
      → find (λ u. u.id == row.user_id) users ≡ some u
      → session_user c token now users (sessions ++ row ∷ []) ≡ some u
  unfolding session_user find
  no_other token now users [] row u free live e = rw (live, e) refl
  no_other token now users (s ∷ ss) row u free live e = elim (Bool-cases (has_token c token s)) [
    | inl taken ↦ let bad = (rw taken at free) in cc
    | inr other ↦
        let rest = no_other token now users ss row u (rw other at free) live e in rw other rest
  ]

  created :
      (id : ℕ) (token csrf : Text) (expires : ℕ) (agent ip : Text) (w : World)
      → is_ok (create_session c id token csrf expires agent ip w).0 ≡ true
      → ((create_session c id token csrf expires agent ip w).1.db.sessions
          ≡ w.db.sessions ++ new_session id token csrf expires w.clock agent ip ∷ [])
        × ((create_session c id token csrf expires agent ip w).1.db.users ≡ w.db.users)
        × (is_none (find (has_token c token) w.db.sessions) ≡ true)
        × (is_none (find (λ u. u.id == id) w.db.users) ≡ false)
  unfolding create_session attempt ◌>>=◌
  created id token csrf expires agent ip w h = ground arith

  authenticates_quietly :
      (token : Text) (now : ℕ) (v : World) (u : UserRow)
      → v.faults ≡ []
      → session_user c token now v.db.users v.db.sessions ≡ some u
      → u.enabled ≡ true
      → (find_user_by_session c token now v).0 ≡ ok (scan_user u [])
  unfolding find_user_by_session attempt ◌>>=◌ scan_user
  authenticates_quietly token now v u quiet e on = ground arith

  -- A new session authenticates its user: once CreateSession has succeeded, and until the session
  -- expires, the token leads to the row of the user, if it is enabled and no call of the driver
  -- fails.
  pub create_session-authenticates :
      (id : ℕ) (token csrf : Text) (expires : ℕ) (agent ip : Text) (w : World) (now : ℕ) (v : World)
      (u : UserRow)
      → is_ok (create_session c id token csrf expires agent ip w).0 ≡ true
      → v.db ≡ (create_session c id token csrf expires agent ip w).1.db
      → v.faults ≡ []
      → now < expires
      → find (λ u. u.id == id) w.db.users ≡ some u
      → u.enabled ≡ true
      → (find_user_by_session c token now v).0 ≡ ok (scan_user u [])
  create_session-authenticates id token csrf expires agent ip w now v u good same quiet lt e on =
      let (sessions, users, free, known) = created id token csrf expires agent ip w good in
      let live : is_live c token now (new_session id token csrf expires w.clock agent ip) ≡ true =
        ground (arith, c.same_refl token) in
      authenticates_quietly token now v u quiet
        (rw (same, sessions, users)
          (no_other token now w.db.users w.db.sessions
            (new_session id token csrf expires w.clock agent ip) u free live e))
        on
