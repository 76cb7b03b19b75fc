-- ===== src/Auth/Store/History/Authentication.antt =====
-- Where an authentication comes from, and what ends it.
use zenmind_official_server.Base.{
  ℕ, ◌≡◌, ◌<◌, ◌≢◌, inl, inr, refl, true, false, List, [], ◌∷◌, arith, All, Any, Any-All, Any-map,
  All-map,
}
use zenmind_official_server.Text.{Text}
use zenmind_official_server.Auth.Store.Defs.{Db, User, SessionRow, Collation}
use zenmind_official_server.Auth.Store.Monad.{World, ok, is_ok, attempt, ◌>>=◌}
use zenmind_official_server.Auth.Store.Table.{delete}
use zenmind_official_server.Auth.Store.Table.Laws.{delete-All}
use zenmind_official_server.Auth.Store.Sessions.{
  find_user_by_session, revoke_session, has_token, new_session,
}
use zenmind_official_server.Auth.Store.Sessions.Laws.{Authenticates, find_user_by_session_sound}
use zenmind_official_server.Auth.Store.History.{Op, op_create_session, Event, final}
use zenmind_official_server.Auth.Store.History.SessionRows.{Inserts, Holds-final}

module _ (c : Collation) where
  -- The call creates the session.
  abbrev Creates : SessionRow → Op → Type 0
  Creates s (op_create_session id token csrf expires agent ip) =
      (s.user_id ≡ id) × (s.token_hash ≡ token) × (s.expires_at ≡ expires)
  Creates s _ = ⊥

  -- The call creates a session of the user with the token, that ends after `now`.
  abbrev pub Issues : Text → ℕ → ℕ → Op → Type 0
  Issues token now id (op_create_session owner t csrf expires agent ip) =
      (c.same t token ≡ true) × (now < expires) × (owner ≡ id)
  Issues token now id _ = ⊥

  issues :
      (op : Op) (token : Text) (now id : ℕ) (s : SessionRow)
      → Creates s op
      → Authenticates c token now id s
      → Issues token now id op
  issues (op_create_session id token csrf expires agent ip) t now o s (a, b, d) (x, y, z) =
      (rw (← b) x, rw (← d) y, rw (← a) z)
  issues op t now o s h k = absurd h

  -- Some call of the list creates the session.
  abbrev CreatedBy : List Event → SessionRow → Type 0
  CreatedBy es s = Any (λ e. Creates s e.op) es

  created_own :
      (op : Op) (Q : SessionRow → Type 0) → ((s : SessionRow) → Creates s op → Q s) → Inserts c Q op
  created_own (op_create_session id token csrf expires agent ip) Q h =
      λ now. h (new_session id token csrf expires now agent ip) (refl, refl, refl)
  created_own op Q h = tt

  created-All :
      (es : List Event) (Q : SessionRow → Type 0)
      → ((s : SessionRow) → CreatedBy es s → Q s)
      → All (λ e. Inserts c Q e.op) es
  created-All [] Q h = tt
  created-All (e ∷ es) Q h =
      (created_own e.op Q (λ s k. h s (inl k)), created-All es Q (λ s k. h s (inr k)))

  -- Every authentication comes from a login: from tables without sessions, whatever calls are made,
  -- a token that authenticates a user now has been given to one of the calls of CreateSession, with
  -- this user and with an end after now.
  pub authentication-origin :
      (db : Db) (es : List Event) (token : Text) (now : ℕ) (w : World) (user : User)
      → db.sessions ≡ []
      → w.db ≡ final c db es
      → (find_user_by_session c token now w).0 ≡ ok user
      → Any (λ e. Issues token now user.id e.op) es
  authentication-origin db es token now w user empty after h =
      let rows =
        Holds-final c (CreatedBy es) (λ s now k. k) db es (created-All es (CreatedBy es) (λ s k. k))
          (rw empty tt) in
      let (session, known) = find_user_by_session_sound c token now w user h in
      let (s, live, made) =
        Any-All (Authenticates c token now user.id) (CreatedBy es) w.db.sessions session
          (rw after rows) in
      Any-map (λ e. Creates s e.op) (λ e. Issues token now user.id e.op)
        (λ e k. issues e.op token now user.id s k live) es made

  -- The call creates no session with the token.
  abbrev pub SparesToken : Text → Op → Type 0
  SparesToken token (op_create_session owner t csrf expires agent ip) = c.same t token ≡ false
  SparesToken token _ = Unit

  abbrev IsOther : Text → SessionRow → Type 0
  IsOther token s = c.same s.token_hash token ≡ false

  spares : (token : Text) (op : Op) → SparesToken token op → Inserts c (IsOther token) op
  spares token (op_create_session owner t csrf expires agent ip) h = λ now. h
  spares token op h = tt

  revoked_rows :
      (token : Text) (w : World)
      → is_ok (revoke_session c token w).0 ≡ true
      → (revoke_session c token w).1.db.sessions ≡ delete (has_token c token) w.db.sessions
  unfolding revoke_session attempt ◌>>=◌
  revoked_rows token w h = ground arith

  no_row :
      (token : Text) (now id : ℕ) (s : SessionRow)
      → Authenticates c token now id s
      → IsOther token s
      → ⊥
  no_row token now id s (x, y, z) k = cc

  -- Logging out is final: once a token is revoked, it authenticates nobody after any calls of which
  -- none creates a session with the token.
  pub revoked-never_authenticates :
      (token : Text) (v : World) (es : List Event) (now : ℕ) (w : World) (user : User)
      → is_ok (revoke_session c token v).0 ≡ true
      → All (λ e. SparesToken token e.op) es
      → w.db ≡ final c (revoke_session c token v).1.db es
      → (find_user_by_session c token now w).0 ≢ ok user
  revoked-never_authenticates token v es now w user done spared after h =
      let rows =
        Holds-final c (IsOther token) (λ s now k. k) (revoke_session c token v).1.db es
          (All-map _ _ (λ e k. spares token e.op k) es spared)
          (rw (revoked_rows token v done) (delete-All (has_token c token) v.db.sessions)) in
      let (session, known) = find_user_by_session_sound c token now w user h in
      let (s, live, other) =
        Any-All (Authenticates c token now user.id) (IsOther token) w.db.sessions session
          (rw after rows) in
      no_row token now user.id s live other
