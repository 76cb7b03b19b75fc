-- ===== src/Auth/Server/Grants/Token.antt =====
-- Who gets an identity token, and what stands in it.
use zenmind_official_server.Base.{ℕ, ◌≡◌, some, inl, inr, Option-cases}
use zenmind_official_server.Text.{Text}
use zenmind_official_server.Auth.Avatar.{AvatarProxy}
use zenmind_official_server.Auth.Jwt.{
  Keys, IdentityJwtSigner, IdentityJwtResult, Issued, issued, refused, issue, desktop_sso_scope,
}
use zenmind_official_server.Auth.Jwt.Laws.{IsToken, issue_with_policy-IsToken}
use zenmind_official_server.Auth.Store.Defs.{User, Collation}
use zenmind_official_server.Auth.Store.Monad.{
  ok, Error, not_found, disabled_user, driver, Result-cases,
}
use zenmind_official_server.Auth.Store.Sessions.{find_session_started_at}
use zenmind_official_server.Auth.Server.Defs.{Outside, Config, Request, Machine, ◌>>=◌}
use zenmind_official_server.Auth.Server.Cookies.{session_token, current_user, require_csrf}
use zenmind_official_server.Auth.Server.Tokens.{
  token_reply, token_user, refuse_user, refuse_start, issue_reply, issue_for, desktop_sso_token,
}
use zenmind_official_server.Auth.Server.Grants.Logout.{Genuine, require_csrf-Genuine}

module _ (k : Keys) (s : IdentityJwtSigner k.Key) (p : AvatarProxy) where
  module _ (c : Collation) (out : Outside) (cfg : Config) (r : Request) where
    -- The token is one for the user and the session, at this instant.
    abbrev pub IsSessionToken : User → Text → ℕ → IdentityJwtResult → Type 0
    IsSessionToken user token now result =
        (started : ℕ) × IsToken k s (token_user out p user) now (out.sha256_hex token) s.audiences
          desktop_sso_scope s.ttl started result

    refuse_user-shut :
        (e : Error) (user : User) (avatar : Text) (result : IdentityJwtResult)
        → refuse_user e ≡ token_reply user avatar result
        → ⊥
    unfolding refuse_user
    refuse_user-shut not_found user avatar result h = cc
    refuse_user-shut (disabled_user u) user avatar result h = cc
    refuse_user-shut driver user avatar result h = cc

    refuse_start-shut :
        (e : Error) (user : User) (avatar : Text) (result : IdentityJwtResult)
        → refuse_start e ≡ token_reply user avatar result
        → ⊥
    unfolding refuse_start
    refuse_start-shut not_found user avatar result h = cc
    refuse_start-shut (disabled_user u) user avatar result h = cc
    refuse_start-shut driver user avatar result h = cc

    issue_reply-issued :
        (found user : User) (avatar : Text) (result : IdentityJwtResult) (i : Issued)
        → issue_reply k s p c out cfg found i ≡ token_reply user avatar result
        → (user ≡ found) × (i ≡ issued result)
    unfolding issue_reply
    issue_reply-issued found user avatar result (issued x) h = (cc, cc)
    issue_reply-issued found user avatar result (refused e) h = cc

    issue-IsToken :
        (user : User) (now : ℕ) (session_id : Text) (started : ℕ) (m : Machine)
        (result : IdentityJwtResult)
        → (issue k s user now session_id started m).0 ≡ issued result
        → IsToken k s user now session_id s.audiences desktop_sso_scope s.ttl started result
    unfolding issue
    issue-IsToken user now session_id started m result h =
        issue_with_policy-IsToken k s user now session_id s.audiences desktop_sso_scope s.ttl
          started m result h

    issue_for-IsSessionToken :
        (found : User) (token : Text) (m : Machine) (user : User) (avatar : Text)
        (result : IdentityJwtResult)
        → (issue_for k s p c out cfg found token m).0 ≡ token_reply user avatar result
        → (user ≡ found) × IsSessionToken found token m.world.clock result
    unfolding issue_for ◌>>=◌
    issue_for-IsSessionToken found token m user avatar result h =
        elim (Result-cases
          (find_session_started_at c (out.sha256_hex token) m.world.clock m.world).0) [
            | inr (e, failed) ↦ absurd (refuse_start-shut e user avatar result (rw failed at h))
            | inl (started, e) ↦
                let m' : Machine = record m {
                  world =
                      (find_session_started_at c (out.sha256_hex token) m.world.clock m.world).1;
                } in
                let i =
                  issue k s (token_user out p found) m.world.clock (out.sha256_hex token) started
                    m' in
                let (same, given) = issue_reply-issued found user avatar result i.0 (rw e at h) in
                (
                  same,
                  (
                    started,
                    issue-IsToken (token_user out p found) m.world.clock (out.sha256_hex token)
                        started m' result given,
                  ),
                )
          ]

    -- What desktopSsoToken has checked before it issues a token.
    abbrev pub Entitled : Text → User → Machine → Type 0
    Entitled token user m =
        (session_token r ≡ some token)
        × Genuine c out cfg r token m.world
        × ((current_user c out cfg r (require_csrf c out cfg r m).1).0 ≡ ok user)

    -- When the token is issued.
    abbrev pub issue_time : Machine → ℕ
    issue_time m = (current_user c out cfg r (require_csrf c out cfg r m).1).1.world.clock

    -- desktopSsoToken issues a token only to a request that carries the CSRF token of its session
    -- and has an allowed origin, for the user whom the session authenticates; what it issues is
    -- signed with the key of the server, and its claims are those of this user, with the hash of
    -- the session as session id, the audiences of the server and the end after the ttl.
    pub desktop_sso_token-IsSessionToken :
        (m : Machine) (user : User) (avatar : Text) (result : IdentityJwtResult)
        → (desktop_sso_token k s p c out cfg r m).0 ≡ token_reply user avatar result
        → (token : Text) × Entitled token user m × IsSessionToken user token (issue_time m) result
    unfolding desktop_sso_token ◌>>=◌
    desktop_sso_token-IsSessionToken m user avatar result h =
        elim (Option-cases (require_csrf c out cfg r m).0) [
          | inr (answer, bad) ↦ let refused = (rw bad at h) in cc
          | inl pass ↦
              let (token, sent, genuine) = require_csrf-Genuine c out cfg r m pass in
              let m' = (require_csrf c out cfg r m).1 in
              elim (Result-cases (current_user c out cfg r m').0) [
                | inr (e, bad) ↦
                    absurd (refuse_user-shut e user avatar result (rw (pass, bad) at h))
                | inl (found, e) ↦
                    let (same, is_token) =
                      issue_for-IsSessionToken found token (current_user c out cfg r m').1 user
                        avatar result (rw (pass, e, sent) at h) in
                    (token, (sent, genuine, rw same e), rw same is_token)
              ]
        ]
