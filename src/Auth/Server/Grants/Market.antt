-- ===== src/Auth/Server/Grants/Market.antt =====
-- Requests that marketProxy lets through to the market server.
use zenmind_official_server.Base.{
  ℕ, ◌≡◌, refl, false, not, ◌||◌, none, some, [], ◌∷◌, ◌⊎◌, inl, inr, Bool-cases, Option-cases,
}
use zenmind_official_server.Text.{text, is_blank}
use zenmind_official_server.Auth.Avatar.{AvatarProxy}
use zenmind_official_server.Auth.Jwt.{
  Keys, IdentityJwtSigner, IdentityJwtResult, configured, issue_with_policy,
}
use zenmind_official_server.Auth.Jwt.Laws.{Issued-cases, IsToken, issue_with_policy-IsToken}
use zenmind_official_server.Auth.Store.Defs.{User, Collation}
use zenmind_official_server.Auth.Store.Monad.{
  ok, err, Error, not_found, disabled_user, driver, Result-cases,
}
use zenmind_official_server.Auth.Server.Defs.{Url, Outside, Config, Machine, ◌>>=◌}
use zenmind_official_server.Auth.Server.Cookies.{session_token, current_user, require_csrf}
use zenmind_official_server.Auth.Server.Tokens.{token_user}
use zenmind_official_server.Auth.Server.Market.{
  MarketRequest, Outgoing, MarketConfig, forwarded, is_unsafe_method, director, or_empty,
  forward_token, forward_user, market_user, market_nobody, market_proxy,
}
use zenmind_official_server.Auth.Server.Grants.Anonymous.{Carries, director-Carries}

module _ (k : Keys) (s : IdentityJwtSigner k.Key) (p : AvatarProxy) (m : MarketConfig) where
  module _ (c : Collation) (out : Outside) (cfg : Config) (r : MarketRequest) where
    -- The token for the user and the session, for the market alone.
    abbrev pub IsMarketToken : User → ℕ → IdentityJwtResult → Type 0
    IsMarketToken user now result =
        IsToken k s (token_user out p user) now
          (out.sha256_hex (or_empty (session_token r.request))) (m.market_jwt_audience ∷ [])
          (text "market") m.market_jwt_ttl 0 result

    forward_user-Carries :
        (target : Url) (user : User) (w : Machine) (o : Outgoing)
        → (forward_user k s p m c out cfg target r user w).0 ≡ forwarded o
        → (result : IdentityJwtResult) × IsMarketToken user w.world.clock result
          × Carries target result.token o
    unfolding forward_user forward_token ◌>>=◌
    forward_user-Carries target user w o h =
        let session_id = out.sha256_hex (or_empty (session_token r.request)) in
        elim (Issued-cases
          (issue_with_policy k s (token_user out p user) w.world.clock session_id
            (m.market_jwt_audience ∷ []) (text "market") m.market_jwt_ttl 0 w).0) [
              | inl (e, none_given) ↦ let no_request = (rw none_given at h) in cc
              | inr (result, given) ↦
                  let same : director target r result.token ≡ o = (let e = (rw given at h) in cc) in
                  (
                    result,
                    issue_with_policy-IsToken k s (token_user out p user) w.world.clock session_id
                        (m.market_jwt_audience ∷ []) (text "market") m.market_jwt_ttl 0 w result
                        given,
                    rw⁻¹ same (director-Carries target r result.token),
                  )
            ]

    -- In whose name a request is forwarded: in nobody's, or in that of the user whom its session
    -- authenticates, and then under an unsafe method only if requireCSRF lets the request pass.
    abbrev pub InName : Url → Machine → Outgoing → Type 0
    InName target w o =
        let (found, w') = current_user c out cfg r.request w in
        ((found ≡ err not_found) × Carries target [] o)
        ⊎ ((user : User) × (result : IdentityJwtResult) × (found ≡ ok user)
            × ((is_unsafe_method r.method ≡ false)
                ⊎ ((require_csrf c out cfg r.request w').0 ≡ none))
            × ((now : ℕ) × IsMarketToken user now result)
            × Carries target result.token o)

    market_nobody-Carries :
        (target : Url) (e : Error) (o : Outgoing)
        → market_nobody k s p m c out cfg target r e ≡ forwarded o
        → (e ≡ not_found) × Carries target [] o
    unfolding market_nobody
    market_nobody-Carries target not_found o h =
        let same : director target r [] ≡ o = cc in (refl, rw⁻¹ same (director-Carries target r []))
    market_nobody-Carries target (disabled_user u) o h = cc
    market_nobody-Carries target driver o h = cc

    market_user-Carries :
        (target : Url) (user : User) (w : Machine) (o : Outgoing)
        → (market_user k s p m c out cfg target r user w).0 ≡ forwarded o
        → ((is_unsafe_method r.method ≡ false) ⊎ ((require_csrf c out cfg r.request w).0 ≡ none))
          × ((result : IdentityJwtResult) × ((now : ℕ) × IsMarketToken user now result)
              × Carries target result.token o)
    unfolding market_user ◌>>=◌
    market_user-Carries target user w o h = elim (Bool-cases (is_unsafe_method r.method)) [
      | inr safe ↦
          let (result, token, carries) = forward_user-Carries target user w o (rw safe at h) in
          (inl safe, (result, (w.world.clock, token), carries))
      | inl unsafe ↦ elim (Option-cases (require_csrf c out cfg r.request w).0) [
        | inr (answer, bad) ↦ let no_request = (rw (unsafe, bad) at h) in cc
        | inl pass ↦
            let w' = (require_csrf c out cfg r.request w).1 in
            let (result, token, carries) =
              forward_user-Carries target user w' o (rw (unsafe, pass) at h) in
            (inr pass, (result, (w'.world.clock, token), carries))
      ]
    ]

    -- In whose name marketProxy forwards a request: what reaches the configured market server has no
    -- cookie and, but for the Authorization that marketProxy adds, none of the twelve headers that
    -- stripIdentityHeaders names (Authorization, X-ZenMind-User-ID, X-ZenMind-User-Email,
    -- X-ZenMind-User-Role, X-ZenMind-Market-Proxy-Token, X-Forwarded-User, X-Forwarded-Email,
    -- X-Forwarded-Groups, X-Authentik-Username, X-Authentik-Email, X-Authentik-Name and
    -- X-Authentik-Uid), in any spelling of case; other headers of the client are not spoken of. This
    -- Authorization is there only for a request whose session authenticates a user, under an unsafe
    -- method only if requireCSRF lets the request pass, and carries a token for this user, this
    -- session and the market alone.
    pub market_proxy-InName :
        (w : Machine) (o : Outgoing)
        → (market_proxy k s p m c out cfg r w).0 ≡ forwarded o
        → (target : Url) × (out.parse_url m.market_server_url ≡ some target) × InName target w o
    unfolding market_proxy ◌>>=◌
    market_proxy-InName w o h =
        elim (Bool-cases (is_blank m.market_server_url || not (configured k s))) [
          | inl off ↦ let no_request = (rw off at h) in cc
          | inr on ↦ elim (Option-cases (out.parse_url m.market_server_url)) [
            | inl bad ↦ let no_request = (rw (on, bad) at h) in cc
            | inr (target, e) ↦ elim (Result-cases (current_user c out cfg r.request w).0) [
              | inr (x, nobody) ↦
                  let (unknown, carries) =
                    market_nobody-Carries target x o (rw (on, e, nobody) at h) in
                  (target, e, inl (rw (nobody, unknown) refl, carries))
              | inl (user, known) ↦
                  let (pass, (result, token, carries)) =
                    market_user-Carries target user (current_user c out cfg r.request w).1 o
                      (rw (on, e, known) at h) in
                  (target, e, inr (user, result, known, pass, token, carries))
            ]
          ]
        ]
