-- ===== src/Auth/Server/Grants/Desktop.antt =====
-- Who gets a session in the Desktop, and who through the Authentik bridge.
use zenmind_official_server.Base.{
  ℕ, ◌≡◌, true, false, not, ◌||◌, some, arith, inl, inr, Bool-cases, Option-cases, ◌⊎◌,
}
use zenmind_official_server.Text.{Text, text, text_eq, trim_space, to_lower, is_blank}
use zenmind_official_server.Auth.Email.{valid_email}
use zenmind_official_server.Auth.Store.Defs.{User, GoogleIdentity, Collation}
use zenmind_official_server.Auth.Store.Monad.{
  World, ok, Result-cases, Error, not_found, disabled_user, driver,
}
use zenmind_official_server.Auth.Store.Tickets.{consume_desktop_sso_ticket}
use zenmind_official_server.Auth.Store.Tickets.Laws.{consume-enabled}
use zenmind_official_server.Auth.Store.Users.Identity.{upsert_google_user}
use zenmind_official_server.Auth.Store.Users.Linking.{google-IsLinked}
use zenmind_official_server.Auth.Store.Users.Accounts.{upsert_authentik_user}
use zenmind_official_server.Auth.Server.Defs.{
  Outside, Config, Request, session_cookie, Machine, ◌>>=◌,
}
use zenmind_official_server.Auth.Server.Requests.{
  valid_request_origin, is_trusted_bridge, authentik_identity,
}
use zenmind_official_server.Auth.Server.Desktop.{
  DesktopSsoSessionRequest, desktop_sso_session, ticket_session, token_session, refuse_ticket,
  refuse_bridge, refuse_bridge_user, finish_bridge, authentik_sso_session,
}

module _ (c : Collation) (out : Outside) (cfg : Config) (r : Request) where
  finish-session :
      (user : User) (s : Machine) (token : Text) (expires : ℕ)
      → (finish_bridge c out cfg r user s).0.cookie ≡ session_cookie token expires
      → user.enabled ≡ true
  unfolding finish_bridge refuse_bridge_user ◌>>=◌
  finish-session user s token expires h = ground arith

  -- authentikSsoSession sets a session cookie only if the request carries the bridge token of the
  -- server, the identity in its headers has a subject and a valid address, and the user that the
  -- store returns for the identity is enabled.
  pub authentik_sso_session-session :
      (s : Machine) (token : Text) (expires : ℕ)
      → (authentik_sso_session c out cfg r s).0.cookie ≡ session_cookie token expires
      → (is_trusted_bridge cfg r ≡ true)
        × (is_blank (trim_space (authentik_identity r).subject) ≡ false)
        × (valid_email (authentik_identity r).email ≡ true)
        × ((user : User) × ((upsert_authentik_user c (authentik_identity r) s.world).0 ≡ ok user)
            × (user.enabled ≡ true))
  unfolding authentik_sso_session refuse_bridge ◌>>=◌
  authentik_sso_session-session s token expires h = elim (Bool-cases (is_trusted_bridge cfg r)) [
    | inr strange ↦ let refused = (rw strange at h) in cc
    | inl trusted ↦
        let identity = authentik_identity r in
        elim (Bool-cases
          (is_blank (trim_space identity.subject) || not (valid_email identity.email))) [
            | inl bad ↦ let refused = (rw (trusted, bad) at h) in cc
            | inr fit ↦ elim (Result-cases (upsert_authentik_user c identity s.world).0) [
              | inr (x, e) ↦ let refused = (rw (trusted, fit, e) at h) in cc
              | inl (user, e) ↦
                  let on = finish-session user _ token expires (rw (trusted, fit, e) at h) in
                  (trusted, ground arith, ground arith, (user, e, on))
            ]
          ]
  ]

  -- The ticket has been redeemed for an enabled user.
  abbrev pub Redeemed : Text → World → Type 0
  Redeemed ticket w =
      (user : User) × ((consume_desktop_sso_ticket c (out.sha256_hex ticket) w.clock w).0 ≡ ok user)
      × (user.enabled ≡ true)

  -- Google has signed the token, for an identity with a verified address and an enabled user.
  abbrev pub Signed : Text → World → Type 0
  Signed id_token w =
      (identity : GoogleIdentity) × (out.verify_id_token id_token ≡ some identity)
      × (identity.email_verified ≡ true)
      × ((user : User) × ((upsert_google_user c identity w).0 ≡ ok user) × (user.enabled ≡ true))

  refuse_ticket-shut :
      (e : Error) (s : Machine) (token : Text) (expires : ℕ)
      → (refuse_ticket c out cfg r e s).0.cookie ≡ session_cookie token expires
      → ⊥
  unfolding refuse_ticket ◌>>=◌
  refuse_ticket-shut not_found s token expires h = cc
  refuse_ticket-shut (disabled_user u) s token expires h = cc
  refuse_ticket-shut driver s token expires h = cc

  ticket-session :
      (ticket : Text) (s : Machine) (token : Text) (expires : ℕ)
      → (ticket_session c out cfg r ticket s).0.cookie ≡ session_cookie token expires
      → Redeemed ticket s.world
  unfolding ticket_session ◌>>=◌
  ticket-session ticket s token expires h =
      elim (Result-cases
        (consume_desktop_sso_ticket c (out.sha256_hex ticket) s.world.clock s.world).0) [
          | inr (x, e) ↦ absurd (refuse_ticket-shut x _ token expires (rw e at h))
          | inl (user, e) ↦
              (user, e, consume-enabled c (out.sha256_hex ticket) s.world.clock s.world user e)
        ]

  token-session :
      (id_token : Text) (s : Machine) (token : Text) (expires : ℕ)
      → (token_session c out cfg r id_token s).0.cookie ≡ session_cookie token expires
      → Signed id_token s.world
  unfolding token_session ◌>>=◌
  token-session id_token s token expires h = elim (Option-cases (out.verify_id_token id_token)) [
    | inl bad ↦ let refused = (rw bad at h) in cc
    | inr (identity, e) ↦ elim (Result-cases (upsert_google_user c identity s.world).0) [
      | inr (x, e') ↦ let refused = (rw (e, e') at h) in cc
      | inl (user, e') ↦ elim (Bool-cases user.enabled) [
        | inr off ↦ let refused = (rw (e, e', off) at h) in cc
        | inl on ↦
            let (verified, linked, same) = google-IsLinked c identity user s.world e' in
            (identity, e, verified, (user, e', on))
      ]
    ]
  ]

  -- desktopSsoSession sets a session cookie only if the origin is allowed and either a ticket of the
  -- request has been redeemed, or its Google token verifies; the user is enabled.
  pub desktop_sso_session-session :
      (req : DesktopSsoSessionRequest) (s : Machine) (token : Text) (expires : ℕ)
      → (desktop_sso_session c out cfg r (some req) s).0.cookie ≡ session_cookie token expires
      → (valid_request_origin out cfg r ≡ true)
        × (Redeemed (trim_space req.ticket) s.world ⊎ Signed (trim_space req.id_token) s.world)
  unfolding desktop_sso_session
  desktop_sso_session-session req s token expires h =
      elim (Bool-cases (valid_request_origin out cfg r)) [
        | inr bad ↦ let refused = (rw bad at h) in cc
        | inl good ↦ elim (Bool-cases (is_blank (trim_space req.ticket))) [
          | inr given ↦ (
            good,
            inl (ticket-session (trim_space req.ticket) s token expires (rw (good, given) at h)),
          )
          | inl blank ↦
              elim (Bool-cases (text_eq (to_lower (trim_space req.provider)) (text "google"))) [
                | inr other ↦ let refused = (rw (good, blank, other) at h) in cc
                | inl google ↦ elim (Bool-cases out.google_configured) [
                  | inr off ↦ let refused = (rw (good, blank, google, off) at h) in cc
                  | inl on ↦ elim (Bool-cases (is_blank (trim_space req.id_token))) [
                    | inl no_token ↦
                        let refused = (rw (good, blank, google, on, no_token) at h) in cc
                    | inr some_token ↦ (
                      good,
                      inr (
                          token-session (trim_space req.id_token) s token expires
                            (rw (good, blank, google, on, some_token) at h)),
                    )
                  ]
                ]
              ]
        ]
      ]
