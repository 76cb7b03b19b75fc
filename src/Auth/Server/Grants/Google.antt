-- ===== src/Auth/Server/Grants/Google.antt =====
-- Who gets a session or a ticket by a Google sign-in.
use zenmind_official_server.Base.{
  ℕ, ◌≡◌, Bool, true, false, some, [], arith, inl, inr, Bool-cases, Option-cases, ◌⊎◌,
}
use zenmind_official_server.Text.{Text, text, trim_space, is_blank}
use zenmind_official_server.Auth.Store.Defs.{User, GoogleIdentity, OauthRequest, Collation}
use zenmind_official_server.Auth.Store.Monad.{
  World, ok, Result-cases, Error, not_found, disabled_user, driver,
}
use zenmind_official_server.Auth.Store.Oauth.{consume_oauth_request}
use zenmind_official_server.Auth.Store.Users.Identity.{upsert_google_user}
use zenmind_official_server.Auth.Store.Users.Linking.{google-IsLinked}
use zenmind_official_server.Auth.Server.Defs.{
  Outside, Config, Request, session_cookie, Response, Machine, ◌>>=◌, desktop_success,
}
use zenmind_official_server.Auth.Server.Google.{
  google_callback, exchange, refuse_google, refuse_state, finish_google, refuse_disabled,
}

module _ (c : Collation) (out : Outside) (cfg : Config) (r : Request) where
  -- The answer lets somebody in: it sets a session cookie, or hands out a Desktop ticket.
  abbrev pub LetsIn : Response → Type 0
  LetsIn a =
      ((token : Text) × (expires : ℕ) × (a.cookie ≡ session_cookie token expires))
      ⊎ ((url : Text) × (state : Text) × (ticket : Text) × (a.reply
            ≡ desktop_success url state ticket))

  refuse_google-shut :
      (email name reason page : Text) (s : Machine)
      → LetsIn (refuse_google c out cfg r email name reason page s).0
      → ⊥
  unfolding refuse_google ◌>>=◌
  refuse_google-shut email name reason page s (inl (t, x, h)) = cc
  refuse_google-shut email name reason page s (inr (u, d, t, h)) = cc

  refuse_disabled-shut :
      (request : OauthRequest) (user : User) (s : Machine)
      → LetsIn (refuse_disabled c out cfg r request user s).0
      → ⊥
  unfolding refuse_disabled ◌>>=◌
  refuse_disabled-shut request user s (inl (t, x, h)) = cc
  refuse_disabled-shut request user s (inr (u, d, t, h)) = ground arith

  finish-LetsIn :
      (request : OauthRequest) (user : User) (s : Machine)
      → LetsIn (finish_google c out cfg r request user s).0
      → user.enabled ≡ true
  unfolding finish_google
  finish-LetsIn request user s h = elim (Bool-cases user.enabled) [
    | inl on ↦ on
    | inr off ↦ absurd (refuse_disabled-shut request user s (rw off at h))
  ]

  refuse_state-shut :
      (blank : Bool) (e : Error) (s : Machine) → LetsIn (refuse_state c out cfg r blank e s).0 → ⊥
  unfolding refuse_state
  refuse_state-shut blank not_found s h =
      refuse_google-shut [] [] (text "invalid_state") (text "invalid_state") s h
  refuse_state-shut true (disabled_user u) s h =
      refuse_google-shut [] [] (text "invalid_state") (text "invalid_state") s h
  refuse_state-shut false (disabled_user u) s (inl (t, x, h)) = cc
  refuse_state-shut false (disabled_user u) s (inr (u', d, t, h)) = cc
  refuse_state-shut true driver s h =
      refuse_google-shut [] [] (text "invalid_state") (text "invalid_state") s h
  refuse_state-shut false driver s (inl (t, x, h)) = cc
  refuse_state-shut false driver s (inr (u, d, t, h)) = cc

  -- Google has vouched for the identity with the code of the request, and the store has returned an
  -- enabled user for it.
  abbrev pub Vouched : OauthRequest → World → Type 0
  Vouched request w =
      (identity : GoogleIdentity) × (out.exchange_code (trim_space (r.query (text "code")))
          request.code_verifier request.nonce
        ≡ some identity)
      × (identity.email_verified ≡ true)
      × ((user : User) × ((upsert_google_user c identity w).0 ≡ ok user) × (user.enabled ≡ true))

  exchange-LetsIn :
      (request : OauthRequest) (s : Machine)
      → LetsIn (exchange c out cfg r request s).0
      → Vouched request s.world
  unfolding exchange ◌>>=◌
  exchange-LetsIn request s h =
      let code = trim_space (r.query (text "code")) in
      elim (Bool-cases (is_blank code)) [
        | inl none_given ↦ absurd (
            refuse_google-shut [] [] (text "missing_code") (text "missing_code") s
              (rw none_given at h))
        | inr given ↦
            elim (Option-cases (out.exchange_code code request.code_verifier request.nonce)) [
              | inl none_given ↦ absurd (
                  refuse_google-shut [] [] (text "exchange_failed") (text "google_exchange_failed")
                    s (rw (given, none_given) at h))
              | inr (identity, e) ↦ elim (Result-cases (upsert_google_user c identity s.world).0) [
                | inr (x, e') ↦ absurd (
                    refuse_google-shut identity.email identity.name (text "user_upsert_failed")
                      (text "google_user_failed")
                      (record s { world = (upsert_google_user c identity s.world).1 })
                      (rw (given, e, e') at h))
                | inl (user, e') ↦
                    let on =
                      finish-LetsIn request user
                        (record s { world = (upsert_google_user c identity s.world).1 })
                        (rw (given, e, e') at h) in
                    let (verified, linked, same) = google-IsLinked c identity user s.world e' in
                    (identity, e, verified, (user, e', on))
              ]
            ]
      ]

  -- googleCallback lets somebody in only if the state of the request has just been consumed, Google
  -- has exchanged the code, with the verifier and the nonce that were stored for this state, for an
  -- identity with a verified address, and the user of this identity is enabled.
  pub google_callback-LetsIn :
      (s : Machine)
      → LetsIn (google_callback c out cfg r s).0
      → (request : OauthRequest) × ((consume_oauth_request c
            (out.sha256_hex (trim_space (r.query (text "state"))))
            s.world.clock
            s.world).0
          ≡ ok request)
        × Vouched request
            (consume_oauth_request c
              (out.sha256_hex (trim_space (r.query (text "state"))))
              s.world.clock
              s.world).1
  unfolding google_callback ◌>>=◌
  google_callback-LetsIn s h =
      let state = trim_space (r.query (text "state")) in
      elim (Result-cases (consume_oauth_request c (out.sha256_hex state) s.world.clock s.world).0) [
        | inr (x, e) ↦ absurd (
            refuse_state-shut (is_blank state) x
              (record s {
                world = (consume_oauth_request c (out.sha256_hex state) s.world.clock s.world).1;
              })
              (rw e at h))
        | inl (request, e) ↦ elim (Bool-cases (is_blank state)) [
          | inl none_given ↦ absurd (
              refuse_google-shut [] [] (text "invalid_state") (text "invalid_state")
                (record s {
                  world = (consume_oauth_request c (out.sha256_hex state) s.world.clock s.world).1;
                })
                (rw (e, none_given) at h))
          | inr given ↦ (
            request,
            e,
            exchange-LetsIn request
                (record s {
                  world = (consume_oauth_request c (out.sha256_hex state) s.world.clock s.world).1;
                })
                (rw (e, given) at h),
          )
        ]
      ]
