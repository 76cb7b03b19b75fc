-- ===== src/Auth/Server/Grants/Continue.antt =====
-- Whom a browser can hand on to the Desktop, and where to.
use zenmind_official_server.Base.{
  ◌≡◌, refl, ◌⊎◌, inl, inr, true, false, not, ◌||◌, some, arith, Bool-cases, Option-cases,
}
use zenmind_official_server.Text.{Text, trim_space, is_blank}
use zenmind_official_server.Auth.Email.{valid_email}
use zenmind_official_server.Auth.Store.Defs.{User, Collation}
use zenmind_official_server.Auth.Store.Monad.{
  ok, Error, not_found, disabled_user, driver, Result-cases,
}
use zenmind_official_server.Auth.Store.Users.Accounts.{upsert_authentik_user}
use zenmind_official_server.Auth.Server.Defs.{
  Outside, Config, Request, desktop_success, Machine, ◌>>=◌,
}
use zenmind_official_server.Auth.Server.Requests.{
  is_allowed_desktop_callback_url, is_trusted_bridge, authentik_identity,
}
use zenmind_official_server.Auth.Server.Cookies.{current_user, create_desktop_sso_ticket}
use zenmind_official_server.Auth.Server.Desktop.{
  DesktopContext, complete_desktop_sso_bridge, finish_desktop_bridge, fail_bridge,
}
use zenmind_official_server.Auth.Server.Sso.{
  SsoRequest, clear_bridge, read_bridge_context, refuse_callback, complete_bridge, finish_continue,
  refuse_continue, continue_with, desktop_sso_continue,
}

-- The context names this callback and this state.
abbrev IsTo : DesktopContext → Text → Text → Type 0
IsTo context callback state = (context.callback_url ≡ callback) × (context.desktop_state ≡ state)

module _ (c : Collation) (out : Outside) (cfg : Config) where
  -- The cookies hold an allowed callback and a state.
  abbrev pub Asks : SsoRequest → Text → Text → Type 0
  Asks r callback state =
      ((cookie : Text) × (r.callback_cookie ≡ some cookie) × (callback ≡ trim_space cookie))
      × ((cookie : Text) × (r.state_cookie ≡ some cookie) × (state ≡ trim_space cookie))
      × (is_allowed_desktop_callback_url out callback ≡ true)
      × (is_blank state ≡ false)

  read_bridge_context-Asks :
      (r : SsoRequest) (context : DesktopContext)
      → read_bridge_context out r ≡ some context
      → Asks r context.callback_url context.desktop_state
  unfolding read_bridge_context
  read_bridge_context-Asks r context h = elim (Option-cases r.callback_cookie) [
    | inl none_sent ↦ let nothing = (rw none_sent at h) in cc
    | inr (callback, sent) ↦ elim (Option-cases r.state_cookie) [
      | inl none_sent ↦ let nothing = (rw (sent, none_sent) at h) in cc
      | inr (state, sent') ↦
          elim (Bool-cases (
            is_blank (trim_space state)
            || not (is_allowed_desktop_callback_url out (trim_space callback)))) [
              | inl bad ↦ let nothing = (rw (sent, sent', bad) at h) in cc
              | inr fit ↦
                  let same = (rw (sent, sent', fit) at h) in
                  ((callback, sent, cc), (state, sent', cc), ground arith, ground arith)
            ]
    ]
  ]

  finish_desktop_bridge-IsTo :
      (r : Request) (context : DesktopContext) (user : User) (m : Machine)
      (callback state ticket : Text)
      → (finish_desktop_bridge c out cfg r context user m).0.reply
        ≡ desktop_success callback state ticket
      → IsTo context callback state
  unfolding finish_desktop_bridge fail_bridge ◌>>=◌
  finish_desktop_bridge-IsTo r context user m callback state ticket h =
      elim (Bool-cases user.enabled) [
        | inr off ↦ let failed = (rw off at h) in cc
        | inl on ↦ elim (Option-cases (create_desktop_sso_ticket c out cfg r user.id m).0) [
          | inl none_given ↦ let failed = (rw (on, none_given) at h) in cc
          | inr (t, given) ↦ let same = (rw (on, given) at h) in (cc, cc)
        ]
      ]

  complete-IsTo :
      (r : Request) (context : DesktopContext) (m : Machine) (callback state ticket : Text)
      → (complete_desktop_sso_bridge c out cfg r context m).0.reply
        ≡ desktop_success callback state ticket
      → IsTo context callback state
  unfolding complete_desktop_sso_bridge fail_bridge ◌>>=◌
  complete-IsTo r context m callback state ticket h =
      let identity = authentik_identity r in
      elim (Bool-cases
        (is_blank (trim_space identity.subject) || not (valid_email identity.email))) [
          | inl bad ↦ let failed = (rw bad at h) in cc
          | inr fit ↦ elim (Result-cases (upsert_authentik_user c identity m.world).0) [
            | inr (x, e) ↦ let failed = (rw (fit, e) at h) in cc
            | inl (user, e) ↦
                finish_desktop_bridge-IsTo r context user _ callback state ticket (rw (fit, e) at h)
          ]
        ]

  -- The user whom the session of the request authenticates, and who is enabled.
  abbrev pub IsLoggedIn : Request → Machine → Type 0
  IsLoggedIn r m =
      (user : User) × ((current_user c out cfg r m).0 ≡ ok user) × (user.enabled ≡ true)

  module _ (login_url : Text) where
    finish_continue-IsTo :
        (r : Request) (context : DesktopContext) (user : User) (m : Machine)
        (callback state ticket : Text)
        → (finish_continue c out cfg login_url r context user m).0.response.reply
          ≡ desktop_success callback state ticket
        → IsTo context callback state
          × (user.enabled ≡ true)
          × ((finish_continue c out cfg login_url r context user m).0.bridge ≡ clear_bridge)
    unfolding finish_continue ◌>>=◌
    finish_continue-IsTo r context user m callback state ticket h = elim (Bool-cases user.enabled) [
      | inr off ↦ let failed = (rw off at h) in cc
      | inl on ↦ elim (Option-cases (create_desktop_sso_ticket c out cfg r user.id m).0) [
        | inl none_given ↦ let failed = (rw (on, none_given) at h) in cc
        | inr (t, given) ↦ let same = (rw (on, given) at h) in ((cc, cc), on, rw (on, given) refl)
      ]
    ]

    refuse_continue-shut :
        (context : DesktopContext) (e : Error) (m : Machine) (callback state ticket : Text)
        → (refuse_continue c out cfg login_url context e m).0.response.reply
          ≡ desktop_success callback state ticket
        → ⊥
    unfolding refuse_continue
    refuse_continue-shut context not_found m callback state ticket h = cc
    refuse_continue-shut context (disabled_user u) m callback state ticket h = cc
    refuse_continue-shut context driver m callback state ticket h = cc

    continue_with-IsTo :
        (r : Request) (context : DesktopContext) (m : Machine) (callback state ticket : Text)
        → (continue_with c out cfg login_url r context m).0.response.reply
          ≡ desktop_success callback state ticket
        → IsTo context callback state
          × ((is_trusted_bridge cfg r ≡ true) ⊎ IsLoggedIn r m)
          × ((continue_with c out cfg login_url r context m).0.bridge ≡ clear_bridge)
    unfolding continue_with complete_bridge ◌>>=◌
    continue_with-IsTo r context m callback state ticket h =
        elim (Bool-cases (is_trusted_bridge cfg r)) [
          | inl trusted ↦ (
            complete-IsTo r context m callback state ticket (rw trusted at h),
            inl trusted,
            rw trusted refl,
          )
          | inr browser ↦ elim (Result-cases (current_user c out cfg r m).0) [
            | inr (e, bad) ↦
                absurd
                  (refuse_continue-shut context e _ callback state ticket (rw (browser, bad) at h))
            | inl (user, known) ↦
                let (to, on, clear) =
                  finish_continue-IsTo r context user (current_user c out cfg r m).1 callback state
                    ticket (rw (browser, known) at h) in
                (to, inr (user, known, on), rw (browser, known) clear)
          ]
        ]

    -- desktopSsoContinue sends a ticket only to a Desktop that asked for it and only for somebody
    -- who is logged in: the callback and the state are those of the bridge cookies, the callback is
    -- an allowed one on this host, the session of the request authenticates an enabled user or the
    -- request carries the bridge token of the server, and the bridge cookies are cleared.
    pub desktop_sso_continue-IsLoggedIn :
        (r : SsoRequest) (m : Machine) (callback state ticket : Text)
        → (desktop_sso_continue c out cfg login_url r m).0.response.reply
          ≡ desktop_success callback state ticket
        → Asks r callback state
          × ((is_trusted_bridge cfg r.request ≡ true) ⊎ IsLoggedIn r.request m)
          × ((desktop_sso_continue c out cfg login_url r m).0.bridge ≡ clear_bridge)
    unfolding desktop_sso_continue refuse_callback ◌>>=◌
    desktop_sso_continue-IsLoggedIn r m callback state ticket h =
        elim (Option-cases (read_bridge_context out r)) [
          | inl nothing ↦ let refused = (rw nothing at h) in cc
          | inr (context, read) ↦
              let ((to_callback, to_state), who, clear) =
                continue_with-IsTo r.request context m callback state ticket (rw read at h) in
              (
                rw⁻¹ (to_callback, to_state) (read_bridge_context-Asks r context read),
                who,
                rw read clear,
              )
        ]
