-- ===== src/Auth/Server/Grants/Updates.antt =====
-- Who may change an update feed.
use zenmind_official_server.Base.{
  ◌≡◌, refl, ◌⊎◌, inl, inr, true, Option, some, arith, Bool-cases, Option-cases,
}
use zenmind_official_server.Text.{Text, text}
use zenmind_official_server.Text.Laws.{text_eq_iff, text_eq_refl}
use zenmind_official_server.Release.Manifest.{Formats}
use zenmind_official_server.Release.Feeds.{UpdateFeedInput}
use zenmind_official_server.Auth.Store.Defs.{User, Collation}
use zenmind_official_server.Auth.Store.Monad.{ok, Result-cases}
use zenmind_official_server.Auth.Server.Defs.{Outside, Config, Request, Machine, ◌>>=◌}
use zenmind_official_server.Auth.Server.Cookies.{session_token, current_user, require_csrf}
use zenmind_official_server.Auth.Server.Updates.{
  DesktopUpdateCatalog, Body, undecoded, trailing, one_object, UpdateReply, Admission, barred,
  admitted, is_admin, admit_user, update_admin, save_as, save_body, save_admitted,
  admin_update_save,
}
use zenmind_official_server.Auth.Server.Grants.Logout.{Genuine, require_csrf-Genuine}

Admission-cases :
    (a : Admission) → ((r : UpdateReply) × (a ≡ barred r)) ⊎ ((u : User) × (a ≡ admitted u))
Admission-cases (barred r) = inl (r, refl)
Admission-cases (admitted u) = inr (u, refl)

is_admin-role :
    (user : User)
    → is_admin user ≡ true
    → (user.role ≡ text "admin") ⊎ (user.role ≡ text "administrator")
unfolding is_admin
is_admin-role user h =
    ground
      (arith, text_eq_iff user.role (text "admin"), text_eq_iff user.role (text "administrator"))

module _ (f : Formats) {S : Type 0} (catalog : Option (DesktopUpdateCatalog S)) where
  module _ (c : Collation) (out : Outside) (cfg : Config) (r : Request) where
    -- The request is that of an administrator, carries the CSRF token of his session, and its
    -- origin is allowed.
    abbrev pub IsAdministered : User → Machine → Type 0
    IsAdministered user m =
        let (found, m') = current_user c out cfg r m in
        (found ≡ ok user)
        × ((user.role ≡ text "admin") ⊎ (user.role ≡ text "administrator"))
        × ((token : Text) × (session_token r ≡ some token) × Genuine c out cfg r token m'.world)

    admit_user-same :
        (found user : User) → admit_user f catalog c out cfg found ≡ admitted user → found ≡ user
    unfolding admit_user
    admit_user-same found user h = elim (Option-cases catalog) [
      | inl off ↦ let none_admitted = (rw off at h) in cc
      | inr (cat, on) ↦ let same = (rw on at h) in cc
    ]

    save_as-cases :
        (name : Text) (input : UpdateFeedInput) (st : S) (user : User)
        → ((save_as f catalog c out cfg user name input st).1 ≡ st)
          ⊎ ((found : User) × (given : UpdateFeedInput) × (cat : DesktopUpdateCatalog S) × (admitted
                  user
                ≡ admitted found)
              × (one_object input ≡ one_object given)
              × (catalog ≡ some cat)
              × ((save_as f catalog c out cfg user name input st).1
                  ≡ (cat.save_update_feed name given found.id st).1))
    unfolding save_as
    save_as-cases name input st user = elim (Option-cases catalog) [
      | inl off ↦ inl (rw off refl)
      | inr (cat, on) ↦ inr (user, input, cat, refl, refl, on, rw on refl)
    ]

    update_admin-IsAdministered :
        (m : Machine) (user : User)
        → (update_admin f catalog c out cfg (text "PUT") r m).0 ≡ admitted user
        → IsAdministered user m
    unfolding update_admin ◌>>=◌
    update_admin-IsAdministered m user h = elim (Result-cases (current_user c out cfg r m).0) [
      | inr (e, bad) ↦ let none_admitted = (rw bad at h) in cc
      | inl (found, known) ↦ elim (Bool-cases (is_admin found)) [
        | inr other ↦ let none_admitted = (rw (known, other) at h) in cc
        | inl admin ↦
            let m' = (current_user c out cfg r m).1 in
            elim (Option-cases (require_csrf c out cfg r m').0) [
              | inr (answer, bad) ↦
                  let none_admitted = (rw (known, admin, text_eq_refl (text "PUT"), bad) at h) in cc
              | inl pass ↦
                  let same =
                    admit_user-same found user
                      (rw (known, admin, text_eq_refl (text "PUT"), pass) at h) in
                  (
                    rw⁻¹ same known,
                    rw⁻¹ same (is_admin-role found admin),
                    require_csrf-Genuine c out cfg r m' pass,
                  )
            ]
      ]
    ]

    -- What a save does once it is admitted: nothing, or what the catalog does for this user.
    save_admitted-cases :
        (name : Text) (body : Body) (st : S) (a : Admission)
        → ((save_admitted f catalog c out cfg name body st a).1 ≡ st)
          ⊎ ((user : User) × (input : UpdateFeedInput) × (cat : DesktopUpdateCatalog S) × (a
                ≡ admitted user)
              × (body ≡ one_object input)
              × (catalog ≡ some cat)
              × ((save_admitted f catalog c out cfg name body st a).1
                  ≡ (cat.save_update_feed name input user.id st).1))
    unfolding save_admitted save_body
    save_admitted-cases name body st (barred answer) = inl refl
    save_admitted-cases name undecoded st (admitted user) = inl refl
    save_admitted-cases name (trailing input) st (admitted user) = inl refl
    save_admitted-cases name (one_object input) st (admitted user) =
        save_as-cases name input st user

    -- Only an administrator changes an update feed: adminUpdateSave leaves the catalog as it is, or
    -- does to it what SaveUpdateFeed does for the input of the request and the id of its user; then
    -- the session of the request authenticates this user, whose role is admin or administrator, and
    -- the request carries the CSRF token of the session and has an allowed origin.
    pub admin_update_save-IsAdministered :
        (name : Text) (body : Body) (st : S) (m : Machine)
        → let st' = (admin_update_save f catalog c out cfg (text "PUT") r name body st m).0.1 in
          (st' ≡ st)
          ⊎ ((user : User) × (input : UpdateFeedInput) × (cat : DesktopUpdateCatalog S)
              × IsAdministered user m
              × (body ≡ one_object input)
              × (catalog ≡ some cat)
              × (st' ≡ (cat.save_update_feed name input user.id st).1))
    unfolding admin_update_save ◌>>=◌
    admin_update_save-IsAdministered name body st m =
        elim (save_admitted-cases name body st
          (update_admin f catalog c out cfg (text "PUT") r m).0) [
            | inl same ↦ inl same
            | inr (user, input, cat, let_in, one, there, saved) ↦
                inr (user, input, cat, update_admin-IsAdministered m user let_in, one, there, saved)
          ]
