-- ===== src/Auth/Store/Users/Linking.antt =====
-- To which account a sign-in leads.
use zenmind_official_server.Base.{
  drop, ℕ, ◌≡◌, refl, ◌∙◌, true, not, ◌||◌, Option, none, some, List, [], ◌∷◌, arith, inl, inr,
  Bool-cases, Option-cases,
}
use zenmind_official_server.Text.{Text, text, trim_space, is_blank, normalize_email}
use zenmind_official_server.Auth.Email.{valid_email}
use zenmind_official_server.Auth.Store.Defs.{
  Db, User, UserRow, IdentityRow, GoogleIdentity, Collation,
}
use zenmind_official_server.Auth.Store.Monad.{
  World, ok, attempt, transaction, transaction-ok, begun, pure, ◌>>◌, bind-ok, ◌>>=◌,
}
use zenmind_official_server.Auth.Store.Table.{find, update}
use zenmind_official_server.Auth.Store.Table.Laws.{find-append_new, find-update}
use zenmind_official_server.Auth.Store.Users.Rows.{scan_user, has_id}
use zenmind_official_server.Auth.Store.Users.Identity.{
  is_identity, account_id, sign_in_as, link_identity, link_new, linked_id, upsert_identity_body,
  upsert_identity_user, upsert_google_user, touch_identity, update_profile, new_identity,
}

module _ (c : Collation) (provider subject : Text) where
  -- The account that the identity is linked to.
  abbrev pub account_of : Option IdentityRow → Option ℕ
  account_of none = none
  account_of (some i) = some i.user_id

  abbrev pub IsLinked : ℕ → Db → Type 0
  IsLinked id db = account_of (find (is_identity c provider subject) db.identities) ≡ some id

  link_step :
      (email : Text) (now a id : ℕ) (w : World)
      → ((link_identity c a provider subject email now >> pure a) w).0 ≡ ok id
      → IsLinked id ((link_identity c a provider subject email now >> pure a) w).1.db
  unfolding link_identity attempt ◌>>=◌
  link_step email now a id w h = ground (
    arith,
    find-append_new (is_identity c provider subject) w.db.identities
        (new_identity a provider subject email now),
    c.same_refl provider,
    c.same_refl subject,
  )

  link_new-IsLinked :
      (email name avatar : Text) (now id : ℕ) (w : World)
      → (link_new c provider subject email name avatar now w).0 ≡ ok id
      → IsLinked id (link_new c provider subject email name avatar now w).1.db
  unfolding link_new
  link_new-IsLinked email name avatar now id w h =
      let (a, first, whole) =
        bind-ok (account_id c provider subject email name avatar now)
          (λ a. link_identity c a provider subject email now >> pure a) w id h in
      rw whole (
        link_step email now a id (account_id c provider subject email name avatar now w).1
          (rw whole at h))

  linked_id-IsLinked :
      (email name avatar : Text) (now id : ℕ) (w : World)
      → (linked_id c provider subject email name avatar now w).0 ≡ ok id
      → IsLinked id (linked_id c provider subject email name avatar now w).1.db
  unfolding linked_id attempt ◌>>=◌
  linked_id-IsLinked email name avatar now id w h =
      ground
        (arith, link_new-IsLinked email name avatar now id (record w { faults = drop 1 w.faults }))

  linked_id-same :
      (email name avatar : Text) (now id : ℕ) (w : World) (old : ℕ)
      → IsLinked old w.db
      → (linked_id c provider subject email name avatar now w).0 ≡ ok id
      → id ≡ old
  unfolding linked_id attempt ◌>>=◌
  linked_id-same email name avatar now id w old k h = ground arith

  found_id :
      (id : ℕ) (users : List UserRow) (u : UserRow) → find (has_id id) users ≡ some u → u.id ≡ id
  unfolding find
  found_id id [] u h = cc
  found_id id (v ∷ vs) u h = ground (arith, found_id id vs u)

  touched :
      (email : Text) (now id : ℕ) (rows : List IdentityRow)
      → account_of (find (is_identity c provider subject) rows) ≡ some id
      → account_of (
          find
            (is_identity c provider subject)
            (update (is_identity c provider subject) (touch_identity c email now) rows))
        ≡ some id
  touched email now id rows h = elim (Option-cases (find (is_identity c provider subject) rows)) [
    | inl e ↦ cc (h, e)
    | inr (i, e) ↦
        rw
          (find-update (is_identity c provider subject) (is_identity c provider subject)
            (touch_identity c email now) (λ r. refl) rows i e)
          (ground arith)
  ]

  sign_in_writes :
      (email name avatar : Text) (now id : ℕ) (user : User) (w : World)
      → (sign_in_as c provider subject email name avatar now id w).0 ≡ ok user
      → ((sign_in_as c provider subject email name avatar now id w).1.db.identities
          ≡ update (is_identity c provider subject) (touch_identity c email now) w.db.identities)
        × ((u : UserRow) × (find
                (has_id id)
                (update (has_id id) (update_profile c provider email name avatar now) w.db.users)
              ≡ some u)
            × (user.id ≡ u.id))
  unfolding sign_in_as attempt ◌>>=◌ scan_user
  sign_in_writes email name avatar now id user w h = ground arith

  sign_in_as-IsLinked :
      (email name avatar : Text) (now id : ℕ) (user : User) (w : World)
      → IsLinked id w.db
      → (sign_in_as c provider subject email name avatar now id w).0 ≡ ok user
      → IsLinked id (sign_in_as c provider subject email name avatar now id w).1.db × (user.id ≡ id)
  sign_in_as-IsLinked email name avatar now id user w k h =
      let (written, (u, row, same)) = sign_in_writes email name avatar now id user w h in
      (rw written (touched email now id w.db.identities k), same ∙ found_id id _ u row)

  body-IsLinked :
      (email name avatar : Text) (now : ℕ) (user : User) (w : World)
      → (upsert_identity_body c provider subject email name avatar now w).0 ≡ ok user
      → IsLinked user.id (upsert_identity_body c provider subject email name avatar now w).1.db
        × ((id : ℕ) → IsLinked id w.db → user.id ≡ id)
  unfolding upsert_identity_body
  body-IsLinked email name avatar now user w h =
      let (id, first, whole) =
        bind-ok (linked_id c provider subject email name avatar now)
          (sign_in_as c provider subject email name avatar now) w user h in
      let v = (linked_id c provider subject email name avatar now w).1 in
      let k = linked_id-IsLinked email name avatar now id w first in
      let (kept, same) = sign_in_as-IsLinked email name avatar now id user v k (rw whole at h) in
      (
        rw (whole, same) kept,
        λ id' k'. same ∙ linked_id-same email name avatar now id w id' k' first,
      )

  transaction-IsLinked :
      (email name avatar : Text) (now : ℕ) (user : User) (w : World)
      → (transaction (upsert_identity_body c provider subject email name avatar now) w).0 ≡ ok user
      → IsLinked user.id
          (transaction (upsert_identity_body c provider subject email name avatar now) w).1.db
        × ((id : ℕ) → IsLinked id w.db → user.id ≡ id)
  transaction-IsLinked email name avatar now user w h =
      let (run, written) =
        transaction-ok (upsert_identity_body c provider subject email name avatar now) w user h in
      let (kept, same) = body-IsLinked email name avatar now user (begun w) run in
      (rw written kept, same)

module _ (c : Collation) where
  -- A sign-in links the identity to the account that it returns, and returns the account to which
  -- the identity was linked.
  pub upsert-IsLinked :
      (provider subject email name avatar : Text) (user : User) (w : World)
      → (upsert_identity_user c provider subject email name avatar w).0 ≡ ok user
      → IsLinked c
          (trim_space provider)
          (trim_space subject)
          user.id
          (upsert_identity_user c provider subject email name avatar w).1.db
        × ((id : ℕ) → IsLinked c (trim_space provider) (trim_space subject) id w.db → user.id ≡ id)
  unfolding upsert_identity_user ◌>>=◌
  upsert-IsLinked provider subject email name avatar user w h =
      elim (Bool-cases (
        is_blank (trim_space provider)
        || is_blank (trim_space subject)
        || not (valid_email (normalize_email email)))) [
          | inl e ↦ let failed = (rw e at h) in cc
          | inr e ↦ rw e (
              transaction-IsLinked c (trim_space provider) (trim_space subject)
                (normalize_email email) _ avatar w.clock user w (rw e at h))
        ]

  pub google-IsLinked :
      (g : GoogleIdentity) (user : User) (w : World)
      → (upsert_google_user c g w).0 ≡ ok user
      → (g.email_verified ≡ true)
        × IsLinked c
            (trim_space (text "google"))
            (trim_space (trim_space g.subject))
            user.id
            (upsert_google_user c g w).1.db
        × ((id : ℕ)
            → IsLinked c (trim_space (text "google")) (trim_space (trim_space g.subject)) id w.db
            → user.id ≡ id)
  unfolding upsert_google_user
  google-IsLinked g user w h = elim (Bool-cases g.email_verified) [
    | inl e ↦
        let (kept, same) =
          upsert-IsLinked (text "google") (trim_space g.subject) (normalize_email g.email)
            (trim_space g.name) (trim_space g.picture) user w (rw e at h) in
        rw e (refl, kept, same)
    | inr e ↦ let failed = (rw e at h) in cc
  ]
