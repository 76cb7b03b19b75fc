-- ===== src/Auth/Server/Updates.antt =====
-- internal/auth/desktop_updates.go: the update feeds over HTTP.
use zenmind_official_server.Base.{ℕ, Bool, not, ◌||◌, Option, List, if◌then◌else◌}
use zenmind_official_server.Text.{Text, text, text_eq}
use zenmind_official_server.Release.Manifest.{
  DesktopManifest, Formats, valid_update_name, validate_desktop_manifest,
}
use zenmind_official_server.Release.Feeds.{UpdateFeed, UpdateFeedInput, FeedError, Outcome}
use zenmind_official_server.Auth.Store.Defs.{User, Collation}
use zenmind_official_server.Auth.Store.Monad.{Error, not_found, disabled_user, driver}
use zenmind_official_server.Auth.Server.Defs.{
  Outside, Config, Request, Reply, H, ◌>>=◌, pure, on_result, on_option,
}
use zenmind_official_server.Auth.Server.Cookies.{current_user, require_csrf}

-- release.DesktopUpdateCatalog, on a state of the implementation.
pub record DesktopUpdateCatalog (S : Type 0) : Type 0 where
  pub list_update_feeds : S → Outcome (List UpdateFeed)
  pub get_update_feed : Text → S → Outcome UpdateFeed
  pub update_feed_history : Text → S → Outcome (List UpdateFeed)
  -- the name, the input, the id of the user
  pub save_update_feed : Text → UpdateFeedInput → ℕ → S → Outcome UpdateFeed × S
  pub get_public_update : Text → S → Outcome DesktopManifest
  -- GetPublicJSON, where the implementation has it
  pub get_public_json : Option (Text → S → Outcome Text)

-- The body of a request: no input, an input with more behind it, or one input.
pub data Body : Type 0 where
  undecoded : Body
  trailing : UpdateFeedInput → Body
  one_object : UpdateFeedInput → Body

pub data UpdateReply : Type 0 where
  failure : ℕ → Text → UpdateReply
  csrf_refused : Reply → UpdateReply
  manifest_reply : DesktopManifest → UpdateReply
  -- the bytes of a file
  json_reply : Text → UpdateReply
  items_reply : List UpdateFeed → UpdateReply
  item_reply : UpdateFeed → UpdateReply

abbrev pub on_outcome : {A B : Type 0} → Outcome A → (A → B) → (FeedError → B) → B
on_outcome (Outcome.ok a) f g = f a
on_outcome (Outcome.err e) f g = g e

unfoldable pub update_error : FeedError → UpdateReply
unfolding text
update_error FeedError.not_found = failure 404 (text "desktop_update_not_configured")
update_error FeedError.conflict = failure 409 (text "update_conflict")
update_error FeedError.invalid = failure 503 (text "desktop_updates_unavailable")
update_error FeedError.driver = failure 503 (text "desktop_updates_unavailable")

unfoldable pub save_error : FeedError → UpdateReply
unfolding update_error text
save_error FeedError.invalid = failure 400 (text "invalid_update")
save_error FeedError.not_found = update_error FeedError.not_found
save_error FeedError.conflict = update_error FeedError.conflict
save_error FeedError.driver = update_error FeedError.driver

-- The answer to a request that is no administrator's, or his user.
pub data Admission : Type 0 where
  barred : UpdateReply → Admission
  admitted : User → Admission

unfoldable pub refuse_admin : Error → UpdateReply
unfolding text
refuse_admin not_found = failure 401 (text "unauthorized")
refuse_admin (disabled_user u) = failure 403 (text "forbidden")
refuse_admin driver = failure 403 (text "forbidden")

unfoldable pub is_admin : User → Bool
unfolding text text_eq
is_admin user = text_eq user.role (text "admin") || text_eq user.role (text "administrator")

module _ (f : Formats) {S : Type 0} (catalog : Option (DesktopUpdateCatalog S)) where
  unfoldable pub public_manifest : Outcome DesktopManifest → UpdateReply
  unfolding update_error validate_desktop_manifest
  public_manifest (Outcome.err e) = update_error e
  public_manifest (Outcome.ok m) =
      if validate_desktop_manifest f m then manifest_reply m else update_error FeedError.invalid

  unfoldable pub desktop_latest : Text → S → UpdateReply
  unfolding valid_update_name update_error public_manifest text
  desktop_latest name st =
      if not (valid_update_name name)
      then failure 404 (text "desktop_update_not_configured")
      else on_option catalog
          (λ c.
            on_option c.get_public_json (λ get. on_outcome (get name st) json_reply update_error)
              (public_manifest (c.get_public_update name st)))
          (update_error FeedError.driver)

  module _ (c : Collation) (out : Outside) (cfg : Config) where
    -- The end of updateAdmin, behind the checks.
    unfoldable pub admit_user : User → Admission
    unfolding update_error
    admit_user user =
        on_option catalog (λ _. admitted user) (barred (update_error FeedError.driver))

    -- updateAdmin; the method comes with the request.
    unfoldable pub update_admin : Text → Request → H Admission
    unfolding ◌>>=◌ text
    update_admin method r = do
      found ← current_user c out cfg r
      on_result found
          (λ user.
            if not (is_admin user)
            then pure (barred (failure 403 (text "forbidden")))
            else if text_eq method (text "PUT")
            then (do
              refused ← require_csrf c out cfg r
              pure (on_option refused (λ answer. barred (csrf_refused answer)) (admit_user user)))
            else pure (admit_user user))
          (λ e. pure (barred (refuse_admin e)))

    -- The reads of an administrator.
    abbrev read_as :
        {A : Type 0}
        → (A → UpdateReply)
        → (DesktopUpdateCatalog S → S → Outcome A)
        → S
        → Admission
        → UpdateReply
    read_as reply get st (barred answer) = answer
    read_as reply get st (admitted user) =
        on_option catalog (λ cat. on_outcome (get cat st) reply update_error)
          (update_error FeedError.driver)

    unfoldable pub admin_update_list : Text → Request → S → H UpdateReply
    unfolding ◌>>=◌ update_admin update_error
    admin_update_list method r st = do
      admission ← update_admin method r
      pure (read_as items_reply (λ cat. cat.list_update_feeds) st admission)

    unfoldable pub admin_update_detail : Text → Request → Text → S → H UpdateReply
    unfolding ◌>>=◌ update_admin update_error
    admin_update_detail method r name st = do
      admission ← update_admin method r
      pure (read_as item_reply (λ cat. cat.get_update_feed name) st admission)

    unfoldable pub admin_update_history : Text → Request → Text → S → H UpdateReply
    unfolding ◌>>=◌ update_admin update_error
    admin_update_history method r name st = do
      admission ← update_admin method r
      pure (read_as items_reply (λ cat. cat.update_feed_history name) st admission)

    unfoldable pub save_as : User → Text → UpdateFeedInput → S → UpdateReply × S
    unfolding save_error update_error
    save_as user name input st =
        on_option catalog
          (λ cat.
            let (saved, st') = cat.save_update_feed name input user.id st in
            (on_outcome saved item_reply save_error, st'))
          (update_error FeedError.driver, st)

    unfoldable pub save_body : User → Text → Body → S → UpdateReply × S
    unfolding text
    save_body user name undecoded st = (failure 400 (text "invalid_update"), st)
    save_body user name (trailing input) st = (failure 400 (text "invalid_update"), st)
    save_body user name (one_object input) st = save_as user name input st

    unfoldable pub save_admitted : Text → Body → S → Admission → UpdateReply × S
    save_admitted name body st (barred answer) = (answer, st)
    save_admitted name body st (admitted user) = save_body user name body st

    unfoldable pub admin_update_save : Text → Request → Text → Body → S → H (UpdateReply × S)
    unfolding ◌>>=◌
    admin_update_save method r name body st = do
      admission ← update_admin method r
      pure (save_admitted name body st admission)
