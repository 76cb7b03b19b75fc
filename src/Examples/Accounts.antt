-- ===== src/Examples/Accounts.antt =====
-- internal/auth/store.go: sessions and accounts.
use zenmind_official_server.Base.{some, ◌≡◌, ◌≢◌, refl, true, false, List, [], ◌∷◌, arith, All, Any}
use zenmind_official_server.Text.{text, text_eq}
use zenmind_official_server.Regex.{match_string}
use zenmind_official_server.Auth.Email.{email_pattern}
use zenmind_official_server.Auth.Store.Users.Accounts.{touch_last_login}
use zenmind_official_server.Auth.Store.Defs.{User, UserRow, Db, GoogleIdentity}
use zenmind_official_server.Auth.Store.Monad.{ok, is_ok, World}
use zenmind_official_server.Auth.Store.Table.{find}
use zenmind_official_server.Auth.Store.Users.Rows.{scan_user}
use zenmind_official_server.Auth.Store.Sessions.{
  create_session, find_user_by_session, revoke_session,
}
use zenmind_official_server.Auth.Store.Sessions.Laws.{create_session-authenticates}
use zenmind_official_server.Auth.Store.History.{op_touch, op_create_session, op_touch, Event, final}
use zenmind_official_server.Auth.Store.History.Authentication.{
  Issues, authentication-origin, revoked-never_authenticates,
}
use zenmind_official_server.Auth.Store.History.Links.{google-same_account}
use zenmind_official_server.Auth.Store.Users.Identity.{upsert_google_user}
use zenmind_official_server.Auth.Store.History.Authority.{
  IsAdmin, WasAdmin, Disabled-never_authenticates, administrators_final,
}
use zenmind_official_server.Examples.Tables.{binary, no_rows, one_user, ann, quiet, call}

abbrev opened : List Event
opened = call (op_create_session 1 (text "t") (text "k") 100 [] []) 10 ∷ []

abbrev ann_user : User
ann_user = scan_user ann []

seen :
    (find_user_by_session binary (text "t") 20 (quiet (final binary one_user opened) 20)).0
    ≡ ok ann_user
unfolding final find_user_by_session create_session text text_eq scan_user
seen = refl

authentication-origin_example : Any (λ e. Issues binary (text "t") 20 ann_user.id e.op) opened
authentication-origin_example =
    authentication-origin binary one_user opened (text "t") 20
      (quiet (final binary one_user opened) 20) ann_user refl refl seen

abbrev with_session : World
with_session = quiet (final binary one_user opened) 20

abbrev later : List Event
later = call (op_create_session 1 (text "u") (text "k") 100 [] []) 30 ∷ call (op_touch 1 31) 31 ∷ []

revoked : is_ok (revoke_session binary (text "t") with_session).0 ≡ true
unfolding revoke_session
revoked = refl

revoked-never_authenticates_example :
    (find_user_by_session binary
      (text "t")
      40
      (quiet (final binary (revoke_session binary (text "t") with_session).1.db later) 40)).0
    ≢ ok ann_user
unfolding text text_eq
revoked-never_authenticates_example =
    revoked-never_authenticates binary (text "t") with_session later 40
      (quiet (final binary (revoke_session binary (text "t") with_session).1.db later) 40) ann_user
      revoked (refl, (tt, tt)) refl

create_session-authenticates_example :
    (find_user_by_session binary (text "t") 20 (
      quiet
        (create_session binary 1 (text "t") (text "k") 100 [] [] (quiet one_user 10)).1.db
        20)).0
    ≡ ok (scan_user ann [])
unfolding create_session text text_eq find
create_session-authenticates_example =
    create_session-authenticates binary 1 (text "t") (text "k") 100 [] [] (quiet one_user 10) 20
      (quiet (create_session binary 1 (text "t") (text "k") 100 [] [] (quiet one_user 10)).1.db 20)
      ann refl refl refl (omega arith) refl refl

-- A disabled account beside another one, who signs in.
abbrev bob : UserRow
bob = record ann { id = 2; email = text "bob@example.com"; enabled = false }

abbrev two_users : Db
two_users = record no_rows { users = ann ∷ bob ∷ []; next_user_id = 3 }

two_seen :
    (find_user_by_session binary (text "t") 20 (quiet (final binary two_users opened) 20)).0
    ≡ ok ann_user
unfolding final find_user_by_session create_session text text_eq scan_user
two_seen = refl

Disabled-never_authenticates_example : ann_user.id ≢ 2
Disabled-never_authenticates_example =
    Disabled-never_authenticates binary 2 two_users opened (text "t") 20
      (quiet (final binary two_users opened) 20) ann_user
      (λ e. absurd (omega arith), (λ e. refl, tt)) (omega arith) refl two_seen

administrators_final_example :
    All
      (λ u. IsAdmin binary u.role → WasAdmin binary two_users u.id)
      (final binary two_users opened).users
administrators_final_example = administrators_final binary two_users opened (omega arith) (tt, tt)

abbrev google_ann : GoogleIdentity
google_ann = record {
  subject = text "g-1";
  email = text "ann@example.com";
  email_verified = true;
  name = text "Ann";
  picture = [];
}

abbrev google_moved : GoogleIdentity
google_moved = record google_ann { email = text "ann@example.org"; name = text "Ann B" }

abbrev first_user : User
first_user = record {
  id = 1;
  email = text "ann@example.com";
  display_name = text "Ann";
  avatar_url = [];
  auth_provider = text "google";
  auth_sub = text "g-1";
  role = text "user";
  enabled = true;
  last_login_at = some 10;
  password_hash = [];
}

abbrev moved_user : User
moved_user = record first_user {
  email = text "ann@example.org";
  display_name = text "Ann B";
  last_login_at = some 30;
}

abbrev after_first : Db
after_first =
    final binary (upsert_google_user binary google_ann (quiet no_rows 10)).1.db
      (call (op_touch 1 20) 20 ∷ [])

first_sign_in : (upsert_google_user binary google_ann (quiet no_rows 10)).0 ≡ ok first_user
unfolding upsert_google_user text text_eq match_string email_pattern
first_sign_in = refl

second_sign_in : (upsert_google_user binary google_moved (quiet after_first 30)).0 ≡ ok moved_user
unfolding final upsert_google_user text text_eq match_string email_pattern touch_last_login
second_sign_in = refl

google-same_account_example : moved_user.id ≡ first_user.id
google-same_account_example =
    google-same_account binary google_ann google_moved first_user moved_user (quiet no_rows 10)
      (quiet after_first 30) (call (op_touch 1 20) 20 ∷ []) first_sign_in refl refl second_sign_in
