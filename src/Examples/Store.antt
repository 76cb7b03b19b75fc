-- ===== src/Examples/Store.antt =====
-- internal/auth/store.go: runs of the store.
use zenmind_official_server.Base.{
  arith, ◌≤◌, ◌≡◌, refl, ◌↔◌, true, false, none, List, [], ◌∷◌, some,
}
use zenmind_official_server.Text.{text_eq, text, normalize_email}
use zenmind_official_server.Auth.Store.Defs.{EmailCodeRow, OauthRequest, Db}
use zenmind_official_server.Auth.Store.Monad.{ok, is_ok}
use zenmind_official_server.Auth.Store.Tickets.{save_desktop_sso_ticket, consume_desktop_sso_ticket}
use zenmind_official_server.Auth.Store.Oauth.Laws.{save-consume}
use zenmind_official_server.Auth.Store.Oauth.{
  stored_request, save_oauth_request, consume_oauth_request,
}
use zenmind_official_server.Auth.Store.Codes.{save_email_code, consume_email_code}
use zenmind_official_server.Auth.Store.Codes.Laws.{newest, Fits, consume_email_code_iff}
use zenmind_official_server.Auth.Store.History.{
  op_save_code, op_consume_code, op_save_oauth, op_consume_oauth, op_save_ticket, op_consume_ticket,
  Event, run, successes,
}
use zenmind_official_server.Auth.Store.History.Once.{
  redeems_ticket, ticket_redeemed_once, consumes_state, state_consumed_once,
}
use zenmind_official_server.Auth.Store.History.Acceptance.{acceptances, code_accepted_once}
use zenmind_official_server.Examples.Tables.{call, binary, no_rows, one_user, quiet}

abbrev ticket_events : List Event
ticket_events =
    call (op_save_ticket 1 (text "t") 100 [] []) 10
    ∷ call (op_consume_ticket (text "t") 20) 20
    ∷ call (op_consume_ticket (text "t") 21) 21
    ∷ call (op_save_ticket 1 (text "t") 100 [] []) 22
    ∷ []

ticket_run : run binary one_user ticket_events ≡ true ∷ true ∷ false ∷ false ∷ []
unfolding run text text_eq save_desktop_sso_ticket consume_desktop_sso_ticket
ticket_run = refl

ticket_redeemed_once_example :
    successes (redeems_ticket binary (text "t")) ticket_events (run binary one_user ticket_events)
    ≤ 1
ticket_redeemed_once_example = ticket_redeemed_once binary (text "t") one_user ticket_events refl

abbrev sign_in : OauthRequest
sign_in = record {
  kind = text "browser";
  nonce = text "n";
  code_verifier = text "v";
  return_to = [];
  callback_url = [];
  desktop_state = [];
  expires_at = 100;
}

abbrev state_events : List Event
state_events =
    call (op_save_oauth (text "s") sign_in) 10
    ∷ call (op_consume_oauth (text "s") 20) 20
    ∷ call (op_consume_oauth (text "s") 21) 21
    ∷ []

state_run : run binary no_rows state_events ≡ true ∷ true ∷ false ∷ []
unfolding run text text_eq save_oauth_request consume_oauth_request
state_run = refl

state_consumed_once_example :
    successes (consumes_state binary (text "s")) state_events (run binary no_rows state_events) ≤ 1
state_consumed_once_example = state_consumed_once binary (text "s") no_rows state_events refl

abbrev code_events : List Event
code_events =
    call (op_save_code (text "Ann@example.com") (text "h1") 100) 10
    ∷ call (op_consume_code (text "ann@example.com") (text "h1") 20) 20
    ∷ call (op_consume_code (text "ann@example.com") (text "h1") 21) 21
    ∷ []

code_run : run binary one_user code_events ≡ true ∷ true ∷ false ∷ []
unfolding run text text_eq save_email_code consume_email_code normalize_email
code_run = refl

-- One of the calls accepts the first code.
accepted : acceptances binary 1 one_user code_events ≡ 1
unfolding run text text_eq save_email_code consume_email_code normalize_email
accepted = refl

code_accepted_once_example : acceptances binary 1 one_user code_events ≤ 1
code_accepted_once_example = code_accepted_once binary 1 one_user code_events refl

abbrev one_code : Db
one_code = record no_rows {
  email_codes =
      record {
        id = 1;
        email = text "ann@example.com";
        code_hash = text "h1";
        expires_at = 100;
        consumed_at = none;
        created_at = 10;
      }
      ∷ [];
}

consume_email_code_iff_example :
    (is_ok (consume_email_code binary (text "ann@example.com") (text "h1") 20 (quiet one_code 20)).0
      ≡ true)
    ↔ ((r : EmailCodeRow) × (newest binary (normalize_email (text "ann@example.com")) one_code
          ≡ some r)
        × Fits binary r (text "h1") 20)
consume_email_code_iff_example =
    consume_email_code_iff binary (text "ann@example.com") (text "h1") 20 (quiet one_code 20) refl

sign_in_saved : is_ok (save_oauth_request binary (text "s") sign_in (quiet no_rows 10)).0 ≡ true
unfolding save_oauth_request text text_eq
sign_in_saved = refl

save-consume_example :
    (consume_oauth_request binary
      (text "s")
      20
      (quiet (save_oauth_request binary (text "s") sign_in (quiet no_rows 10)).1.db 20)).0
    ≡ ok (stored_request sign_in)
save-consume_example =
    save-consume binary (text "s") sign_in (quiet no_rows 10) 20
      (quiet (save_oauth_request binary (text "s") sign_in (quiet no_rows 10)).1.db 20)
      sign_in_saved refl refl (omega arith)
