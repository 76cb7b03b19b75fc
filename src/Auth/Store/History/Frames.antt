-- ===== src/Auth/Store/History/Frames.antt =====
-- Which tables of one-time tokens a call leaves alone.
use zenmind_official_server.Base.{◌≡◌, refl, ap, Bool, true, false}
use zenmind_official_server.Auth.Store.Defs.{Collation}
use zenmind_official_server.Auth.Store.Monad.{World}
use zenmind_official_server.Auth.Store.TokenFrames.{
  tokens, Keeps-google, Keeps-email_code, Keeps-authentik, Keeps-admin, Keeps-local,
  Keeps-by_session, Keeps-create_session, Keeps-csrf, Keeps-started, Keeps-revoke, Keeps-touch,
  Keeps-record, Keeps-save_ticket, Keeps-consume_ticket, Keeps-save_code, Keeps-consume_code,
  Keeps-save_oauth, Keeps-consume_oauth,
}
use zenmind_official_server.Auth.Store.History.{
  Op, op_ensure_admin, op_find_local, op_find_by_session, op_upsert_google, op_upsert_authentik,
  op_upsert_email_code, op_save_code, op_consume_code, op_save_oauth, op_consume_oauth,
  op_create_session, op_find_csrf, op_find_started, op_revoke, op_save_ticket, op_consume_ticket,
  op_touch, op_record, perform,
}

-- The three kinds of calls on tokens.
abbrev pub on_tickets : Op → Bool
on_tickets (op_save_ticket id hash expires ip agent) = true
on_tickets (op_consume_ticket hash now) = true
on_tickets _ = false

abbrev pub on_oauth : Op → Bool
on_oauth (op_save_oauth state request) = true
on_oauth (op_consume_oauth state now) = true
on_oauth _ = false

abbrev pub on_codes : Op → Bool
on_codes (op_save_code email hash expires) = true
on_codes (op_consume_code email hash now) = true
on_codes _ = false

module _ (c : Collation) where
  tokens-perform :
      (op : Op) (w : World)
      → on_tickets op ≡ false
      → on_oauth op ≡ false
      → on_codes op ≡ false
      → tokens (perform c op w).1 ≡ tokens w.db
  unfolding perform
  tokens-perform (op_ensure_admin r e h) w _ _ _ = (Keeps-admin c (tokens w.db) r e h).at w refl
  tokens-perform (op_find_local e) w _ _ _ = (Keeps-local c (tokens w.db) e).at w refl
  tokens-perform (op_find_by_session t n) w _ _ _ = (Keeps-by_session c (tokens w.db) t n).at w refl
  tokens-perform (op_upsert_google i) w _ _ _ = (Keeps-google c (tokens w.db) i).at w refl
  tokens-perform (op_upsert_authentik i) w _ _ _ = (Keeps-authentik c (tokens w.db) i).at w refl
  tokens-perform (op_upsert_email_code e) w _ _ _ = (Keeps-email_code c (tokens w.db) e).at w refl
  tokens-perform (op_save_code e h x) w _ _ f = cc
  tokens-perform (op_consume_code e h n) w _ _ f = cc
  tokens-perform (op_save_oauth s r) w _ f _ = cc
  tokens-perform (op_consume_oauth s n) w _ f _ = cc
  tokens-perform (op_create_session id t s x a i) w _ _ _ =
      (Keeps-create_session c (tokens w.db) id t s x a i).at w refl
  tokens-perform (op_find_csrf t n) w _ _ _ = (Keeps-csrf c (tokens w.db) t n).at w refl
  tokens-perform (op_find_started t n) w _ _ _ = (Keeps-started c (tokens w.db) t n).at w refl
  tokens-perform (op_revoke t) w _ _ _ = (Keeps-revoke c (tokens w.db) t).at w refl
  tokens-perform (op_save_ticket id h x i a) w f _ _ = cc
  tokens-perform (op_consume_ticket h n) w f _ _ = cc
  tokens-perform (op_touch id at) w _ _ _ = (Keeps-touch c (tokens w.db) id at).at w refl
  tokens-perform (op_record entry) w _ _ _ = (Keeps-record c (tokens w.db) entry).at w refl

  pub tickets-perform :
      (op : Op) (w : World) → on_tickets op ≡ false → (perform c op w).1.tickets ≡ w.db.tickets
  unfolding perform
  tickets-perform (op_save_code e h x) w _ = ap (λ t. t.0) ((Keeps-save_code c _ e h x).at w refl)
  tickets-perform (op_consume_code e h n) w _ =
      ap (λ t. t.0) ((Keeps-consume_code c _ e h n).at w refl)
  tickets-perform (op_save_oauth s r) w _ = ap (λ t. t.0) ((Keeps-save_oauth c _ s r).at w refl)
  tickets-perform (op_consume_oauth s n) w _ =
      ap (λ t. t.0) ((Keeps-consume_oauth c _ s n).at w refl)
  tickets-perform op w f = ap (λ t. t.0) (tokens-perform op w f refl refl)

  pub oauth-perform :
      (op : Op) (w : World)
      → on_oauth op ≡ false
      → (perform c op w).1.oauth_requests ≡ w.db.oauth_requests
  unfolding perform
  oauth-perform (op_save_code e h x) w _ = ap (λ t. t.1) ((Keeps-save_code c _ e h x).at w refl)
  oauth-perform (op_consume_code e h n) w _ =
      ap (λ t. t.1) ((Keeps-consume_code c _ e h n).at w refl)
  oauth-perform (op_save_ticket id h x i a) w _ =
      ap (λ t. t.0) ((Keeps-save_ticket c _ id h x i a).at w refl)
  oauth-perform (op_consume_ticket h n) w _ =
      ap (λ t. t.0) ((Keeps-consume_ticket c _ h n).at w refl)
  oauth-perform op w f = ap (λ t. t.1) (tokens-perform op w refl f refl)

  pub codes-perform :
      (op : Op) (w : World)
      → on_codes op ≡ false
      → (perform c op w).1.email_codes ≡ w.db.email_codes
  unfolding perform
  codes-perform (op_save_oauth s r) w _ = ap (λ t. t.1) ((Keeps-save_oauth c _ s r).at w refl)
  codes-perform (op_consume_oauth s n) w _ = ap (λ t. t.1) ((Keeps-consume_oauth c _ s n).at w refl)
  codes-perform (op_save_ticket id h x i a) w _ =
      ap (λ t. t.1) ((Keeps-save_ticket c _ id h x i a).at w refl)
  codes-perform (op_consume_ticket h n) w _ =
      ap (λ t. t.1) ((Keeps-consume_ticket c _ h n).at w refl)
  codes-perform op w f = ap (λ t. t.2) (tokens-perform op w refl refl f)

  pub next_code_id-perform :
      (op : Op) (w : World)
      → on_codes op ≡ false
      → (perform c op w).1.next_code_id ≡ w.db.next_code_id
  unfolding perform
  next_code_id-perform (op_save_oauth s r) w _ =
      ap (λ t. t.2) ((Keeps-save_oauth c _ s r).at w refl)
  next_code_id-perform (op_consume_oauth s n) w _ =
      ap (λ t. t.2) ((Keeps-consume_oauth c _ s n).at w refl)
  next_code_id-perform (op_save_ticket id h x i a) w _ =
      ap (λ t. t.2) ((Keeps-save_ticket c _ id h x i a).at w refl)
  next_code_id-perform (op_consume_ticket h n) w _ =
      ap (λ t. t.2) ((Keeps-consume_ticket c _ h n).at w refl)
  next_code_id-perform op w f = ap (λ t. t.3) (tokens-perform op w refl refl f)
