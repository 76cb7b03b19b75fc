-- ===== src/Auth/GoogleProvider.antt =====
-- internal/auth/google.go: the provider of the Google sign-in. The libraries oauth2 and oidc are
-- parameters; a verifier is its client id.
pub mod Laws
use zenmind_official_server.Base.{
  Bool, true, false, not, ◌&&◌, ◌||◌, Option, none, some, List, [], ◌∷◌, if◌then◌else◌,
}
use zenmind_official_server.Text.{Text, text_eq, trim_space, is_blank, normalize_email}
use zenmind_official_server.Text.Parts.{distinct}
use zenmind_official_server.Auth.Email.{valid_email}
use zenmind_official_server.Auth.Store.Defs.{GoogleIdentity}
use zenmind_official_server.Auth.Server.Defs.{on_option}

pub record GoogleProviderConfig : Type 0 where
  pub client_id : Text
  pub client_secret : Text
  pub redirect_url : Text
  pub desktop_client_id : Text

pub record LiveGoogleProvider : Type 0 where
  pub client_id : Text
  pub client_secret : Text
  pub redirect_url : Text
  pub desktop_audiences : List Text

pub data GoogleProvider : Type 0 where
  -- disabledGoogleProvider
  disabled : GoogleProvider
  live : LiveGoogleProvider → GoogleProvider

-- The claims that verifyGoogleIDToken reads.
pub record GoogleClaims : Type 0 where
  pub subject : Text
  pub email : Text
  pub email_verified : Bool
  pub name : Text
  pub picture : Text

pub record IdToken : Type 0 where
  pub nonce : Text
  -- `none` if they cannot be decoded
  pub claims : Option GoogleClaims

pub record Oidc : Type 0 where
  -- the id_token of the answer to a code with its verifier, "" without one
  pub exchange : LiveGoogleProvider → Text → Text → Option Text
  -- verifier.Verify
  pub verify : Text → Text → Option IdToken

unfoldable pub google_audiences : List Text → List Text
unfolding distinct
google_audiences client_ids = distinct client_ids

unfoldable pub new_google_provider : GoogleProviderConfig → GoogleProvider
unfolding trim_space is_blank google_audiences
new_google_provider cfg =
    let client_id = trim_space cfg.client_id in
    let client_secret = trim_space cfg.client_secret in
    let redirect_url = trim_space cfg.redirect_url in
    if is_blank client_id || is_blank client_secret || is_blank redirect_url
    then disabled
    else live (record {
      client_id = client_id;
      client_secret = client_secret;
      redirect_url = redirect_url;
      desktop_audiences = google_audiences (cfg.desktop_client_id ∷ []);
    })

unfoldable pub is_configured : GoogleProvider → Bool
unfolding is_blank
is_configured disabled = false
is_configured (live p) =
    not (is_blank p.client_id) && not (is_blank p.client_secret) && not (is_blank p.redirect_url)

-- The identity of the claims, if they are accepted.
unfoldable pub identity_of : GoogleClaims → Option GoogleIdentity
unfolding trim_space is_blank valid_email normalize_email
identity_of c =
    if is_blank (trim_space c.subject)
    then none
    else if not c.email_verified || not (valid_email c.email)
    then none
    else some (record {
      subject = trim_space c.subject;
      email = normalize_email c.email;
      email_verified = true;
      name = trim_space c.name;
      picture = trim_space c.picture;
    })

-- What is done with a token that verifies.
unfoldable pub accept_token : Text → IdToken → Option GoogleIdentity
unfolding is_blank text_eq identity_of
accept_token expected_nonce token =
    if not (is_blank expected_nonce) && not (text_eq token.nonce expected_nonce)
    then none
    else on_option token.claims identity_of none

module _ (o : Oidc) where
  -- The loop over the verifiers.
  unfoldable pub verify_google_id_token : Text → Text → List Text → Option GoogleIdentity
  unfolding trim_space accept_token
  verify_google_id_token raw_token expected_nonce [] = none
  verify_google_id_token raw_token expected_nonce (audience ∷ audiences) =
      let rest = verify_google_id_token raw_token expected_nonce audiences in
      on_option (o.verify audience (trim_space raw_token)) (accept_token expected_nonce) rest

  unfoldable pub exchange_code : GoogleProvider → Text → Text → Text → Option GoogleIdentity
  unfolding trim_space is_blank verify_google_id_token
  exchange_code disabled code code_verifier nonce = none
  exchange_code (live p) code code_verifier nonce =
      on_option (o.exchange p (trim_space code) code_verifier)
        (λ raw.
          if is_blank (trim_space raw)
          then none
          else verify_google_id_token raw nonce (p.client_id ∷ []))
        none

  unfoldable pub verify_id_token : GoogleProvider → Text → Option GoogleIdentity
  unfolding verify_google_id_token
  verify_id_token disabled raw_token = none
  verify_id_token (live p) raw_token = verify_google_id_token raw_token [] p.desktop_audiences
