-- ===== src/Examples/Settings.antt =====
-- internal/config: an environment, and a path.
use zenmind_official_server.Base.{
  ◌≡◌, ◌↔◌, ◌⊎◌, refl, true, false, none, some, [], ◌∷◌, if◌then◌else◌,
}
use zenmind_official_server.Text.{text, text_eq}
use zenmind_official_server.Text.Path.{join}
use zenmind_official_server.Settings.{Env, csv_env, settings_from_env, from_env}
use zenmind_official_server.Settings.Laws.{IsComplete, HasOrigins, from_env_iff}
use zenmind_official_server.Examples.Handlers.{outside}

abbrev environment : Env
environment = record {
  getenv = λ name.
      if text_eq name (text "AVATAR_PROXY_ENABLED")
      then text "true"
      else if text_eq name (text "TRUSTED_PROXY_CIDRS")
      then text "a, b,a"
      else text "https://h";
  parse_duration = λ s. none;
  parse_int = λ s. none;
  outside = record outside {
    parse_url = λ s. some (record {
      scheme = text "https";
      host = text "h";
      hostname = text "h";
      port = [];
      path = [];
      raw_query = [];
      fragment = [];
      has_user = false;
    });
  };
}

listed_once : csv_env environment (text "TRUSTED_PROXY_CIDRS") [] ≡ text "a" ∷ text "b" ∷ []
unfolding csv_env text text_eq
listed_once = refl

up_one : join (text "r" ∷ text "desktop" ∷ text ".." ∷ text "x" ∷ []) ≡ text "r/x"
unfolding join text text_eq
up_one = refl

from_env_iff_example :
    let cfg = settings_from_env environment in
    ((from_env environment).1 ≡ none) ↔ (
      IsComplete environment cfg (environment.getenv (text "MYSQL_PASSWORD"))
      × ((cfg.avatar_proxy_enabled ≡ false) ⊎ HasOrigins environment cfg))
from_env_iff_example = from_env_iff environment

accepted : (from_env environment).1 ≡ none
unfolding from_env text text_eq
accepted = refl

proxied : (from_env environment).0.avatar_proxy_enabled ≡ true
unfolding from_env text text_eq
proxied = refl
