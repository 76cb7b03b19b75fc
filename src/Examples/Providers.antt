-- ===== src/Examples/Providers.antt =====
-- internal/auth: the Google provider, and an avatar behind a redirect and in the cache.
use zenmind_official_server.Base.{
  ◌≡◌, refl, inl, true, false, none, some, List, [], ◌∷◌, ◌++◌, if◌then◌else◌, ◌==◌,
}
use zenmind_official_server.Text.{Text, text, text_eq, trim_space}
use zenmind_official_server.Regex.{match_string}
use zenmind_official_server.Auth.Email.{email_pattern}
use zenmind_official_server.Auth.Store.Defs.{GoogleIdentity, User}
use zenmind_official_server.Auth.Server.Defs.{Outside}
use zenmind_official_server.Auth.Avatar.{AvatarProxy, source_url, avatar_version}
use zenmind_official_server.Auth.Avatar.Download.{
  Upstream, loaded, download, next_url, accept_response,
}
use zenmind_official_server.Auth.Avatar.Laws.{IsGuarded, download-IsGuarded}
use zenmind_official_server.Auth.Avatar.Cache.{Disk, CachedFile, failure, image, serve}
use zenmind_official_server.Auth.Avatar.Owners.{Visit, serve_visit, IsOwn, Arises, unused, visited}
use zenmind_official_server.Auth.Store.Monad.{ok}
use zenmind_official_server.Auth.Server.Defs.{Machine}
use zenmind_official_server.Auth.Server.Cookies.{current_user}
use zenmind_official_server.Auth.Server.Avatars.{avatar}
use zenmind_official_server.Auth.Server.Grants.Avatar.{AskedBy, avatar-IsOwn}
use zenmind_official_server.Examples.Sessions.{with_session}
use zenmind_official_server.Examples.Tables.{binary, ann}
use zenmind_official_server.Auth.GoogleProvider.{LiveGoogleProvider, Oidc, live, exchange_code}
use zenmind_official_server.Auth.GoogleProvider.Laws.{IsVerified, exchange_code-IsVerified}
use zenmind_official_server.Examples.Handlers.{outside, config, request, machine}

abbrev oidc : Oidc
oidc = record {
  exchange = λ p code verifier. some (text "jwt");
  verify = λ audience raw. some (record {
    nonce = text "n";
    claims = some (record {
      subject = text "g-1";
      email = text "Ann@b.c";
      email_verified = true;
      name = text "Ann";
      picture = [];
    });
  });
}

abbrev provider : LiveGoogleProvider
provider = record {
  client_id = text "id";
  client_secret = text "secret";
  redirect_url = text "https://h/callback";
  desktop_audiences = [];
}

abbrev identity : GoogleIdentity
identity = record {
  subject = text "g-1";
  email = text "ann@b.c";
  email_verified = true;
  name = text "Ann";
  picture = [];
}

exchanged : exchange_code oidc (live provider) (text "code") (text "v") (text "n") ≡ some identity
unfolding exchange_code text text_eq match_string email_pattern
exchanged = refl

exchange_code-IsVerified_example :
    (l : LiveGoogleProvider) × (raw : Text) × (live provider ≡ live l)
    × (oidc.exchange l (trim_space (text "code")) (text "v") ≡ some raw)
    × IsVerified oidc raw (text "n") (l.client_id ∷ []) identity
exchange_code-IsVerified_example =
    exchange_code-IsVerified oidc (live provider) (text "code") (text "v") (text "n") identity
      exchanged

-- Every URL is one of an allowed origin.
abbrev pictures : Outside
pictures = record outside {
  parse_url = λ s. some (record {
    scheme = text "https";
    host = text "p.q";
    hostname = text "p.q";
    port = [];
    path = s;
    raw_query = [];
    fragment = [];
    has_user = false;
  });
}

-- The first answer is a redirect, the next one an image.
abbrev upstream : Upstream
upstream = record {
  get = λ n url. some (record {
    status_code = if n == 0 then 302 else 200;
    location = text "/b";
    content_type = text "image/PNG";
    content_length = none;
    read = λ limit. some (text "abc");
  });
  resolve = λ base location. some location;
  media_type = some;
}

abbrev avatar_proxy : AvatarProxy
avatar_proxy = record {
  configured = true;
  enabled = true;
  public_origin = text "https://h";
  allowed_origins = text "https://p.q" ∷ [];
  cache_dir = text "/data";
  cache_ttl = 1;
  max_bytes = 10;
  fetch_timeout = 1;
}

redirected :
    download pictures upstream avatar_proxy (text "/a")
    ≡ (loaded (text "abc") (text ".png"), text "/a" ∷ text "/b" ∷ [])
unfolding download text text_eq source_url next_url accept_response
redirected = refl

download-IsGuarded_example :
    IsGuarded pictures upstream avatar_proxy 4 (download pictures upstream avatar_proxy (text "/a"))
download-IsGuarded_example = download-IsGuarded pictures upstream avatar_proxy (text "/a")

abbrev disk : Disk
disk = record { write_fails = false; stat_fails = false; read_fails = false; stays = λ f. false }

abbrev visit : Visit
visit = record {
  up = upstream;
  order = text ".gif" ∷ text ".png" ∷ [];
  disk = disk;
  if_none_match = [];
  user = record {
    id = 1;
    email = text "ann@example.com";
    display_name = text "Ann";
    avatar_url = text "/a";
    auth_provider = text "google";
    auth_sub = text "g-1";
    role = text "user";
    enabled = true;
    last_login_at = none;
    password_hash = [];
  };
  version = text "1" ++ 0 ∷ text "/a";
  now = 7;
}

abbrev cached : List CachedFile
cached = (serve_visit pictures avatar_proxy visit [] [] []).1

cached-Arises : Arises pictures avatar_proxy (visit ∷ []) cached
cached-Arises = visited visit [] [] [] (inl refl) unused unused unused

-- The upstream servers send nothing by then.
abbrev silent : Upstream
silent = record upstream { get = λ n url. none }

abbrev signed_in : Machine
signed_in = machine (record with_session { users = record ann { avatar_url = text "/a" } ∷ [] })

uncached :
    (avatar silent avatar_proxy visit.order binary pictures config request visit.version disk [] []
      cached signed_in).0.0
    ≡ failure 502 (text "avatar_unavailable")
unfolding avatar current_user text text_eq serve avatar_version next_url accept_response
uncached = refl

stale :
    (avatar silent avatar_proxy visit.order binary pictures config request visit.version disk []
      cached cached signed_in).0.0
    ≡ image (text "image/png") (text "\"" ++ visit.version ++ text "\"") (text "abc")
unfolding avatar current_user text text_eq serve avatar_version next_url accept_response
stale = refl

avatar-IsOwn_example :
    (user : User) × ((current_user binary pictures config request signed_in).0 ≡ ok user)
    × IsOwn pictures avatar_proxy
        (AskedBy (visit ∷ []) silent user)
        user
        (text "image/png")
        (text "\"" ++ visit.version ++ text "\"")
        (text "abc")
avatar-IsOwn_example =
    avatar-IsOwn silent avatar_proxy visit.order binary pictures config request visit.version disk
      (visit ∷ []) [] cached cached signed_in (text "image/png")
      (text "\"" ++ visit.version ++ text "\"") (text "abc") unused cached-Arises cached-Arises
      stale
