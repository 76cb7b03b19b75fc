-- ===== src/Auth/Server/Grants/Anonymous.antt =====
-- What the director leaves of the headers of a request.
use mathlib.Core.List.{append-nil}
use zenmind_official_server.Base.{
  ◌≡◌, refl, sym, false, List, [], ◌∷◌, ◌++◌, inl, inr, if◌then◌else◌, Bool-cases, All,
}
use zenmind_official_server.Text.{Text, text, is_blank}
use zenmind_official_server.Auth.Server.Defs.{Url}
use zenmind_official_server.Auth.Server.Requests.{equal_fold}
use zenmind_official_server.Auth.Server.Market.{
  Headers, MarketRequest, Outgoing, del, del_all, strip_identity_headers, director,
}

-- No header has the name, in upper or lower case.
abbrev pub Without : Headers → Text → Type 0
Without hs name = All (λ (h : Text × Text). equal_fold h.0 name ≡ false) hs

del-All : (P : Text × Text → Type 0) (name : Text) (hs : Headers) → All P hs → All P (del name hs)
unfolding del
del-All P name [] a = tt
del-All P name (h ∷ hs) a = elim (Bool-cases (equal_fold h.0 name)) [
  | inl hit ↦ rw hit (del-All P name hs a.1)
  | inr miss ↦ rw miss (a.0, del-All P name hs a.1)
]

del-Without : (name : Text) (hs : Headers) → Without (del name hs) name
unfolding del
del-Without name [] = tt
del-Without name (h ∷ hs) = elim (Bool-cases (equal_fold h.0 name)) [
  | inl hit ↦ rw hit (del-Without name hs)
  | inr miss ↦ rw miss (miss, del-Without name hs)
]

del_all-All :
    (P : Text × Text → Type 0) (names : List Text) (hs : Headers)
    → All P hs
    → All P (del_all names hs)
unfolding del_all
del_all-All P [] hs a = a
del_all-All P (name ∷ names) hs a = del_all-All P names (del name hs) (del-All P name hs a)

del_all-Without : (names : List Text) (hs : Headers) → All (Without (del_all names hs)) names
unfolding del_all
del_all-Without [] hs = tt
del_all-Without (name ∷ names) hs = (
  del_all-All (λ (h : Text × Text). equal_fold h.0 name ≡ false) names (del name hs)
      (del-Without name hs),
  del_all-Without names (del name hs),
)

All-del :
    (name : Text) (names : List Text) (hs : Headers)
    → All (Without hs) names
    → All (Without (del name hs)) names
All-del name [] hs a = tt
All-del name (n ∷ names) hs a =
    (del-All (λ (h : Text × Text). equal_fold h.0 n ≡ false) name hs a.0, All-del name names hs a.1)

-- The headers that stripIdentityHeaders is to delete.
abbrev pub identity_headers : List Text
identity_headers =
    text "Authorization"
    ∷ text "X-ZenMind-User-ID"
    ∷ text "X-ZenMind-User-Email"
    ∷ text "X-ZenMind-User-Role"
    ∷ text "X-ZenMind-Market-Proxy-Token"
    ∷ text "X-Forwarded-User"
    ∷ text "X-Forwarded-Email"
    ∷ text "X-Forwarded-Groups"
    ∷ text "X-Authentik-Username"
    ∷ text "X-Authentik-Email"
    ∷ text "X-Authentik-Name"
    ∷ text "X-Authentik-Uid"
    ∷ []

abbrev pub IsAnonymous : Headers → Type 0
IsAnonymous hs = All (Without hs) (text "Cookie" ∷ identity_headers)

clean-IsAnonymous : (hs : Headers) → IsAnonymous (del (text "Cookie") (strip_identity_headers hs))
unfolding strip_identity_headers
clean-IsAnonymous hs = (
  del-Without (text "Cookie") (strip_identity_headers hs),
  All-del (text "Cookie") identity_headers (strip_identity_headers hs)
      (del_all-Without identity_headers hs),
)

-- The header that carries a token.
abbrev pub authorization : Text → Headers
authorization token =
    if is_blank token then [] else (text "Authorization", text "Bearer " ++ token) ∷ []

-- A request to the target with the token, and without a cookie or a header that is to be deleted.
abbrev pub Carries : Url → Text → Outgoing → Type 0
Carries target token o =
    (o.scheme ≡ target.scheme)
    × (o.host ≡ target.host)
    × ((rest : Headers) × IsAnonymous rest × (o.headers ≡ rest ++ authorization token))

pub director-Carries :
    (target : Url) (r : MarketRequest) (token : Text)
    → Carries target token (director target r token)
unfolding director
director-Carries target r token =
    let clean = del (text "Cookie") (strip_identity_headers r.headers) in
    (
      refl,
      refl,
      (
        clean,
        clean-IsAnonymous r.headers,
        elim (Bool-cases (is_blank token)) [
          | inl none_given ↦ rw none_given (sym (append-nil clean))
          | inr given ↦ rw given refl
        ],
      ),
    )
