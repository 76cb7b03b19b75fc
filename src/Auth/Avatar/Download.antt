-- ===== src/Auth/Avatar/Download.antt =====
-- internal/auth/avatar_proxy.go: the download of an avatar, which follows redirects by itself.
use zenmind_official_server.Base.{
  ℕ, zero, suc, ◌+◌, Bool, false, not, ◌||◌, Option, none, some, List, [], ◌∷◌, if◌then◌else◌, ◌==◌,
  length, ltb,
}
use zenmind_official_server.Text.{Text, text, trim_space, to_lower, is_blank}
use zenmind_official_server.Dict.{Dict, lookup}
use zenmind_official_server.Auth.Server.Defs.{Outside}
use zenmind_official_server.Auth.Avatar.{AvatarProxy, source_url}

pub record HttpResponse : Type 0 where
  pub status_code : ℕ
  pub location : Text
  pub content_type : Text
  -- `none` if it is unknown (-1)
  pub content_length : Option ℕ
  -- io.ReadAll(io.LimitReader(response.Body, n))
  pub read : ℕ → Option Text

-- The upstream servers and the libraries that read what they send.
pub record Upstream : Type 0 where
  -- the answer to the request of this number for this URL, `none` if there is none
  pub get : ℕ → Text → Option HttpResponse
  -- base.Parse(location), printed
  pub resolve : Text → Text → Option Text
  -- the media type of mime.ParseMediaType
  pub media_type : Text → Option Text

pub data DownloadError : Type 0 where
  origin_not_allowed : DownloadError
  fetch_failed : DownloadError
  redirect_limit : DownloadError
  missing_location : DownloadError
  invalid_redirect : DownloadError
  upstream_status : ℕ → DownloadError
  invalid_type : DownloadError
  unsupported_type : DownloadError
  too_large : DownloadError
  read_failed : DownloadError

-- The content with its extension.
pub data Download : Type 0 where
  loaded : Text → Text → Download
  failed : DownloadError → Download

abbrev pub avatar_proxy_max_redirects : ℕ
avatar_proxy_max_redirects = 3

-- avatarExtensionByContentType
unfoldable pub avatar_extension : Dict Text
unfolding text
avatar_extension =
    (text "image/gif", text ".gif")
    ∷ (text "image/jpeg", text ".jpg")
    ∷ (text "image/png", text ".png")
    ∷ (text "image/webp", text ".webp")
    ∷ []

abbrev pub is_redirect : ℕ → Bool
is_redirect status =
    status == 301 || status == 302 || status == 303 || status == 307 || status == 308

abbrev pub exceeds : Option ℕ → ℕ → Bool
exceeds none max = false
exceeds (some n) max = ltb max n

-- `p.maxBytes+1` as an int64; a reader with a negative limit reads nothing.
abbrev pub read_limit : ℕ → ℕ
read_limit max = if ltb (max + 1) 9_223_372_036_854_775_808 then max + 1 else 0

-- The checks of a body that has been read.
unfoldable pub accept_body : ℕ → Text → Option Text → Download
accept_body max extension none = failed read_failed
accept_body max extension (some content) =
    if length content == 0 || ltb max (length content)
    then failed too_large
    else loaded content extension

unfoldable pub accept_type : ℕ → HttpResponse → Option Text → Download
unfolding accept_body
accept_type max response none = failed unsupported_type
accept_type max response (some extension) =
    if exceeds response.content_length max
    then failed too_large
    else accept_body max extension (response.read (read_limit max))

-- What is done with an answer that is no redirect.
unfoldable pub accept_response : Upstream → ℕ → HttpResponse → Download
unfolding accept_type lookup to_lower avatar_extension
accept_response up max response =
    if not (response.status_code == 200)
    then failed (upstream_status response.status_code)
    else elim (up.media_type response.content_type) [
      | none ↦ failed invalid_type
      | some content_type ↦
          accept_type max response (lookup (to_lower content_type) avatar_extension)
    ]

-- Where a redirect leads to.
pub data Next : Type 0 where
  go : Text → Next
  stop : DownloadError → Next

abbrev pub resolved : Option Text → Next
resolved none = stop invalid_redirect
resolved (some url) = go url

unfoldable pub next_url : Upstream → ℕ → Text → HttpResponse → Next
unfolding trim_space is_blank
next_url up redirects current response =
    let location = trim_space response.location in
    if redirects == avatar_proxy_max_redirects
    then stop redirect_limit
    else if is_blank location
    then stop missing_location
    else resolved (up.resolve current location)

module _ (out : Outside) (up : Upstream) (p : AvatarProxy) where
  -- The rounds of the loop that are left, the redirects so far, the URL; beside the result stand
  -- the URLs that were requested.
  unfoldable pub download_from : ℕ → ℕ → Text → Download × List Text
  download_from zero redirects current = (failed redirect_limit, [])
  download_from (suc rounds) redirects current =
      if not (source_url out p current)
      then (failed origin_not_allowed, [])
      else elim (up.get redirects current) [
        | none ↦ (failed fetch_failed, current ∷ [])
        | some response ↦
            if not (is_redirect response.status_code)
            then (accept_response up p.max_bytes response, current ∷ [])
            else elim (next_url up redirects current response) [
              | stop e ↦ (failed e, current ∷ [])
              | go next ↦
                  let (result, urls) = download_from rounds (redirects + 1) next in
                  (result, current ∷ urls)
            ]
      ]

  unfoldable pub download : Text → Download × List Text
  unfolding download_from trim_space
  download raw_url = download_from (avatar_proxy_max_redirects + 1) 0 (trim_space raw_url)
