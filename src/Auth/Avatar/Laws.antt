-- ===== src/Auth/Avatar/Laws.antt =====
-- What the proxy requests and what it serves.
use zenmind_official_server.Base.{
  ℕ, zero, suc, ◌+◌, ◌≤◌, ◌<◌, ◌≡◌, refl, true, false, not, ◌||◌, Option, none, some, List, ◌⊎◌,
  inl, inr, arith, ◌==◌, ltb, length, All, Bool-cases, Option-cases,
}
use zenmind_official_server.Text.{Text, text, text_eq, trim_space, to_lower, is_blank}
use zenmind_official_server.Text.Laws.{text_eq_iff}
use zenmind_official_server.Text.Parts.{mem}
use zenmind_official_server.Dict.{lookup}
use zenmind_official_server.Auth.Server.Defs.{Url, Outside}
use zenmind_official_server.Auth.Avatar.{AvatarProxy, origin_of, source_url}
use zenmind_official_server.Auth.Avatar.Download.{
  HttpResponse, Upstream, DownloadError, Download, loaded, failed, accept_body, accept_type,
  accept_response, next_url, download_from, download, avatar_extension, is_redirect, exceeds,
  read_limit, Next, go, stop,
}

-- An image that the proxy may keep: not empty, no larger than allowed, of a known type.
abbrev pub IsImage : ℕ → Download → Type 0
IsImage max (loaded content extension) =
    (0 < length content)
    × (length content ≤ max)
    × ((content_type : Text) × (lookup content_type avatar_extension ≡ some extension))
IsImage max (failed e) = Unit

accept_body-IsImage :
    (max : ℕ) (content_type extension : Text) (body : Option Text)
    → lookup content_type avatar_extension ≡ some extension
    → IsImage max (accept_body max extension body)
unfolding accept_body
accept_body-IsImage max content_type extension none e = tt
accept_body-IsImage max content_type extension (some content) e =
    elim (Bool-cases (length content == 0 || ltb max (length content))) [
      | inl bad ↦ rw bad tt
      | inr good ↦ rw good (ground arith, ground arith, (content_type, e))
    ]

accept_type-IsImage :
    (max : ℕ) (response : HttpResponse) (content_type : Text) (extension : Option Text)
    → lookup content_type avatar_extension ≡ extension
    → IsImage max (accept_type max response extension)
unfolding accept_type
accept_type-IsImage max response content_type none e = tt
accept_type-IsImage max response content_type (some extension) e =
    elim (Bool-cases (exceeds response.content_length max)) [
      | inl bad ↦ rw bad tt
      | inr good ↦
          rw good
            (accept_body-IsImage max content_type extension (response.read (read_limit max)) e)
    ]

pub accept_response-IsImage :
    (up : Upstream) (max : ℕ) (response : HttpResponse)
    → IsImage max (accept_response up max response)
unfolding accept_response
accept_response-IsImage up max response = elim (Bool-cases (not (response.status_code == 200))) [
  | inl bad ↦ rw bad tt
  | inr good ↦ elim (Option-cases (up.media_type response.content_type)) [
    | inl e ↦ rw (good, e) tt
    | inr (content_type, e) ↦
        rw (good, e) (accept_type-IsImage max response (to_lower content_type) _ refl)
  ]
]

Next-cases : (n : Next) → ((e : DownloadError) × (n ≡ stop e)) ⊎ ((url : Text) × (n ≡ go url))
Next-cases (stop e) = inl (e, refl)
Next-cases (go url) = inr (url, refl)

module _ (out : Outside) (up : Upstream) (p : AvatarProxy) where
  -- A URL of one of the allowed HTTPS origins, without user information.
  abbrev pub IsAllowed : Text → Type 0
  IsAllowed value =
      (u : Url) × (out.parse_url (trim_space value) ≡ some u)
      × (u.scheme ≡ text "https")
      × (u.has_user ≡ false)
      × (mem (origin_of u) p.allowed_origins ≡ true)

  pub source_url-IsAllowed : (value : Text) → source_url out p value ≡ true → IsAllowed value
  unfolding source_url
  source_url-IsAllowed value h = elim (Bool-cases p.enabled) [
    | inr off ↦ let refused = (rw off at h) in cc
    | inl on ↦ elim (Option-cases (out.parse_url (trim_space value))) [
      | inl bad ↦ let refused = (rw (on, bad) at h) in cc
      | inr (u, e) ↦
          elim (Bool-cases
            (not (text_eq u.scheme (text "https")) || is_blank u.host || u.has_user)) [
              | inl strange ↦ let refused = (rw (on, e, strange) at h) in cc
              | inr fit ↦ (
                u,
                e,
                (text_eq_iff u.scheme (text "https")).0 (ground arith),
                ground arith,
                (rw (on, e, fit) at h),
              )
            ]
    ]
  ]

  -- What a run of the loop has requested and returned.
  pub IsGuarded : ℕ → Download × List Text → Type 0
  IsGuarded rounds (result, urls) =
      All IsAllowed urls × (length urls ≤ rounds) × IsImage p.max_bytes result

  download_from-IsGuarded :
      (rounds redirects : ℕ) (current : Text)
      → IsGuarded rounds (download_from out up p rounds redirects current)
  unfolding download_from IsGuarded
  download_from-IsGuarded zero redirects current = (tt, omega arith, tt)
  download_from-IsGuarded (suc rounds) redirects current =
      elim (Bool-cases (source_url out p current)) [
        | inr strange ↦ rw strange (tt, omega arith, tt)
        | inl allowed ↦ elim (Option-cases (up.get redirects current)) [
          | inl e ↦ rw (allowed, e) ((source_url-IsAllowed current allowed, tt), omega arith, tt)
          | inr (response, e) ↦ elim (Bool-cases (is_redirect response.status_code)) [
            | inr final ↦
                rw (allowed, e, final)
                  (
                    (source_url-IsAllowed current allowed, tt),
                    omega arith,
                    accept_response-IsImage up p.max_bytes response,
                  )
            | inl moved ↦ elim (Next-cases (next_url up redirects current response)) [
              | inl (x, ended) ↦
                  rw (allowed, e, moved, ended)
                    ((source_url-IsAllowed current allowed, tt), omega arith, tt)
              | inr (next, on) ↦
                  let (guarded, few, image) = download_from-IsGuarded rounds (redirects + 1) next in
                  rw (allowed, e, moved, on)
                    ((source_url-IsAllowed current allowed, guarded), omega arith, image)
            ]
          ]
        ]
      ]

  -- The proxy requests only URLs of the allowed HTTPS origins and without user information, after
  -- every redirect too, makes at most four requests for an avatar, and returns only an image that is
  -- not empty, no larger than allowed and of a known type.
  pub download-IsGuarded : (raw_url : Text) → IsGuarded 4 (download out up p raw_url)
  unfolding download
  download-IsGuarded raw_url = download_from-IsGuarded 4 0 (trim_space raw_url)
