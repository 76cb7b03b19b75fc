-- ===== src/Auth/Email/Laws.antt =====
-- What valid_email accepts.
use zenmind_official_server.Base.{
  ℕ, ◌≤◌, ◌≡◌, ◌≢◌, refl, ap, ◌∙◌, ◌↔◌, true, false, [], ◌∷◌, ◌++◌, length, leb, All, arith,
  and-eq-true, leb→le, le→leb,
}
use zenmind_official_server.Text.{Text}
use zenmind_official_server.Regex.{match_string, in_class, Lang}
use zenmind_official_server.Regex.Laws.{match_string_iff}
use zenmind_official_server.Regex.Classes.{Lang-plus}
use zenmind_official_server.Auth.Email.{no_at_or_space, email_pattern, valid_email}

-- A nonempty text with no '@' and no white space.
abbrev pub IsWord : Text → Type 0
IsWord s = (s ≢ []) × All (λ c. in_class c true no_at_or_space ≡ true) s

-- `local@domain.suffix`, each part a word.
abbrev pub IsAddress : Text → Type 0
IsAddress email =
    (local : Text) × (domain : Text) × (suffix : Text) × (email
      ≡ local ++ (b'@' ∷ (domain ++ (b'.' ∷ suffix))))
    × IsWord local
    × IsWord domain
    × IsWord suffix

byte-cons :
    (c : ℕ) (s t : Text)
    → (d : ℕ) × (s ≡ d ∷ []) × (in_class d false ((c, c) ∷ []) ≡ true)
    → s ++ t ≡ c ∷ t
unfolding in_class
byte-cons c s t (d, e, h) =
    let same : d ≡ c = ground arith in
    let whole : s ≡ c ∷ [] = e ∙ ap (λ (x : ℕ). x ∷ []) same in ap (λ (x : Text). x ++ t) whole

in_class_self : (c : ℕ) → in_class c false ((c, c) ∷ []) ≡ true
unfolding in_class
in_class_self c = ground arith

Lang-email_pattern→IsAddress : (email : Text) → Lang email_pattern email → IsAddress email
unfolding email_pattern
Lang-email_pattern→IsAddress email
      (
        local,
        r1,
        e1,
        word1,
        (at, r2, e2, is_at, (domain, r3, e3, word2, (dot, suffix, e4, is_dot, word3))),
      ) =
    let tail : r1 ≡ b'@' ∷ r2 = e2 ∙ byte-cons b'@' at r2 is_at in
    let end : r3 ≡ b'.' ∷ suffix = e4 ∙ byte-cons b'.' dot suffix is_dot in
    (
      local,
      domain,
      suffix,
      e1
          ∙ ap (λ (x : Text). local ++ x)
              (tail ∙ ap (λ (x : Text). b'@' ∷ x) (e3 ∙ ap (λ (x : Text). domain ++ x) end)),
      (Lang-plus true no_at_or_space local).0 word1,
      (Lang-plus true no_at_or_space domain).0 word2,
      (Lang-plus true no_at_or_space suffix).0 word3,
    )

IsAddress→Lang-email_pattern : (email : Text) → IsAddress email → Lang email_pattern email
unfolding email_pattern
IsAddress→Lang-email_pattern email (local, domain, suffix, e, w1, w2, w3) = (
  local,
  b'@' ∷ (domain ++ (b'.' ∷ suffix)),
  e,
  (Lang-plus true no_at_or_space local).1 w1,
  (
    b'@' ∷ [],
    domain ++ (b'.' ∷ suffix),
    refl,
    (b'@', refl, in_class_self b'@'),
    (
      domain,
      b'.' ∷ suffix,
      refl,
      (Lang-plus true no_at_or_space domain).1 w2,
      (
        b'.' ∷ [],
        suffix,
        refl,
        (b'.', refl, in_class_self b'.'),
        (Lang-plus true no_at_or_space suffix).1 w3,
      ),
    ),
  ),
)

-- valid_email accepts exactly the addresses `local@domain.suffix` of at most 255 bytes, in which
-- the three parts are nonempty and hold no '@' and no white space.
pub valid_email_iff :
    (email : Text) → (valid_email email ≡ true) ↔ ((length email ≤ 255) × IsAddress email)
unfolding valid_email
valid_email_iff email =
    let (to, from) = match_string_iff email_pattern email in
    (
      λ h.
          let (short, hit) =
            and-eq-true (leb (length email) 255) (match_string email_pattern email) h in
          (leb→le (length email) 255 short, Lang-email_pattern→IsAddress email (to hit)),
      λ (short, address).
          rw (le→leb (length email) 255 short) (from (IsAddress→Lang-email_pattern email address)),
    )
