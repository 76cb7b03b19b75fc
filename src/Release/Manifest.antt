-- ===== src/Release/Manifest.antt =====
-- internal/release/desktop_updates.go: ValidateDesktopManifest; ValidUpdateName of
-- internal/release/update_feeds.go. Negative integers are left out: the guards refuse them as they
-- refuse 0, or 2 for a schema.
use zenmind_official_server.Base.{
  ℕ, ◌*◌, Bool, true, false, not, ◌&&◌, ◌||◌, Option, none, some, List, [], ◌∷◌, if◌then◌else◌, leb,
  ◌==◌, length, all,
}
use zenmind_official_server.Text.{
  Text, text, text_eq, to_lower, is_blank, contains_byte, split, has_prefix,
}
use zenmind_official_server.Base.{reverse}
use zenmind_official_server.Dict.{Dict}
use zenmind_official_server.Regex.{
  Regex, eps, class, seq, alt, star, plus, opt, times, up_to, match_string,
}

pub record DesktopArtifact : Type 0 where
  pub url : Text
  pub size : ℕ
  pub sha256 : Text

-- `none` is a nil map, and a nil slice of notes.
pub record DesktopManifest : Type 0 where
  pub schema_version : ℕ
  pub product_id : Text
  pub version : Text
  pub published_at : Text
  pub release_notes : Option (Dict (Option (List Text)))
  pub artifacts : Dict DesktopArtifact

pub record ArtifactUrl : Type 0 where
  pub scheme : Text
  pub hostname : Text
  pub has_user : Bool
  pub fragment : Text
  pub escaped_path : Text

-- The libraries that the package calls.
pub record Formats : Type 0 where
  -- time.Parse(time.RFC3339Nano, s) is no error
  pub is_time : Text → Bool
  -- len(utf16.Encode([]rune(s)))
  pub utf16_length : Text → ℕ
  -- utf8.RuneCountInString
  pub rune_count : Text → ℕ
  pub parse_url : Text → Option ArtifactUrl
  -- json.Marshal and json.Unmarshal
  pub marshal : DesktopManifest → Option Text
  pub unmarshal : Text → Option DesktopManifest

abbrev pub max_desktop_manifest_bytes : ℕ
max_desktop_manifest_bytes = 256 * 1024

abbrev pub lower : List (ℕ × ℕ)
lower = (b'a', b'z') ∷ []

abbrev pub digit : List (ℕ × ℕ)
digit = (b'0', b'9') ∷ []

abbrev pub lower_digit_dash : List (ℕ × ℕ)
lower_digit_dash = (b'a', b'z') ∷ (b'0', b'9') ∷ (b'-', b'-') ∷ []

abbrev pub one : List (ℕ × ℕ) → Regex
one rs = class false rs

-- The expression of the bytes of a text.
abbrev pub literal : Text → Regex
literal [] = eps
literal (c ∷ s) = seq (one ((c, c) ∷ [])) (literal s)

-- `^[a-z0-9][a-z0-9-]{0,79}\.json$`
unfoldable pub feed_name_pattern : Regex
unfolding up_to text
feed_name_pattern =
    seq (one ((b'a', b'z') ∷ (b'0', b'9') ∷ []))
      (seq (up_to 79 (one lower_digit_dash)) (literal (text ".json")))

unfoldable pub valid_update_name : Text → Bool
unfolding feed_name_pattern match_string
valid_update_name name = match_string feed_name_pattern name

-- `^[a-z][a-z0-9-]{0,63}$`
unfoldable pub product_pattern : Regex
unfolding up_to
product_pattern = seq (one lower) (up_to 63 (one lower_digit_dash))

abbrev pub numeral : Regex
numeral = alt (one ((b'0', b'0') ∷ [])) (seq (one ((b'1', b'9') ∷ [])) (star (one digit)))

abbrev pub identifier : Regex
identifier = plus (one ((b'0', b'9') ∷ (b'A', b'Z') ∷ (b'a', b'z') ∷ (b'-', b'-') ∷ []))

abbrev pub dotted : Regex
dotted = seq identifier (star (seq (one ((b'.', b'.') ∷ [])) identifier))

-- `^N\.N\.N(-ID(\.ID)*)?(\+ID(\.ID)*)?$`
unfoldable pub version_pattern : Regex
version_pattern =
    let dot = one ((b'.', b'.') ∷ []) in
    seq numeral (
      seq dot (
        seq numeral (
          seq dot (
            seq numeral (
              seq (opt (seq (one ((b'-', b'-') ∷ [])) dotted))
                (opt (seq (one ((b'+', b'+') ∷ [])) dotted)))))))

-- `^[a-z]{2}(-[A-Za-z]{2,8})?$`
unfoldable pub locale_pattern : Regex
unfolding times up_to
locale_pattern =
    let letter = one ((b'A', b'Z') ∷ (b'a', b'z') ∷ []) in
    seq (times 2 (one lower))
      (opt (seq (one ((b'-', b'-') ∷ [])) (seq (times 2 letter) (up_to 6 letter))))

-- `^[a-fA-F0-9]{64}$`
unfoldable pub hash_pattern : Regex
unfolding times
hash_pattern = times 64 (one ((b'a', b'f') ∷ (b'A', b'F') ∷ (b'0', b'9') ∷ []))

-- The part before the byte, and the part behind it, if it is there.
unfoldable pub before_byte : ℕ → Text → Text
before_byte b [] = []
before_byte b (c ∷ s) = let rest = before_byte b s in if c == b then [] else c ∷ rest

unfoldable pub behind_byte : ℕ → Text → Option Text
behind_byte b [] = none
behind_byte b (c ∷ s) = let rest = behind_byte b s in if c == b then some s else rest

abbrev pub is_digit_byte : ℕ → Bool
is_digit_byte c = leb b'0' c && leb c b'9'

-- A numeric identifier with a leading zero.
unfoldable pub has_leading_zero : Text → Bool
unfolding all
has_leading_zero [] = false
has_leading_zero (c ∷ []) = false
has_leading_zero (c ∷ d ∷ s) = c == b'0' && all is_digit_byte (c ∷ d ∷ s)

unfoldable pub valid_prerelease : Text → Bool
unfolding before_byte behind_byte split all has_leading_zero
valid_prerelease version = elim (behind_byte b'-' (before_byte b'+' version)) [
  | none ↦ true
  | some pre ↦ all (λ id. not (has_leading_zero id)) (split b'.' pre)
]

abbrev pub has_suffix : Text → Text → Bool
has_suffix s suffix = has_prefix (reverse s) (reverse suffix)

-- The extension of the files of a platform.
unfoldable pub extension_of : Text → Option Text
unfolding text text_eq
extension_of platform =
    if text_eq platform (text "darwin-arm64") || text_eq platform (text "darwin-x64")
    then some (text ".zip")
    else if text_eq platform (text "win32-arm64") || text_eq platform (text "win32-x64")
    then some (text ".exe")
    else none

module _ (f : Formats) where
  unfoldable pub valid_notes : Text × Option (List Text) → Bool
  unfolding locale_pattern match_string all
  valid_notes (locale, none) = false
  valid_notes (locale, some notes) =
      match_string locale_pattern locale
      && leb (length notes) 100
      && all (λ note. leb (f.utf16_length note) 2000) notes

  unfoldable pub valid_artifact : Text × DesktopArtifact → Bool
  unfolding extension_of hash_pattern match_string has_prefix to_lower is_blank contains_byte text
      text_eq
  valid_artifact (platform, a) = elim (extension_of platform) [
    | none ↦ false
    | some extension ↦ elim (f.parse_url a.url) [
      | none ↦ false
      | some u ↦
          text_eq u.scheme (text "https")
          && not (is_blank u.hostname)
          && not u.has_user
          && is_blank u.fragment
          && not (contains_byte b'#' a.url)
          && has_suffix (to_lower u.escaped_path) extension
          && leb 1 a.size
          && leb a.size (16 * 1024 * 1024 * 1024)
          && match_string hash_pattern a.sha256
    ]
  ]

  abbrev pub valid_size : Option Text → Bool
  valid_size none = false
  valid_size (some json) = leb (length json) max_desktop_manifest_bytes

  -- ValidateDesktopManifest(m) == nil
  unfoldable pub validate_desktop_manifest : DesktopManifest → Bool
  unfolding product_pattern version_pattern valid_prerelease match_string all valid_notes
      valid_artifact
  validate_desktop_manifest m =
      m.schema_version == 1
      && match_string product_pattern m.product_id
      && leb (length m.version) 128
      && match_string version_pattern m.version
      && valid_prerelease m.version
      && f.is_time m.published_at
      && elim m.release_notes [ none ↦ false | some notes ↦ all valid_notes notes ]
      && leb 1 (length m.artifacts)
      && leb (length m.artifacts) 4
      && all valid_artifact m.artifacts
      && valid_size (f.marshal m)
