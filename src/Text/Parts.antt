-- ===== src/Text/Parts.antt =====
-- Lists of names as the server reads them: split at commas, trimmed, without blanks and repetitions.
pub mod Laws
use zenmind_official_server.Base.{
  ltb, ◌&&◌, ◌==◌, ℕ, Bool, true, false, ◌||◌, List, [], ◌∷◌, ◌++◌, if◌then◌else◌,
}
use zenmind_official_server.Text.{Text, text_eq, trim_space, is_blank, split}

-- `seen[s]`, for the strings that have been seen.
unfoldable pub mem : Text → List Text → Bool
unfolding text_eq
mem s [] = false
mem s (t ∷ ts) = text_eq t s || mem s ts

-- The loop over the parts: `if part == "" || seen[part] { continue }`, else the part is appended.
unfoldable pub distinct_from : List Text → List Text → List Text
unfolding mem trim_space is_blank
distinct_from seen [] = []
distinct_from seen (p ∷ ps) =
    let part = trim_space p in
    let skipped = distinct_from seen ps in
    let taken = part ∷ distinct_from (part ∷ seen) ps in
    if is_blank part || mem part seen then skipped else taken

unfoldable pub distinct : List Text → List Text
unfolding distinct_from
distinct parts = distinct_from [] parts

-- The parts of all the values, in order.
unfoldable pub split_all : ℕ → List Text → List Text
unfolding split
split_all sep [] = []
split_all sep (v ∷ vs) = split sep v ++ split_all sep vs

-- The order of two texts, byte by byte.
unfoldable pub is_before : Text → Text → Bool
is_before s [] = false
is_before [] (b ∷ t) = true
is_before (a ∷ s) (b ∷ t) = let rest = is_before s t in ltb a b || (a == b && rest)
