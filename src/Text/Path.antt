-- ===== src/Text/Path.antt =====
-- path.Join, path.Base and path.Dir, which are also those of path/filepath on Unix.
use zenmind_official_server.Base.{
  Bool, not, ◌&&◌, ◌||◌, ◌==◌, List, [], ◌∷◌, ◌++◌, reverse, if◌then◌else◌,
}
use zenmind_official_server.Text.{Text, text, text_eq, is_blank, has_prefix, split}

-- The elements of a path behind those that are taken, the last one first: "." is left out, and ".."
-- takes the element before it, or stays where there is none and the path is relative.
pop : Bool → List Text → List Text
unfolding text_eq text
pop rooted [] = if rooted then [] else text ".." ∷ []
pop rooted (e ∷ es) = if text_eq e (text "..") then text ".." ∷ e ∷ es else es

push : Bool → Text → List Text → List Text
unfolding is_blank text_eq text pop
push rooted e es =
    if is_blank e || text_eq e (text ".")
    then es
    else if text_eq e (text "..")
    then pop rooted es
    else e ∷ es

clean_from : Bool → List Text → List Text → List Text
unfolding push
clean_from rooted taken [] = reverse taken
clean_from rooted taken (e ∷ es) = clean_from rooted (push rooted e taken) es

slashed : List Text → Text
unfolding text
slashed [] = []
slashed (e ∷ []) = e
slashed (e ∷ es) = e ++ text "/" ++ slashed es

-- path.Clean
unfoldable pub clean : Text → Text
unfolding is_blank has_prefix text split clean_from slashed
clean path =
    let rooted = has_prefix path (text "/") in
    let rest = slashed (clean_from rooted [] (split b'/' path)) in
    if rooted then text "/" ++ rest else if is_blank rest then text "." else rest

nonblank : List Text → List Text
unfolding is_blank
nonblank [] = []
nonblank (e ∷ es) = let rest = nonblank es in if is_blank e then rest else e ∷ rest

-- path.Join
unfoldable pub join : List Text → Text
unfolding clean is_blank nonblank slashed
join elements = let path = slashed (nonblank elements) in if is_blank path then [] else clean path

last_of : Text → List Text → Text
last_of e [] = e
last_of e (f ∷ fs) = last_of f fs

-- path.Base
unfoldable pub base : Text → Text
unfolding is_blank text split nonblank last_of
base path =
    let name = last_of [] (nonblank (split b'/' path)) in
    if is_blank path then text "." else if is_blank name then text "/" else name

-- What stands up to the last slash, with it.
up_to_slash : Text → Text
unfolding is_blank
up_to_slash [] = []
up_to_slash (c ∷ s) =
    let rest = up_to_slash s in if is_blank rest && not (c == b'/') then [] else c ∷ rest

-- path.Dir
unfoldable pub dir : Text → Text
unfolding clean up_to_slash
dir path = clean (up_to_slash path)
