-- ===== src/Paths.antt =====
-- Go's `path/filepath` on Unix. A clean rooted path is the list of its elements, the last one first, so the root is
-- the empty list, `filepath.Dir` drops the first element of the list and `filepath.Base` reads it.
pub mod Inside
use opemail.Prelude.{ℕ, Bool, true, false, ◌&&◌, ◌||◌, List, [], ◌∷◌, ◌++◌, if◌then◌else◌}
use opemail.Text.{Text, codes, eqb, is_empty, split, join}

abbrev pub FilePath : Type 0
FilePath = List Text

-- the clean rooted path with these elements from the root on
abbrev pub rooted : List Text → FilePath
rooted [] = []
rooted (e ∷ es) = rooted es ++ e ∷ []

abbrev pub parent : FilePath → FilePath
parent [] = []
parent (e ∷ p) = p

-- one element of an unclean path
unfoldable pub walk : FilePath → Text → FilePath
unfolding eqb is_empty
walk p e =
    if is_empty e || eqb e (codes ".") then p else if eqb e (codes "..") then parent p else e ∷ p

unfoldable pub walk_all : FilePath → List Text → FilePath
unfolding walk
walk_all p [] = p
walk_all p (e ∷ es) = walk_all (walk p e) es

-- filepath.Join(p, s)
unfoldable pub enter : FilePath → Text → FilePath
unfolding walk_all split
enter p s = walk_all p (split s b'/')

-- one element of a relative path: `..` stays where there is nothing to leave
abbrev pub leave : FilePath → FilePath
leave [] = codes ".." ∷ []
leave (e ∷ p) = if eqb e (codes "..") then codes ".." ∷ e ∷ p else p

unfoldable pub step : FilePath → Text → FilePath
unfolding eqb is_empty
step p e =
    if is_empty e || eqb e (codes ".") then p else if eqb e (codes "..") then leave p else e ∷ p

unfoldable pub step_all : FilePath → List Text → FilePath
unfolding step
step_all p [] = p
step_all p (e ∷ es) = step_all (step p e) es

abbrev pub forwards : FilePath → List Text
forwards [] = []
forwards (e ∷ p) = forwards p ++ e ∷ []

-- filepath.Clean(s) for a relative path
unfoldable pub clean_relative : Text → Text
unfolding step_all split join
clean_relative s = elim (step_all [] (split s b'/')) [
  | [] ↦ codes "."
  | e ∷ p ↦ join (forwards (e ∷ p)) (codes "/")
]

-- the text of a path
unfoldable pub path_text : FilePath → Text
unfolding join
path_text p = b'/' ∷ join (forwards p) (codes "/")

-- the last element that is not empty
unfoldable pub last_element : List Text → Text
unfolding is_empty
last_element [] = []
last_element (e ∷ es) = let rest = last_element es in if is_empty rest then e else rest

-- filepath.Base(s)
unfoldable pub base : Text → Text
unfolding is_empty last_element split
base s =
    if is_empty s
    then codes "."
    else if is_empty (last_element (split s b'/'))
    then codes "/"
    else last_element (split s b'/')

unfoldable pub same : FilePath → FilePath → Bool
unfolding eqb
same [] [] = true
same [] (e ∷ q) = false
same (e ∷ p) [] = false
same (e ∷ p) (f ∷ q) = eqb e f && same p q

-- `q` is `p` or lies below it
unfoldable pub below : FilePath → FilePath → Bool
unfolding same
below p [] = same p []
below p (f ∷ q) = same p (f ∷ q) || below p q
