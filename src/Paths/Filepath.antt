-- ===== src/Paths/Filepath.antt =====
-- path/filepath (and path) on Linux: Clean, Join, Base and IsAbs.
use home_server_deployer.Prelude.{
  ℕ, String, Bool, ◌||◌, ◌<>◌, List, [], ◌∷◌, reverse, str_eq, if◌then◌else◌,
}
use home_server_deployer.Text.{has_prefix, split}

abbrev pub slash : ℕ
slash = b'/'

-- filepath.IsAbs
unfoldable pub is_abs : String → Bool
unfolding has_prefix
is_abs s = has_prefix s "/"

-- Parts between slashes, put together.
unfoldable pub join_parts : List String → String
join_parts [] = ""
join_parts (p ∷ []) = p
join_parts (p ∷ q ∷ ps) = p <> ("/" <> join_parts (q ∷ ps))

-- What `..` does to the parts kept so far, the last one first: it drops a name, stays at the root,
-- and is kept where there is nothing to drop.
unfoldable pub go_up : Bool → List String → List String
go_up rooted [] = if rooted then [] else ".." ∷ []
go_up rooted (p ∷ ps) = if str_eq p ".." then ".." ∷ p ∷ ps else ps

unfoldable pub clean_step : Bool → List String → String → List String
unfolding go_up
clean_step rooted kept part =
    if str_eq part "" || str_eq part "."
    then kept
    else if str_eq part ".."
    then go_up rooted kept
    else part ∷ kept

unfoldable pub clean_parts : Bool → List String → List String → List String
unfolding clean_step
clean_parts rooted kept [] = reverse kept
clean_parts rooted kept (part ∷ parts) = clean_parts rooted (clean_step rooted kept part) parts

-- filepath.Clean
unfoldable pub clean : String → String
unfolding clean_parts join_parts is_abs split
clean s =
    let body = join_parts (clean_parts (is_abs s) [] (split slash s)) in
    if is_abs s then "/" <> body else if str_eq body "" then "." else body

-- filepath.Join of two elements that are not empty
unfoldable pub filepath_join : String → String → String
unfolding clean
filepath_join a b = clean (a <> ("/" <> b))

-- The last part that is not empty, if there is one.
unfoldable pub last_part : String → List String → String
last_part found [] = found
last_part found (p ∷ ps) = last_part (if str_eq p "" then found else p) ps

-- filepath.Base
unfoldable pub base : String → String
unfolding last_part split
base s =
    if str_eq s ""
    then "."
    else let p = last_part "" (split slash s) in if str_eq p "" then "/" else p

-- All parts but the last.
unfoldable pub all_but_last : List String → List String
all_but_last [] = []
all_but_last (p ∷ []) = []
all_but_last (p ∷ q ∷ ps) = p ∷ all_but_last (q ∷ ps)

abbrev pub parent_of : List String → String
parent_of [] = "."
parent_of (p ∷ ps) = clean (join_parts (p ∷ ps) <> "/")

-- filepath.Dir
unfoldable pub dir : String → String
unfolding all_but_last clean split
dir s = parent_of (all_but_last (split slash s))
