-- ===== src/Web/Routes.antt =====
-- internal/web/server.go: `routes`.
use home_server_deployer.Prelude.{
  String, Bool, true, false, not, ◌||◌, Option, none, some, List, [], ◌∷◌, map, str_eq,
  if◌then◌else◌,
}
use home_server_deployer.Text.{split}
use home_server_deployer.Text.Unescape.{path_unescape}

pub data WebRoute : Type 0 where
  show_index post_plan post_execute post_action : WebRoute
  show_logs show_docs : String → WebRoute

-- The page of the decoded segments. "GET /" takes every path that has no handler of its own, and a
-- wildcard takes any segment but the empty one and the one that decodes to a slash.
abbrev pub get_page : List String → WebRoute
get_page (a ∷ id ∷ []) =
    if str_eq id "" || str_eq id "/"
    then show_index
    else if str_eq a "logs"
    then show_logs id
    else if str_eq a "docs"
    then show_docs id
    else show_index
get_page _ = show_index

abbrev pub form_target : List String → Option WebRoute
form_target (a ∷ []) =
    if str_eq a "plan"
    then some post_plan
    else if str_eq a "execute"
    then some post_execute
    else if str_eq a "action"
    then some post_action
    else none
form_target _ = none

-- The path is not clean, so that `ServeMux` redirects: a slash at its end is clean.
unfoldable pub redirects : List String → Bool
redirects [] = false
redirects (s ∷ []) = str_eq s "." || str_eq s ".."
redirects (s ∷ t ∷ ss) =
    let rest = redirects (t ∷ ss) in
    if str_eq s "" || (str_eq s "." || str_eq s "..") then true else rest

abbrev pub below_root : String → List String → Option WebRoute
below_root method [] = none
below_root method (root ∷ segments) =
    if not (str_eq root "") || redirects segments
    then none
    else if str_eq method "GET" || str_eq method "HEAD"
    then some (get_page (map path_unescape segments))
    else if str_eq method "POST"
    then form_target (map path_unescape segments)
    else none

-- `routes`
unfoldable pub web_route : String → String → Option WebRoute
unfolding split path_unescape redirects
web_route method path = if str_eq path "" then none else below_root method (split b'/' path)
