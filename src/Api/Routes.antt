-- ===== src/Api/Routes.antt =====
-- internal/api/server.go: `routes`.
use home_server_deployer.Prelude.{
  String, Bool, true, false, ◌&&◌, ◌||◌, Option, none, some, List, [], ◌∷◌, map, str_eq,
  if◌then◌else◌,
}
use home_server_deployer.Text.{split}
use home_server_deployer.Text.Unescape.{path_unescape}

-- The handlers, with the values of `PathValue`.
pub data Route : Type 0 where
  get_health get_capabilities get_catalog get_quadlets get_instances : Route
  get_status : String → Route
  post_plan : Route
  post_execute : String → Route
  post_action : String → String → Route
  get_logs : String → Route
  get_docs : String → String → Route
  get_backup_contract post_backup : String → Route

-- A wildcard takes any segment but the one that decodes to a slash.
abbrev pub wild : String → Route → Option Route
wild id r = if str_eq id "/" then none else some r

abbrev pub wild_two : String → String → Route → Option Route
wild_two id name r = if str_eq id "/" || str_eq name "/" then none else some r

-- The routes of the decoded segments after "v1"
unfoldable pub get_route : List String → Option Route
get_route [] = none
get_route (a ∷ []) =
    if str_eq a "health"
    then some get_health
    else if str_eq a "capabilities"
    then some get_capabilities
    else if str_eq a "catalog"
    then some get_catalog
    else if str_eq a "quadlets"
    then some get_quadlets
    else if str_eq a "instances"
    then some get_instances
    else none
get_route (a ∷ id ∷ []) = if str_eq a "instances" then wild id (get_status id) else none
get_route (a ∷ id ∷ c ∷ []) =
    if str_eq a "instances"
    then (if str_eq c "logs"
        then wild id (get_logs id)
        else if str_eq c "backup-contract"
        then wild id (get_backup_contract id)
        else none)
    else none
get_route (a ∷ id ∷ c ∷ name ∷ []) =
    if str_eq a "instances"
    then (if str_eq c "docs" then wild_two id name (get_docs id name) else none)
    else none
get_route (a ∷ id ∷ c ∷ name ∷ d ∷ more) = none

unfoldable pub post_route : List String → Option Route
post_route [] = none
post_route (a ∷ []) = if str_eq a "plans" then some post_plan else none
post_route (a ∷ id ∷ []) = none
post_route (a ∷ id ∷ c ∷ []) =
    if str_eq a "plans"
    then (if str_eq c "execute" then wild id (post_execute id) else none)
    else if str_eq a "instances"
    then (if str_eq c "backup" then wild id (post_backup id) else none)
    else none
post_route (a ∷ id ∷ c ∷ action ∷ []) =
    if str_eq a "instances"
    then (if str_eq c "actions" then wild_two id action (post_action id action) else none)
    else none
post_route (a ∷ id ∷ c ∷ action ∷ d ∷ more) = none

-- A path with such a segment is not clean: `ServeMux` answers it with a redirect.
unfoldable pub has_unclean : List String → Bool
has_unclean [] = false
has_unclean (s ∷ ss) =
    let rest = has_unclean ss in
    if str_eq s "" || (str_eq s "." || str_eq s "..") then true else rest

abbrev pub method_route : String → List String → Option Route
method_route method segments =
    if str_eq method "GET" || str_eq method "HEAD"
    then get_route segments
    else if str_eq method "POST"
    then post_route segments
    else none

abbrev pub below_v1 : String → List String → Option Route
below_v1 method (root ∷ version ∷ segments) =
    if str_eq root "" && str_eq (path_unescape version) "v1"
    then (if has_unclean segments then none else method_route method (map path_unescape segments))
    else none
below_v1 method _ = none

-- The handler of a request, unless `ServeMux` answers it itself.
unfoldable pub route : String → String → Option Route
unfolding split path_unescape get_route post_route has_unclean
route method path = below_v1 method (split b'/' path)
