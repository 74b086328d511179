-- ===== src/Tests/Paths.antt =====
-- Resolving paths below an approved root.
use home_server_deployer.Prelude.{[], ◌∷◌, false, ◌≡◌, refl, none, ◌++◌, ◌<>◌}
use home_server_deployer.Act.{ok, err}
use home_server_deployer.Text.{split, contains_any}
use home_server_deployer.Paths.{Root, resolve, unsafe_part, check_relative}
use home_server_deployer.Error.{unsafe_component}
use home_server_deployer.Catalog.Parameters.{is_bad_path}
use home_server_deployer.Catalog.PathLaws.{check_relative-is_bad_path}
use home_server_deployer.Paths.Filepath.{slash, join_parts}
use home_server_deployer.Paths.ContainmentLaws.{names_of, resolve-names}

abbrev data_root : Root
data_root = record { id = "data"; host_path = "/srv//data/"; agent_path = "/approved" }

resolved : resolve data_root "web/db" ≡ ok ("/approved/web/db", "/srv/data/web/db")
unfolding resolve
resolved = refl

resolve-names_example :
    (unsafe_part (split slash "web/db") ≡ none)
    × ("/approved/web/db"
        ≡ "/" <> join_parts (names_of data_root.agent_path ++ split slash "web/db"))
    × ("/srv/data/web/db"
        ≡ "/" <> join_parts (names_of data_root.host_path ++ split slash "web/db"))
resolve-names_example =
    resolve-names data_root "web/db" "/approved/web/db" "/srv/data/web/db" resolved

accepted : (is_bad_path "web/db" ≡ false) × (contains_any "web/db" (0 ∷ []) ≡ false)
unfolding is_bad_path contains_any
accepted = (refl, refl)

check_relative-is_bad_path_example : check_relative "web/db" ≡ ok tt
check_relative-is_bad_path_example = check_relative-is_bad_path "web/db" accepted.0 accepted.1 refl

-- The one path that the catalog takes and `Resolve` does not.
double_dot : (is_bad_path ".." ≡ false) × (check_relative ".." ≡ err (unsafe_component ".."))
unfolding is_bad_path check_relative
double_dot = (refl, refl)
