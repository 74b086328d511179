-- ===== src/Config.antt =====
-- internal/config/config.go: the configuration and `Validate`.
pub mod Laws
use home_server_deployer.Prelude.{
  String, not, ◌||◌, Option, none, some, List, [], ◌∷◌, str_eq, contains, if◌then◌else◌,
}
use home_server_deployer.Error.{
  Error, and_then, not_absolute, root_ids_not_unique, root_not_absolute, decode_config_failed,
  is_not_exist,
}
use home_server_deployer.Act.{Result, ok, err, Act}
use home_server_deployer.Paths.{Root}
use home_server_deployer.Paths.Filepath.{is_abs}

pub record Config : Type 0 where
  pub listen_socket : String
  pub podman_socket : String
  pub state_root : String
  pub documentation_root : String
  pub catalog_root : String
  pub approved_roots : List Root
  pub test_vm_marker : String

abbrev pub default_config : Config
default_config = record {
  listen_socket = "/run/home-server-deployer/agent.sock";
  podman_socket = "/run/podman/podman.sock";
  state_root = "/var/lib/home-server-deployer";
  documentation_root = "/var/lib/home-server-deployer/docs";
  catalog_root = "/usr/share/home-server-deployer/catalog/apps";
  approved_roots =
      record {
        id = "application-data";
        host_path = "/var/lib/home-server-apps";
        agent_path = "/approved/application-data";
      }
      ∷ [];
  test_vm_marker = "/etc/home-server-deployer/test-vm";
}

-- The first loop of `Validate`. It ranges over a map: which of several bad paths is reported is open.
unfoldable pub check_paths : List (String × String) → Option Error
unfolding is_abs
check_paths [] = none
check_paths ((name, p) ∷ rest) =
    let later = check_paths rest in
    if str_eq p "" || not (is_abs p) then some (not_absolute name) else later

-- The second loop, with the IDs seen so far.
unfoldable pub check_roots : List Root → List String → Option Error
unfolding is_abs contains
check_roots [] seen = none
check_roots (r ∷ rs) seen =
    let later = check_roots rs (r.id ∷ seen) in
    if str_eq r.id "" || contains seen r.id
    then some root_ids_not_unique
    else if not (is_abs r.host_path) || not (is_abs r.agent_path)
    then some (root_not_absolute r.id)
    else later

unfoldable pub validate_config : Config → Option Error
unfolding check_paths check_roots
validate_config c =
    and_then
      (check_paths (
        ("listenSocket", c.listen_socket)
        ∷ ("podmanSocket", c.podman_socket)
        ∷ ("stateRoot", c.state_root)
        ∷ ("documentationRoot", c.documentation_root)
        ∷ ("catalogRoot", c.catalog_root)
        ∷ []))
      (check_roots c.approved_roots [])

-- config.DefaultPath
abbrev pub default_path : String
default_path = "/etc/home-server-deployer/config.json"

abbrev pub valid_config : Config → Option Error → Result Config
valid_config c none = ok c
valid_config c (some e) = err e

-- The end of `Load`. `decode` is the strict decoder: it fills in what the text has on top of the
-- defaults.
abbrev pub decoded_config : Result Config → Result Config
decoded_config (err e) = err (decode_config_failed e)
decoded_config (ok c) = valid_config c (validate_config c)

abbrev pub config_of : (Config → String → Result Config) → Result String → Result Config
config_of decode (err e) = if is_not_exist e then ok default_config else err e
config_of decode (ok text) = decoded_config (decode default_config text)

unfoldable pub load_config :
    {W : Type 0}
    → (String → Act W String)
    → (Config → String → Result Config)
    → String
    → Act W Config
unfolding validate_config
load_config read_file decode path w =
    let (r, w') = read_file (if str_eq path "" then default_path else path) w in
    (config_of decode r, w')
