-- ===== src/Podman/Containers.antt =====
-- internal/podman/podman.go: `ListContainers`, `inspectContainer` and `DiscoverCapabilities`, and
-- the client as the interface that the engine calls.
use home_server_deployer.Prelude.{
  String, ◌<>◌, Bool, true, false, Option, none, some, List, [], ◌∷◌, ◌==◌, str_eq, if◌then◌else◌,
}
use home_server_deployer.Prelude.Sort.{sort_by}
use home_server_deployer.Model.{RuntimeContainer, PodmanCapabilities}
use home_server_deployer.Act.{Result, ok, err, lift, ◌>>=◌}
use home_server_deployer.Text.{has_prefix, trim_prefix}
use home_server_deployer.Catalog.Parameters.{value_of}
use home_server_deployer.Services.{Backend}
use home_server_deployer.Podman.Version.{profile_for_version}
use home_server_deployer.Podman.Http.{
  Response, VersionResponse, HostInfo, ListedContainer, Inspect, Http,
}
use home_server_deployer.Podman.Client.{
  Client, Call, libpod_path, inspect_path, send_request, request_ok, ensure_version, list_quadlets,
  get_quadlet, install_quadlet, remove_quadlet, container_logs,
}

-- systemdEnv
abbrev pub systemd_env : String
systemd_env = "PODMAN_SYSTEMD_UNIT"

abbrev pub first_name : List String → String
first_name [] = ""
first_name (n ∷ _) = trim_prefix n "/"

-- What the list says of a container.
unfoldable pub from_listed : ListedContainer → RuntimeContainer
unfolding trim_prefix value_of
from_listed s = record {
  id = s.id;
  name = first_name s.names;
  state = s.state;
  status = s.status;
  health = "";
  systemd_unit = value_of s.labels systemd_env;
  labels = s.labels;
}

-- The loop over the environment.
unfoldable pub unit_of_env : List String → String
unfolding has_prefix trim_prefix
unit_of_env [] = ""
unit_of_env (e ∷ es) =
    let rest = unit_of_env es in
    if has_prefix e (systemd_env <> "=") then trim_prefix e (systemd_env <> "=") else rest

abbrev pub or_text : String → String → String
or_text s t = if str_eq s "" then t else s

-- What the inspection of a container changes.
unfoldable pub with_inspect : Inspect → RuntimeContainer → RuntimeContainer
unfolding trim_prefix unit_of_env value_of
with_inspect i r = record r {
  name = if str_eq i.name "" then r.name else trim_prefix i.name "/";
  state = or_text i.status r.state;
  health = i.health;
  systemd_unit =
      or_text (or_text r.systemd_unit (value_of i.labels systemd_env)) (unit_of_env i.env);
}

abbrev pub inspected : Result Inspect → RuntimeContainer → RuntimeContainer
inspected (ok i) r = with_inspect i r
inspected (err _) r = r

-- `e == nil` and the status is 200.
abbrev pub answered : Result Response → Option Response
answered (err _) = none
answered (ok resp) = if resp.status_code == 200 then some resp else none

abbrev pub is_answered : Option Response → Bool
is_answered none = false
is_answered (some _) = true

-- The capabilities before the host's information.
unfoldable pub known_capabilities : VersionResponse → String → Bool → PodmanCapabilities
unfolding profile_for_version
known_capabilities vr api listed =
    let profile = profile_for_version vr.version in
    record {
      version = vr.version;
      libpod_api_version = api;
      min_libpod_api_version = vr.min_api_version;
      architecture = vr.arch;
      rootless = false;
      cgroup_manager = "";
      cgroup_version = "";
      network_backend = "";
      quadlet_list = listed;
      quadlet_print = if listed then profile.quadlet_print else false;
      quadlet_install = if listed then profile.quadlet_install else false;
      quadlet_remove = if listed then profile.quadlet_remove else false;
      native_application_install = profile.native_application_install;
    }

unfoldable pub with_info : HostInfo → PodmanCapabilities → PodmanCapabilities
with_info i caps = record caps {
  rootless = i.rootless;
  cgroup_manager = i.cgroup_manager;
  cgroup_version = i.cgroup_version;
  network_backend = i.network_backend;
  architecture = or_text caps.architecture i.arch;
}

abbrev pub decoded_info : Result HostInfo → PodmanCapabilities → PodmanCapabilities
decoded_info (ok i) caps = with_info i caps
decoded_info (err _) caps = caps

module _ {W : Type 0} (http : Http W) (base : String) where
  unfoldable pub inspect_container : String → Call http base Inspect
  unfolding request_ok inspect_path
  inspect_container id = do
    resp ← request_ok http base "GET" (inspect_path id) [] "" ""
    lift (http.decode_inspect resp.body)

  -- The loop of `ListContainers`. An inspection that fails leaves what the list says.
  unfoldable pub inspect_each :
      List ListedContainer → Client × W → List RuntimeContainer × (Client × W)
  unfolding inspect_container from_listed with_inspect
  inspect_each [] s = ([], s)
  inspect_each (l ∷ ls) s =
      let (r, s') = inspect_container l.id s in
      let (rest, s'') = inspect_each ls s' in (inspected r (from_listed l) ∷ rest, s'')

  abbrev pub sorted_containers :
      List RuntimeContainer × (Client × W) → Result (List RuntimeContainer) × (Client × W)
  sorted_containers (cs, s) = (ok (sort_by (λ (c : RuntimeContainer). c.name) cs), s)

  unfoldable pub list_containers : Call http base (List RuntimeContainer)
  unfolding ensure_version request_ok libpod_path inspect_each sort_by
  list_containers = do
    _ ← ensure_version http base
    resp ←
        request_ok http base "GET" (λ c. libpod_path c "/libpod/containers/json")
          (("all", "true") ∷ []) "" ""
    list ← lift (http.decode_containers resp.body)
    λ s. sorted_containers (inspect_each list s)

  abbrev pub informed : Option Response → PodmanCapabilities → PodmanCapabilities
  informed none caps = caps
  informed (some resp) caps = decoded_info (http.decode_info resp.body) caps

  -- What follows `ensureVersion`. The errors of both calls are dropped.
  unfoldable pub probe : VersionResponse → Call http base PodmanCapabilities
  unfolding send_request libpod_path known_capabilities with_info
  probe vr s =
      let (q, s1) =
        send_request http base "GET" (λ c. libpod_path c "/libpod/quadlets/json") [] "" "" s in
      let (i, s2) = send_request http base "GET" (λ c. libpod_path c "/libpod/info") [] "" "" s1 in
      (
        ok (
            informed (answered i)
              (known_capabilities vr s.0.libpod_api (is_answered (answered q)))),
        s2,
      )

  unfoldable pub discover_capabilities : Call http base PodmanCapabilities
  unfolding ensure_version probe
  discover_capabilities = do vr ← ensure_version http base; probe vr

  -- `*HTTPClient` as a `Backend`
  unfoldable pub client_backend : Backend (Client × W)
  unfolding discover_capabilities list_quadlets get_quadlet install_quadlet remove_quadlet
      list_containers container_logs
  client_backend = record {
    discover_capabilities = discover_capabilities;
    list_quadlets = list_quadlets http base;
    get_quadlet = get_quadlet http base;
    install_quadlet = install_quadlet http base;
    remove_quadlet = remove_quadlet http base;
    list_containers = list_containers;
    container_logs = container_logs http base;
  }
