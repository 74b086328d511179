-- ===== src/Tests/Client.antt =====
-- The REST client on the Podman in memory.
use home_server_deployer.Prelude.{
  String, ◌<>◌, ◌≡◌, refl, false, none, some, List, [], ◌∷◌, str_eq, if◌then◌else◌,
}
use home_server_deployer.Text.{elem, contains_any}
use home_server_deployer.Text.Utf8.{byte_len}
use home_server_deployer.Act.{Result, ok, err, attempt}
use home_server_deployer.Model.{RuntimeContainer, PodmanCapabilities}
use home_server_deployer.Names.{valid_name}
use home_server_deployer.Podman.Http.{Response, VersionResponse, ListedContainer}
use home_server_deployer.Podman.Client.{
  Client, new_client, podman_base, libpod_path, file_path, removal_path, inspect_path, logs_path,
  ensure_version, get_quadlet, request_ok,
}
use home_server_deployer.Podman.Containers.{list_containers, discover_capabilities}
use home_server_deployer.Podman.CallLaws.{
  IsSegmentOf, paths-IsSegmentOf, VersionKept, ensure_version-VersionKept,
}
use home_server_deployer.Podman.ContainerLaws.{
  Listed, list_containers-Listed, lists_quadlets, Extends, discover_capabilities-Extends,
}
use home_server_deployer.Tests.Fake.{capabilities}
use home_server_deployer.Tests.Rest.{RestHost, serve, fake_http}

abbrev rest_host : RestHost
rest_host = record {
  names = "a b.container" ∷ "web.container" ∷ [];
  files = λ n. if str_eq n "web.container" then some "[Container]" else none;
  requests = [];
}

abbrev fresh : Client × RestHost
fresh = (new_client, rest_host)

abbrev answer_of : {A : Type 0} → A → Result A → A
answer_of a (ok b) = b
answer_of a (err _) = a

-- The version is asked first, then the file.
read_file : (get_quadlet fake_http podman_base "web.container" fresh).0 ≡ ok "[Container]"
unfolding get_quadlet attempt elem contains_any byte_len serve
read_file = refl

containers : List RuntimeContainer
unfolding list_containers attempt elem contains_any serve
containers = answer_of [] (list_containers fake_http podman_base fresh).0

containers_listed : (list_containers fake_http podman_base fresh).0 ≡ ok containers
unfolding containers
containers_listed = refl

-- The inspected container has its new name, and the order is that of the names.
names_of : List RuntimeContainer → List (String × String)
names_of [] = []
names_of (c ∷ cs) = (c.name, c.systemd_unit) ∷ names_of cs

containers_named : names_of containers ≡ ("app", "") ∷ ("zweb", "web.service") ∷ []
unfolding names_of containers
containers_named = refl

list_containers-Listed_example :
    (resp : Response) × (ls : List ListedContainer) × ((v : Client × RestHost) × ((request_ok
          fake_http podman_base "GET"
          (λ c. libpod_path c "/libpod/containers/json")
          (("all", "true") ∷ [])
          ""
          ""
          v).0
        ≡ ok resp))
    × (fake_http.decode_containers resp.body ≡ ok ls)
    × Listed fake_http podman_base ls containers
list_containers-Listed_example =
    list_containers-Listed fake_http podman_base fresh containers containers_listed

-- The capabilities of a client that has just been made, and of one that knows the version.
asked : PodmanCapabilities
unfolding discover_capabilities attempt elem contains_any serve
asked = answer_of capabilities (discover_capabilities fake_http podman_base fresh).0

asked_ok : (discover_capabilities fake_http podman_base fresh).0 ≡ ok asked
unfolding asked
asked_ok = refl

asked_minimum : asked.min_libpod_api_version ≡ "4.0.0"
unfolding asked
asked_minimum = refl

discover_capabilities-Extends_example :
    (vr : VersionResponse) × ((ensure_version fake_http podman_base fresh).0 ≡ ok vr)
    × Extends fake_http podman_base vr
        (lists_quadlets fake_http podman_base (ensure_version fake_http podman_base fresh).1)
        asked
discover_capabilities-Extends_example =
    discover_capabilities-Extends fake_http podman_base fresh asked asked_ok

abbrev knowing : Client × RestHost
knowing = (record { libpod_api = "5.8.2"; engine_version = "5.8.2" }, rest_host)

known : PodmanCapabilities
unfolding discover_capabilities attempt elem contains_any serve
known = answer_of capabilities (discover_capabilities fake_http podman_base knowing).0

known_ok : (discover_capabilities fake_http podman_base knowing).0 ≡ ok known
unfolding known
known_ok = refl

ensure_version-VersionKept_example :
    VersionKept fake_http podman_base new_client (ensure_version fake_http podman_base fresh)
ensure_version-VersionKept_example = ensure_version-VersionKept fake_http podman_base fresh

paths-IsSegmentOf_example :
    (segment : String) × IsSegmentOf "a b.container" segment
    × (file_path "a b.container" new_client
        ≡ libpod_path new_client ("/libpod/quadlets/" <> (segment <> "/file")))
    × (removal_path "a b.container" new_client
        ≡ libpod_path new_client ("/libpod/quadlets/" <> segment))
    × (inspect_path "a b.container" new_client
        ≡ libpod_path new_client ("/libpod/containers/" <> (segment <> "/json")))
    × (logs_path "a b.container" new_client
        ≡ libpod_path new_client ("/libpod/containers/" <> (segment <> "/logs")))
paths-IsSegmentOf_example = paths-IsSegmentOf "a b.container" new_client

bad_name : valid_name "../web.container" ≡ false
unfolding valid_name
bad_name = refl
