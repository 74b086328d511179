-- ===== src/Model/Host.antt =====
-- internal/model/model.go: what Podman, systemd and the security backend report of the host.
use home_server_deployer.Prelude.{String, Bool, List, Option}
use home_server_deployer.Prelude.Dict.{Dict}

pub record PodmanCapabilities : Type 0 where
  pub version : String
  pub libpod_api_version : String
  pub min_libpod_api_version : String
  pub architecture : String
  pub rootless : Bool
  pub cgroup_manager : String
  pub cgroup_version : String
  pub network_backend : String
  pub quadlet_list : Bool
  pub quadlet_print : Bool
  pub quadlet_install : Bool
  pub quadlet_remove : Bool
  pub native_application_install : Bool

pub record SystemdCapabilities : Type 0 where
  pub available : Bool
  pub version : String

pub record SecurityCapabilities : Type 0 where
  pub backend : String
  pub enabled : Bool
  pub enforcing : Bool

pub record ApprovedRootInfo : Type 0 where
  pub id : String
  pub host_path : String

pub record HostCapabilities : Type 0 where
  pub podman : PodmanCapabilities
  pub systemd : SystemdCapabilities
  pub security : SecurityCapabilities
  pub approved_roots : List ApprovedRootInfo

pub record Quadlet : Type 0 where
  pub name : String
  pub unit_name : String
  pub path : String
  pub status : String
  pub app : String

pub record RuntimeContainer : Type 0 where
  pub id : String
  pub name : String
  pub state : String
  pub status : String
  pub health : String
  pub systemd_unit : String
  pub labels : Dict String

pub record DiscoveredQuadlet : Type 0 where
  pub quadlet : Quadlet
  pub runtime : Option RuntimeContainer
  pub managed : Bool
  pub instance_id : String
