-- ===== src/Podman/Http.antt =====
-- internal/podman/podman.go: what the client asks of net/http, encoding/json, io and archive/tar,
-- and the answers of Podman's API.
use home_server_deployer.Prelude.{ℕ, String, Bool, List, Option}
use home_server_deployer.Prelude.Dict.{Dict}
use home_server_deployer.Model.{Quadlet}
use home_server_deployer.Error.{Error}
use home_server_deployer.Act.{Result, Act}

pub record Request : Type 0 where
  pub method : String
  pub url : String
  pub content_type : String
  pub body : String

-- `body` is the text that the connection has yet to give.
pub record Response : Type 0 where
  pub status_code : ℕ
  pub status : String
  pub body : String

-- The structs of the answers.
pub record Component : Type 0 where
  pub name : String
  pub version : String
  pub details : Dict String

pub record VersionResponse : Type 0 where
  pub api_version : String
  pub min_api_version : String
  pub version : String
  pub arch : String
  pub components : List Component

pub record HostInfo : Type 0 where
  pub arch : String
  pub cgroup_manager : String
  pub cgroup_version : String
  pub network_backend : String
  pub rootless : Bool

pub record ListedContainer : Type 0 where
  pub id : String
  pub names : List String
  pub state : String
  pub status : String
  pub labels : Dict String

pub record Inspect : Type 0 where
  pub name : String
  pub status : String
  pub health : String
  pub env : List String
  pub labels : Dict String

-- `read_limited n` is `io.ReadAll(io.LimitReader(body, n))` as a text, with the error of a read
-- that breaks off. `tar_file` is the archive of one file of a name, a mode and a content.
pub record Http (W : Type 0) : Type 0 where
  pub send : Request → Act W Response
  pub read_limited : ℕ → String → String × Option Error
  pub decode_version : String → Result VersionResponse
  pub decode_quadlets : String → Result (List Quadlet)
  pub decode_info : String → Result HostInfo
  pub decode_containers : String → Result (List ListedContainer)
  pub decode_inspect : String → Result Inspect
  pub tar_file : String → ℕ → String → Result String
