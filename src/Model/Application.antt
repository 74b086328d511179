-- ===== src/Model/Application.antt =====
-- internal/model/model.go: catalog applications, as `app.yaml` describes them.
use home_server_deployer.Prelude.{String, Bool, List, []}
use home_server_deployer.Prelude.Int.{ℤ, pos}

abbrev pub catalog_api_version : String
catalog_api_version = "deployer.home-server-project.io/v1alpha1"

pub record AppMetadata : Type 0 where
  pub id : String
  pub name : String
  pub version : String
  pub description : String

pub record InputSpec : Type 0 where
  pub name : String
  pub type : String
  pub required : Bool
  pub default : String
  pub description : String

pub record DirectorySpec : Type 0 where
  pub name : String
  pub root_id : String
  pub subpath_input : String
  pub container_path : String
  pub read_only : Bool
  pub security_intent : String

pub record ResourceSpec : Type 0 where
  pub name : String
  pub template : String
  pub start : Bool

pub record UpdatePolicy : Type 0 where
  pub mode : String
  pub channel : String

pub record HealthContract : Type 0 where
  pub strategy : String
  pub primary_resource : String
  pub timeout_seconds : ℤ

pub record BackupContract : Type 0 where
  pub strategy : String
  pub consistency : String
  pub includes : List String
  pub provider : String

pub record AppSpec : Type 0 where
  pub min_podman_version : String
  pub inputs : List InputSpec
  pub directories : List DirectorySpec
  pub resources : List ResourceSpec
  pub update : UpdatePolicy
  pub health : HealthContract
  pub backup : BackupContract

pub record Catalog : Type 0 where
  pub api_version : String
  pub kind : String
  pub metadata : AppMetadata
  pub spec : AppSpec

-- The zero value.
abbrev pub empty_catalog : Catalog
empty_catalog = record {
  api_version = "";
  kind = "";
  metadata = record { id = ""; name = ""; version = ""; description = "" };
  spec = record {
    min_podman_version = "";
    inputs = [];
    directories = [];
    resources = [];
    update = record { mode = ""; channel = "" };
    health = record { strategy = ""; primary_resource = ""; timeout_seconds = pos 0 };
    backup = record { strategy = ""; consistency = ""; includes = []; provider = "" };
  };
}
