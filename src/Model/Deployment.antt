-- ===== src/Model/Deployment.antt =====
-- internal/model/model.go: instances, plans and results. A time is a number of nanoseconds.
use home_server_deployer.Prelude.{ℕ, String, Bool, List, [], Option}
use home_server_deployer.Prelude.Dict.{Dict}
use home_server_deployer.Model.Host.{RuntimeContainer}

abbrev pub Time : Type 0
Time = ℕ

pub record ResourceState : Type 0 where
  pub name : String
  pub unit_name : String
  pub sha256 : String
  pub source : String

pub record ResolvedDirectory : Type 0 where
  pub name : String
  pub root_id : String
  pub relative_path : String
  pub host_path : String
  pub agent_path : String
  pub container_path : String
  pub read_only : Bool
  pub security_intent : String
  pub mount_suffix : String

pub record HistoryEntry : Type 0 where
  pub at : Time
  pub operation : String
  pub result : String
  pub note : String

pub record Instance : Type 0 where
  pub id : String
  pub catalog_id : String
  pub catalog_version : String
  pub parameters : Dict String
  pub resources : Dict ResourceState
  pub directories : List ResolvedDirectory
  pub installed_at : Time
  pub updated_at : Time
  pub removed_at : Option Time
  pub history : List HistoryEntry

pub record ResourceStatus : Type 0 where
  pub name : String
  pub unit_name : String
  pub quadlet_status : String
  pub systemd_status : String
  pub runtime : Option RuntimeContainer

pub record InstanceStatus : Type 0 where
  pub managed : Instance
  pub resources : List ResourceStatus

pub record PlanRequest : Type 0 where
  pub operation : String
  pub app_id : String
  pub instance_id : String
  pub parameters : Dict String

pub record RenderedResource : Type 0 where
  pub name : String
  pub unit_name : String
  pub content : String
  pub start : Bool
  pub sha256 : String
  pub previous_sha256 : String

pub record DriftRecord : Type 0 where
  pub resource : String
  pub expected_hash : String
  pub actual_hash : String

pub record Plan : Type 0 where
  pub id : String
  pub digest : String
  pub operation : String
  pub app_id : String
  pub catalog_version : String
  pub instance_id : String
  pub parameters : Dict String
  pub directories : List ResolvedDirectory
  pub resources : List RenderedResource
  pub drift : List DriftRecord
  pub created_at : Time
  pub expires_at : Time

pub record OperationResult : Type 0 where
  pub plan_id : String
  pub instance_id : String
  pub operation : String
  pub status : String
  pub message : String
  pub at : Time

-- The zero value.
abbrev pub empty_plan : Plan
empty_plan = record {
  id = "";
  digest = "";
  operation = "";
  app_id = "";
  catalog_version = "";
  instance_id = "";
  parameters = [];
  directories = [];
  resources = [];
  drift = [];
  created_at = 0;
  expires_at = 0;
}
