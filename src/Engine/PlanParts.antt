-- ===== src/Engine/PlanParts.antt =====
-- internal/engine/engine.go: the parts of `CreatePlan` and `render` that need no service.
use home_server_deployer.Prelude.{
  ℕ, ◌+◌, ◌*◌, String, ◌<>◌, Bool, true, false, not, ◌&&◌, Option, none, some, List, [], ◌∷◌,
  str_eq, if◌then◌else◌,
}
use home_server_deployer.Prelude.Dict.{Dict, lookup, insert, is_some}
use home_server_deployer.Model.{
  Catalog, ResourceState, Instance, PlanRequest, Plan, RenderedResource, ResolvedDirectory,
  DriftRecord, Time,
}
use home_server_deployer.Error.{Error, belongs_to_catalog}
use home_server_deployer.Act.{ok, err, Act}

-- 15 * time.Minute
abbrev pub plan_lifetime : ℕ
plan_lifetime = 15 * 60 * 1000000000

-- `exists && old.RemovedAt == nil`
unfoldable pub is_active : Option Instance → Bool
is_active none = false
is_active (some in') = not (is_some in'.removed_at)

-- The application that the request names, or the one of the instance.
unfoldable pub chosen_app : String → Option Instance → String
chosen_app app_id none = app_id
chosen_app app_id (some in') = if str_eq app_id "" then in'.catalog_id else app_id

-- `exists` and the application is another one than the instance's
unfoldable pub foreign_app : String → Option Instance → Option String
foreign_app app_id none = none
foreign_app app_id (some in') = if str_eq app_id in'.catalog_id then none else some in'.catalog_id

abbrev pub is_empty : Dict String → Bool
is_empty [] = true
is_empty (_ ∷ _) = false

abbrev pub parameters_of : Option Instance → Dict String
parameters_of none = []
parameters_of (some in') = in'.parameters

abbrev pub directories_of : Option Instance → List ResolvedDirectory
directories_of none = []
directories_of (some in') = in'.directories

abbrev pub resources_of : Option Instance → Dict ResourceState
resources_of none = []
resources_of (some in') = in'.resources

-- The values that the plan starts from: those of the request, or for a later operation without
-- any, those of the instance.
unfoldable pub chosen_parameters : PlanRequest → Option Instance → Dict String
chosen_parameters r old =
    if not (str_eq r.operation "install") && is_empty r.parameters
    then parameters_of old
    else r.parameters

-- `old.Resources[n]`, which is the zero value for a missing key
unfoldable pub resource_or_zero : Dict ResourceState → String → ResourceState
unfolding lookup
resource_or_zero m n = elim (lookup n m) [
  | none ↦ record { name = ""; unit_name = ""; sha256 = ""; source = "" }
  | some x ↦ x
]

-- The resources in the plan of a removal.
unfoldable pub removal_resources : Dict ResourceState → List String → List RenderedResource
unfolding resource_or_zero
removal_resources m [] = []
removal_resources m (n ∷ ns) =
    let x = resource_or_zero m n in
    record {
      name = n;
      unit_name = x.unit_name;
      content = x.source;
      start = false;
      sha256 = x.sha256;
      previous_sha256 = x.sha256;
    }
    ∷ removal_resources m ns

-- What the instance knew of a resource, for the plan of an update.
unfoldable pub with_previous : Dict ResourceState → RenderedResource → RenderedResource
unfolding lookup
with_previous m r = elim (lookup r.name m) [
  | none ↦ r
  | some x ↦ record r { previous_sha256 = x.sha256; unit_name = x.unit_name }
]

unfoldable pub with_all_previous :
    Dict ResourceState → List RenderedResource → List RenderedResource
unfolding with_previous
with_all_previous m [] = []
with_all_previous m (r ∷ rs) = with_previous m r ∷ with_all_previous m rs

-- `dm` of `render`
unfoldable pub directory_map :
    List ResolvedDirectory → Dict ResolvedDirectory → Dict ResolvedDirectory
unfolding insert
directory_map [] m = m
directory_map (d ∷ ds) m = directory_map ds (insert d.name d m)

-- The text in front of a rendered source.
unfoldable pub managed_header : String → String → String → String
managed_header instance_id app_id version =
    "# Managed-by: Home Server Deployer\n# Deployer-Instance: "
    <> (instance_id <> ("\n# Deployer-Catalog: " <> (app_id <> ("@" <> (version <> "\n")))))

unfoldable pub make_plan :
    PlanRequest
    → String
    → Catalog
    → Dict String
    → Time
    → String
    → List ResolvedDirectory
    → List RenderedResource
    → List DriftRecord
    → Plan
make_plan r app_id app params now id directories resources drift = record {
  id = id;
  digest = "";
  operation = r.operation;
  app_id = app_id;
  catalog_version = app.metadata.version;
  instance_id = r.instance_id;
  parameters = params;
  directories = directories;
  resources = resources;
  drift = drift;
  created_at = now;
  expires_at = now + plan_lifetime;
}

module _ {W : Type 0} where
  -- `if test { return model.Plan{}, err }`
  abbrev pub refuse_if : Bool → Error → Act W (Unit {0})
  refuse_if true c w = (err c, w)
  refuse_if false c w = (ok tt, w)

  -- `v, ok := m[k]; if !ok { return err }`
  abbrev pub require : {A : Type 0} → Option A → Error → Act W A
  require none c w = (err c, w)
  require (some a) c w = (ok a, w)

  abbrev pub refuse_foreign : Option String → Act W (Unit {0})
  refuse_foreign none w = (ok tt, w)
  refuse_foreign (some id) w = (err (belongs_to_catalog id), w)
