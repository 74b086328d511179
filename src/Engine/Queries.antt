-- ===== src/Engine/Queries.antt =====
-- internal/engine: `Capabilities` and `Discover` of engine.go, and `Status`, `Lifecycle`, `Logs`,
-- `Documentation` and `BackupContract` of transaction.go.
use home_server_deployer.Prelude.{
  ℕ, String, Option, none, some, List, [], ◌∷◌, str_eq, contains, if◌then◌else◌,
}
use home_server_deployer.Prelude.Dict.{Dict, lookup, insert, keys, values, is_some}
use home_server_deployer.Prelude.Sort.{sort_by, sort_strings}
use home_server_deployer.Model.{
  ApprovedRootInfo, HostCapabilities, Quadlet, RuntimeContainer, DiscoveredQuadlet, Instance,
  ResourceState, ResourceStatus, InstanceStatus, BackupContract,
}
use home_server_deployer.Error.{instance_removed, unsupported_action, catalog_missing}
use home_server_deployer.Act.{Result, ok, err, Act, pure, raise, gets, ◌>>=◌, ◌>>◌}
use home_server_deployer.Paths.{Root}
use home_server_deployer.Catalog.Store.{get_app}
use home_server_deployer.Engine.{Engine}
use home_server_deployer.Engine.Support.{sorted_resource_names, sorted_units, index_quadlets}
use home_server_deployer.Engine.PlanParts.{require, resource_or_zero}
use home_server_deployer.Engine.Transaction.{root_or_zero}

unfoldable pub root_infos : Dict Root → List String → List ApprovedRootInfo
unfolding root_or_zero
root_infos roots [] = []
root_infos roots (id ∷ ids) =
    record { id = id; host_path = (root_or_zero roots id).host_path } ∷ root_infos roots ids

-- `for n := range in.Resources { managed[n] = in.ID }`
unfoldable pub manage_names : List String → String → Dict String → Dict String
unfolding insert
manage_names [] id m = m
manage_names (n ∷ ns) id m = manage_names ns id (insert n id m)

-- `managed` of `Discover`: the Quadlets of the instances that are not removed.
unfoldable pub managed_by : List Instance → Dict String → Dict String
unfolding manage_names keys
managed_by [] m = m
managed_by (in' ∷ ins) m =
    managed_by ins
      (if is_some in'.removed_at then m else manage_names (keys in'.resources) in'.id m)

-- `byUnit` of `Discover` and `cm` of `Status`
unfoldable pub containers_by_unit :
    List RuntimeContainer → Dict RuntimeContainer → Dict RuntimeContainer
unfolding insert
containers_by_unit [] m = m
containers_by_unit (c ∷ cs) m =
    containers_by_unit cs (if str_eq c.systemd_unit "" then m else insert c.systemd_unit c m)

abbrev pub id_or_empty : Option String → String
id_or_empty none = ""
id_or_empty (some id) = id

unfoldable pub discovered : Dict String → Dict RuntimeContainer → Quadlet → DiscoveredQuadlet
unfolding lookup
discovered managed by_unit q = record {
  quadlet = q;
  runtime = lookup q.unit_name by_unit;
  managed = is_some (lookup q.name managed);
  instance_id = id_or_empty (lookup q.name managed);
}

unfoldable pub discovered_all :
    Dict String → Dict RuntimeContainer → List Quadlet → List DiscoveredQuadlet
unfolding discovered
discovered_all managed by_unit [] = []
discovered_all managed by_unit (q ∷ qs) =
    discovered managed by_unit q ∷ discovered_all managed by_unit qs

-- The unit of a resource: what the instance knows, or what Podman lists.
unfoldable pub unit_of_resource : ResourceState → Option Quadlet → String
unit_of_resource x none = x.unit_name
unit_of_resource x (some q) = if str_eq x.unit_name "" then q.unit_name else x.unit_name

abbrev pub quadlet_status_of : Option Quadlet → String
quadlet_status_of none = ""
quadlet_status_of (some q) = q.status

-- `units` of `Logs`
unfoldable pub unit_names : List ResourceState → List String
unit_names [] = []
unit_names (r ∷ rs) = r.unit_name ∷ unit_names rs

module _ {W : Type 0} (e : Engine W) where
  open e use {podman, systemd, catalog, state, docs, security, roots}

  unfoldable pub capabilities : Act W HostCapabilities
  unfolding root_infos keys sort_strings
  capabilities = do
    p ← podman.discover_capabilities
    s ← gets systemd.manager_capabilities
    pure (record {
      podman = p;
      systemd = s;
      security = security.security_capabilities;
      approved_roots = root_infos roots (sort_strings (keys roots));
    })

  unfoldable pub discover : Act W (List DiscoveredQuadlet)
  unfolding managed_by containers_by_unit discovered_all sort_by
  discover = do
    qs ← podman.list_quadlets
    cs ← podman.list_containers
    ins ← state.list_instances
    pure (
        sort_by (λ (d : DiscoveredQuadlet). d.quadlet.name)
          (discovered_all (managed_by ins []) (containers_by_unit cs []) qs))

  abbrev pub text_or_empty : Result String → String
  text_or_empty (ok s) = s
  text_or_empty (err _) = ""

  -- `SystemdStatus`, whose error is dropped. A resource with no unit is not asked for.
  unfoldable pub status_text : String → W → String × W
  status_text unit w =
      let (r, w') = systemd.unit_status unit w in
      if str_eq unit "" then ("", w) else (text_or_empty r, w')

  unfoldable pub runtime_of : Dict RuntimeContainer → String → Option RuntimeContainer
  unfolding lookup
  runtime_of cm unit = let c = lookup unit cm in if str_eq unit "" then none else c

  -- The loop of `Status` over the names of the resources.
  unfoldable pub resource_statuses :
      Dict ResourceState
      → Dict Quadlet
      → Dict RuntimeContainer
      → List String
      → W
      → List ResourceStatus × W
  unfolding resource_or_zero unit_of_resource status_text runtime_of lookup
  resource_statuses resources qm cm [] w = ([], w)
  resource_statuses resources qm cm (n ∷ ns) w =
      let q = lookup n qm in
      let unit = unit_of_resource (resource_or_zero resources n) q in
      let (text, w') = status_text unit w in
      let (rest, w'') = resource_statuses resources qm cm ns w' in
      (
        record {
          name = n;
          unit_name = unit;
          quadlet_status = quadlet_status_of q;
          systemd_status = text;
          runtime = runtime_of cm unit;
        }
            ∷ rest,
        w'',
      )

  abbrev pub status_of : Instance → Dict Quadlet → Dict RuntimeContainer → Act W InstanceStatus
  status_of in' qm cm w =
      let (rs, w') =
        resource_statuses in'.resources qm cm (sorted_resource_names in'.resources) w in
      (ok (record { managed = in'; resources = rs }), w')

  unfoldable pub instance_status : String → Act W InstanceStatus
  unfolding index_quadlets containers_by_unit resource_statuses sorted_resource_names
  instance_status id = do
    in' ← state.get_instance id
    qs ← podman.list_quadlets
    cs ← podman.list_containers
    status_of in' (index_quadlets qs []) (containers_by_unit cs [])

  -- The `switch` of `Lifecycle`.
  unfoldable pub lifecycle_step : String → String → Act W (Unit {0})
  lifecycle_step action unit =
      if str_eq action "start"
      then systemd.start_unit unit
      else if str_eq action "stop"
      then systemd.stop_unit unit
      else if str_eq action "restart"
      then systemd.restart_unit unit
      else raise unsupported_action

  unfoldable pub lifecycle_each : String → List String → Act W (Unit {0})
  unfolding lifecycle_step
  lifecycle_each action [] = pure tt
  lifecycle_each action (unit ∷ units) = do lifecycle_step action unit; lifecycle_each action units

  unfoldable pub lifecycle : String → String → Act W (Unit {0})
  unfolding lifecycle_each sorted_units
  lifecycle id action = do
    in' ← state.get_instance id
    if is_some in'.removed_at
        then raise instance_removed
        else lifecycle_each action (sorted_units in'.resources)

  -- The loop of `Logs` over the containers.
  unfoldable pub collect_logs :
      List String → ℕ → List RuntimeContainer → Dict String → Act W (Dict String)
  unfolding contains insert
  collect_logs units tail [] o = pure o
  collect_logs units tail (c ∷ cs) o =
      if contains units c.systemd_unit
      then (do s ← podman.container_logs c.id tail; collect_logs units tail cs (insert c.name s o))
      else collect_logs units tail cs o

  unfoldable pub logs : String → ℕ → Act W (Dict String)
  unfolding collect_logs unit_names values
  logs id tail = do
    in' ← state.get_instance id
    cs ← podman.list_containers
    collect_logs (unit_names (values in'.resources)) tail cs []

  unfoldable pub documentation : String → String → Act W String
  documentation id name = do _ ← state.get_instance id; docs.read_docs id name

  unfoldable pub backup_contract : String → Act W BackupContract
  unfolding get_app
  backup_contract id = do
    in' ← state.get_instance id
    app ← require (get_app catalog in'.catalog_id) catalog_missing
    pure app.spec.backup
