-- ===== src/Engine/QuietLaws.antt =====
-- What the queries of the engine leave alone: the Quadlet sources.
use home_server_deployer.Prelude.{ℕ, String, ◌≡◌, refl, ◌∙◌, List, [], ◌∷◌, contains, str_eq}
use home_server_deployer.Prelude.Dict.{Dict, lookup, is_some, values}
use home_server_deployer.Model.{RuntimeContainer, Quadlet, ResourceState}
use home_server_deployer.Error.{catalog_missing}
use home_server_deployer.Act.{Act, gets, ◌>>=◌}
use home_server_deployer.Act.Rules.{Quiet, Quiet-bind, Quiet-if, if_rule}
use home_server_deployer.Catalog.Store.{get_app}
use home_server_deployer.Engine.{Engine}
use home_server_deployer.Engine.Support.{sorted_resource_names, sorted_units, index_quadlets}
use home_server_deployer.Engine.PlanParts.{require, resource_or_zero}
use home_server_deployer.Engine.Queries.{
  capabilities, discover, status_text, resource_statuses, instance_status, lifecycle_step,
  lifecycle_each, lifecycle, collect_logs, logs, documentation, backup_contract, unit_of_resource,
  containers_by_unit, unit_names,
}
use home_server_deployer.Engine.Sources.{Sources, IsLawful}
use home_server_deployer.Engine.ReadLaws.{ReadsOnly, Quiet-require}

module _ {W : Type 0} (e : Engine W) (source : W → Sources) (lawful : IsLawful e source)
    (reads : ReadsOnly e source) where
  open e use {podman, systemd, platform, state, catalog, docs}

  abbrev then_quiet :
      {A B : Type 0} (m : Act W A) (f : A → Act W B)
      → Quiet source m
      → ((a : A) → Quiet source (f a))
      → Quiet source (m >>= f)
  then_quiet = Quiet-bind source

  pub Quiet-capabilities : Quiet source (capabilities e)
  unfolding capabilities
  Quiet-capabilities =
      then_quiet podman.discover_capabilities _ reads.quiet_capabilities
        λ _. then_quiet (gets systemd.manager_capabilities) _ (λ _. refl) λ _ _. refl

  pub Quiet-discover : Quiet source (discover e)
  unfolding discover
  Quiet-discover = then_quiet podman.list_quadlets _ lawful.leaves.writes.quiet_list λ _.
      then_quiet podman.list_containers _ reads.quiet_containers
        λ _. then_quiet state.list_instances _ reads.quiet_list_instances λ _ _. refl

  Quiet-status_text : (unit : String) (w : W) → source (status_text e unit w).1 ≡ source w
  unfolding status_text
  Quiet-status_text unit w =
      if_rule (λ (r : String × W). source r.1 ≡ source w) (str_eq unit "") _ _ refl
        (lawful.leaves.quiet_status unit w)

  Quiet-resource_statuses :
      (resources : Dict ResourceState) (qm : Dict Quadlet) (cm : Dict RuntimeContainer)
      (ns : List String) (w : W)
      → source (resource_statuses e resources qm cm ns w).1 ≡ source w
  unfolding resource_statuses
  Quiet-resource_statuses resources qm cm [] w = refl
  Quiet-resource_statuses resources qm cm (n ∷ ns) w =
      Quiet-resource_statuses resources qm cm ns _
      ∙ Quiet-status_text (unit_of_resource (resource_or_zero resources n) (lookup n qm)) w

  pub Quiet-instance_status : (id : String) → Quiet source (instance_status e id)
  unfolding instance_status
  Quiet-instance_status id =
      then_quiet (state.get_instance id) _ (lawful.leaves.quiet_get_instance id) λ in'.
        then_quiet podman.list_quadlets _ lawful.leaves.writes.quiet_list λ qs.
          then_quiet podman.list_containers _ reads.quiet_containers λ cs w.
            Quiet-resource_statuses in'.resources (index_quadlets qs []) (containers_by_unit cs [])
              (sorted_resource_names in'.resources) w

  Quiet-lifecycle_step : (action unit : String) → Quiet source (lifecycle_step e action unit)
  unfolding lifecycle_step
  Quiet-lifecycle_step action unit =
      Quiet-if source (str_eq action "start") _ _ (lawful.leaves.quiet_start unit) (
        Quiet-if source (str_eq action "stop") _ _ (lawful.leaves.quiet_stop unit) (
          Quiet-if source (str_eq action "restart") _ _ (lawful.leaves.quiet_restart unit)
            (λ _. refl)))

  Quiet-lifecycle_each :
      (action : String) (units : List String) → Quiet source (lifecycle_each e action units)
  unfolding lifecycle_each
  Quiet-lifecycle_each action [] = λ _. refl
  Quiet-lifecycle_each action (unit ∷ units) =
      then_quiet (lifecycle_step e action unit) _ (Quiet-lifecycle_step action unit)
        λ _. Quiet-lifecycle_each action units

  pub Quiet-lifecycle : (id action : String) → Quiet source (lifecycle e id action)
  unfolding lifecycle
  Quiet-lifecycle id action =
      then_quiet (state.get_instance id) _ (lawful.leaves.quiet_get_instance id) λ in'.
        Quiet-if source (is_some in'.removed_at) _ _ (λ _. refl)
          (Quiet-lifecycle_each action (sorted_units in'.resources))

  Quiet-collect_logs :
      (units : List String) (tail : ℕ) (cs : List RuntimeContainer) (o : Dict String)
      → Quiet source (collect_logs e units tail cs o)
  unfolding collect_logs
  Quiet-collect_logs units tail [] o = λ _. refl
  Quiet-collect_logs units tail (c ∷ cs) o =
      Quiet-if source (contains units c.systemd_unit) _ _
        (then_quiet (podman.container_logs c.id tail) _ (reads.quiet_container_logs c.id tail)
          λ s. Quiet-collect_logs units tail cs _)
        (Quiet-collect_logs units tail cs o)

  pub Quiet-logs : (id : String) (tail : ℕ) → Quiet source (logs e id tail)
  unfolding logs
  Quiet-logs id tail =
      then_quiet (state.get_instance id) _ (lawful.leaves.quiet_get_instance id) λ in'.
        then_quiet podman.list_containers _ reads.quiet_containers
          λ cs. Quiet-collect_logs (unit_names (values in'.resources)) tail cs []

  pub Quiet-documentation : (id name : String) → Quiet source (documentation e id name)
  unfolding documentation
  Quiet-documentation id name =
      then_quiet (state.get_instance id) _ (lawful.leaves.quiet_get_instance id)
        λ _. reads.quiet_read_docs id name

  pub Quiet-backup_contract : (id : String) → Quiet source (backup_contract e id)
  unfolding backup_contract
  Quiet-backup_contract id =
      then_quiet (state.get_instance id) _ (lawful.leaves.quiet_get_instance id) λ in'.
        then_quiet (require (get_app catalog in'.catalog_id) catalog_missing) _
          (Quiet-require e source lawful reads (get_app catalog in'.catalog_id) catalog_missing)
          λ _ _. refl
