-- ===== src/Engine/Transaction.antt =====
-- internal/engine/transaction.go: `install`, `update`, `remove` and `upsert`. What follows a loop
-- or a call is a function of its own, so the functions read from the last one up.
use home_server_deployer.Prelude.{
  String, true, false, Option, none, some, List, [], ◌∷◌, ◌++◌, str_eq, if◌then◌else◌,
}
use home_server_deployer.Prelude.Dict.{Dict, lookup, insert, keys}
use home_server_deployer.Model.{
  Catalog, empty_catalog, Time, Quadlet, ResourceState, Instance, Plan, RenderedResource,
  ResolvedDirectory,
}
use home_server_deployer.Error.{Error, unit_not_found}
use home_server_deployer.Act.{Act, pure, raise, gets, attempt, each, ◌>>=◌, ◌>>◌}
use home_server_deployer.Paths.{Root, empty_root, ensure_dir}
use home_server_deployer.Catalog.Store.{get_app}
use home_server_deployer.Engine.{Engine}
use home_server_deployer.Engine.Support.{
  sorted_resource_names, sorted_units, unit_for, quadlet_map, verify_unit_active, capture_resources,
}
use home_server_deployer.Engine.Rollback.{
  fail_install, rollback_removed_old, rollback_updated_sources, fail_remove,
}

-- `app, _ := e.catalog.Get(id)`: the zero value for an unknown application
unfoldable pub app_or_zero : Option Catalog → Catalog
app_or_zero none = empty_catalog
app_or_zero (some app) = app

unfoldable pub root_or_zero : Dict Root → String → Root
unfolding lookup
root_or_zero roots id = elim (lookup id roots) [ none ↦ empty_root | some r ↦ r ]

-- The record that `install` saves.
unfoldable pub installed_instance : Plan → Dict ResourceState → Time → Instance
installed_instance p resources now = record {
  id = p.instance_id;
  catalog_id = p.app_id;
  catalog_version = p.catalog_version;
  parameters = p.parameters;
  resources = resources;
  directories = p.directories;
  installed_at = now;
  updated_at = now;
  removed_at = none;
  history = record { at = now; operation = "install"; result = "succeeded"; note = "" } ∷ [];
}

-- The record that `update` saves.
unfoldable pub updated_instance : Plan → Instance → Dict ResourceState → Time → Instance
updated_instance p previous resources now = record {
  id = p.instance_id;
  catalog_id = p.app_id;
  catalog_version = p.catalog_version;
  parameters = p.parameters;
  resources = resources;
  directories = p.directories;
  installed_at = previous.installed_at;
  updated_at = now;
  removed_at = none;
  history =
      previous.history
      ++ record { at = now; operation = "update"; result = "succeeded"; note = "" } ∷ [];
}

-- The record that `remove` saves.
unfoldable pub removed_instance : Instance → Time → Instance
removed_instance in' now = record in' {
  removed_at = some now;
  updated_at = now;
  history =
      in'.history
      ++ record {
        at = now;
        operation = "remove";
        result = "succeeded";
        note = "application data preserved";
      }
        ∷ [];
}

module _ {W : Type 0} (e : Engine W) where
  open e use {podman, systemd, catalog, state, docs, roots, platform}

  -- The loop of `install` and `update` that starts the resources marked `Start` and verifies them.
  -- `started` grows before the launch. `fail` and `next` are given what was started.
  unfoldable pub start_each :
      (String → Act W (Unit {0}))
      → (List String → Error → Act W (Unit {0}))
      → (List String → Act W (Unit {0}))
      → Dict Quadlet
      → List RenderedResource
      → List String
      → Act W (Unit {0})
  unfolding unit_for verify_unit_active
  start_each launch fail next qm [] started = next started
  start_each launch fail next qm (r ∷ rs) started = elim r.start [
    | false ↦ start_each launch fail next qm rs started
    | true ↦ elim (unit_for qm r.name) [
      | none ↦ fail started (unit_not_found r.name)
      | some unit ↦
          let started' = started ++ unit ∷ [] in
          attempt (launch unit) (fail started') λ _.
            attempt (verify_unit_active systemd unit) (fail started')
              λ _. start_each launch fail next qm rs started'
    ]
  ]

  -- The end of a transaction: the new record of the instance, and its documents.
  unfoldable pub save_and_document : Instance → Catalog → Act W (Unit {0})
  save_and_document in' app = do state.save_instance in'; docs.write_docs in' app

  module _ (p : Plan) (app : Catalog) where
    unfoldable pub record_install : List String → Act W (Unit {0})
    unfolding capture_resources save_and_document
    record_install installed =
        attempt (capture_resources platform podman p.resources) (fail_install e installed)
          λ resources. do
            now ← gets platform.now
            save_and_document (installed_instance p resources now) app

    unfoldable pub activate_install : List String → Act W (Unit {0})
    unfolding quadlet_map start_each record_install
    activate_install installed = attempt systemd.reload (fail_install e installed) λ _.
        attempt (quadlet_map podman) (fail_install e installed) λ qm.
          start_each systemd.start_unit (λ _. fail_install e installed)
            (λ _. record_install installed) qm p.resources []

    unfoldable pub install : Act W (Unit {0})
    unfolding activate_install
    install =
        each (λ (r : RenderedResource). r.name) (λ r. podman.install_quadlet r.name r.content)
          (fail_install e) activate_install p.resources []

    module _ (previous : Instance) (old : Dict String) where
      unfoldable pub record_update : List String → List String → Act W (Unit {0})
      unfolding capture_resources save_and_document
      record_update installed started =
          attempt (capture_resources platform podman p.resources)
            (rollback_updated_sources e previous old installed started)
            λ resources. do
              now ← gets platform.now
              save_and_document (updated_instance p previous resources now) app

      unfoldable pub activate_update : List String → Act W (Unit {0})
      unfolding quadlet_map start_each record_update
      activate_update installed =
          attempt systemd.reload (rollback_updated_sources e previous old installed []) λ _.
            attempt (quadlet_map podman) (rollback_updated_sources e previous old installed [])
              λ qm.
                start_each systemd.restart_unit (rollback_updated_sources e previous old installed)
                  (record_update installed) qm p.resources []

      unfoldable pub install_new : Act W (Unit {0})
      unfolding activate_update
      install_new =
          each (λ (r : RenderedResource). r.name) (λ r. podman.install_quadlet r.name r.content)
            (λ installed. rollback_updated_sources e previous old installed []) activate_update
            p.resources []

      unfoldable pub remove_old : Act W (Unit {0})
      unfolding install_new sorted_resource_names
      remove_old =
          each (λ name. name) (λ name. podman.remove_quadlet name false)
            (rollback_removed_old e previous old) (λ _. install_new)
            (sorted_resource_names previous.resources) []

      unfoldable pub update : Act W (Unit {0})
      unfolding remove_old sorted_units
      update =
          each (λ unit. unit) systemd.stop_unit (λ _. raise) (λ _. remove_old)
            (sorted_units previous.resources) []

  -- The sources of the named Quadlets, as they are now.
  unfoldable pub snapshot : List String → Dict String → Act W (Dict String)
  unfolding insert
  snapshot [] old = pure old
  snapshot (name ∷ names) old = do s ← podman.get_quadlet name; snapshot names (insert name s old)

  unfoldable pub ensure_dirs : List ResolvedDirectory → Act W (Unit {0})
  unfolding ensure_dir root_or_zero
  ensure_dirs [] = pure tt
  ensure_dirs (d ∷ ds) = do
    _ ← ensure_dir platform (root_or_zero roots d.root_id) d.relative_path 0o750
    ensure_dirs ds

  unfoldable pub upsert : Plan → Act W (Unit {0})
  unfolding ensure_dirs snapshot install update app_or_zero get_app
  upsert p = do
    let app = app_or_zero (get_app catalog p.app_id)
    ensure_dirs p.directories
    if str_eq p.operation "update"
        then (do
          previous ← state.get_instance p.instance_id
          old ← snapshot (sorted_resource_names previous.resources) []
          update p app previous old)
        else install p app

  unfoldable pub record_remove : Instance → Catalog → Act W (Unit {0})
  unfolding save_and_document
  record_remove in' app = do
    now ← gets platform.now
    save_and_document (removed_instance in' now) app

  unfoldable pub remove_sources : Instance → Catalog → Dict String → Act W (Unit {0})
  unfolding record_remove sorted_resource_names
  remove_sources in' app old =
      each (λ name. name) (λ name. podman.remove_quadlet name false) (fail_remove e in' old)
        (λ removed.
          attempt systemd.reload (fail_remove e in' old removed) λ _. record_remove in' app)
        (sorted_resource_names in'.resources) []

  unfoldable pub remove : Plan → Act W (Unit {0})
  unfolding snapshot remove_sources keys app_or_zero get_app sorted_units
  remove p = do
    in' ← state.get_instance p.instance_id
    let app = app_or_zero (get_app catalog in'.catalog_id)
    old ← snapshot (keys in'.resources) []
    each (λ unit. unit) systemd.stop_unit (λ _. raise) (λ _. remove_sources in' app old)
        (sorted_units in'.resources) []
