-- ===== src/Catalog/Validation.antt =====
-- internal/catalog/catalog.go: `Validate` and `NewStore`. No error is `none`.
use home_server_deployer.Prelude.{
  String, Bool, true, false, not, ◌||◌, Option, none, List, [], ◌∷◌, str_eq, contains,
}
use home_server_deployer.Prelude.Dict.{Dict, lookup, insert, is_some}
use home_server_deployer.Model.{
  Catalog, InputSpec, DirectorySpec, ResourceSpec, catalog_api_version,
}
use home_server_deployer.Error.{
  Error, and_then, check, unsupported_api_version, wrong_kind, invalid_app_id,
  name_and_version_required, invalid_input_name, duplicate_input, unsupported_input_type,
  invalid_directory, unsupported_security_intent, resources_required, invalid_resource_name,
  invalid_template, duplicate_resource, min_podman_version_required, unsupported_update_mode,
  unsupported_health_strategy, backup_strategy_required, duplicate_catalog,
}
use home_server_deployer.Act.{Result, ok, err, unless}
use home_server_deployer.Names.{catalog_safe_id, valid_quadlet_name}
use home_server_deployer.Paths.Filepath.{base}
use home_server_deployer.Backup.{validate_contract}
use home_server_deployer.Catalog.Store.{CatalogStore}

-- The loop over the inputs, with the names seen so far.
unfoldable pub check_inputs : List InputSpec → List String → Option Error
unfolding catalog_safe_id contains
check_inputs [] seen = none
check_inputs (i ∷ is) seen =
    let later = check_inputs is (i.name ∷ seen) in
    and_then (check (catalog_safe_id i.name) (invalid_input_name i.name)) (
      and_then (check (not (contains seen i.name)) (duplicate_input i.name)) (
        and_then
          (check (contains ("string" ∷ "path" ∷ "port" ∷ "integer" ∷ []) i.type)
            (unsupported_input_type i.type))
          later))

unfoldable pub input_names : List InputSpec → List String
input_names [] = []
input_names (i ∷ is) = i.name ∷ input_names is

abbrev pub security_intents : List String
security_intents = "private" ∷ "shared" ∷ "readonly-media" ∷ "cache" ∷ "database" ∷ []

-- The loop over the directories.
unfoldable pub check_directories : List String → List DirectorySpec → Option Error
unfolding contains
check_directories inputs [] = none
check_directories inputs (d ∷ ds) =
    let later = check_directories inputs ds in
    and_then
      (check
        (not (
          str_eq d.name ""
          || (str_eq d.root_id ""
              || (not (contains inputs d.subpath_input) || str_eq d.container_path ""))))
        (invalid_directory d.name))
      (and_then
        (check (contains security_intents d.security_intent)
          (unsupported_security_intent d.security_intent))
        later)

-- The loop over the resources, with the names seen so far.
unfoldable pub check_resources : List ResourceSpec → List String → Option Error
unfolding valid_quadlet_name base contains
check_resources [] seen = none
check_resources (r ∷ rs) seen =
    let later = check_resources rs (r.name ∷ seen) in
    and_then (check (valid_quadlet_name r.name) (invalid_resource_name r.name)) (
      and_then
        (check (not (str_eq r.template "" || not (str_eq (base r.template) r.template)))
          (invalid_template r.template))
        (and_then (check (not (contains seen r.name)) (duplicate_resource r.name)) later))

abbrev pub has_resources : List ResourceSpec → Bool
has_resources [] = false
has_resources (_ ∷ _) = true

abbrev pub update_modes : List String
update_modes =
    "manual-only" ∷ "track-latest" ∷ "track-lts" ∷ "track-stable" ∷ "pinned-version"
    ∷ "pinned-digest" ∷ "catalog-recommended" ∷ []

-- What follows the loops.
unfoldable pub check_policies : Catalog → Option Error
unfolding validate_contract contains
check_policies app =
    and_then (check (not (str_eq app.spec.min_podman_version "")) min_podman_version_required) (
      and_then
        (check (contains update_modes app.spec.update.mode)
          (unsupported_update_mode app.spec.update.mode))
        (and_then
          (check
            (contains ("runtime" ∷ "podman-health" ∷ "application-provider" ∷ [])
              app.spec.health.strategy)
            (unsupported_health_strategy app.spec.health.strategy))
          (and_then (check (not (str_eq app.spec.backup.strategy "")) backup_strategy_required)
            (validate_contract app.spec.backup))))

unfoldable pub check_metadata : Catalog → Option Error
unfolding catalog_safe_id
check_metadata app =
    and_then
      (check (str_eq app.api_version catalog_api_version) (unsupported_api_version app.api_version))
      (and_then (check (str_eq app.kind "Application") wrong_kind) (
        and_then (check (catalog_safe_id app.metadata.id) (invalid_app_id app.metadata.id)) (
          check (not (str_eq app.metadata.name "" || str_eq app.metadata.version ""))
            name_and_version_required)))

unfoldable pub validate : Catalog → Option Error
unfolding check_metadata check_inputs check_directories input_names check_resources check_policies
validate app = and_then (check_metadata app) (
    and_then (check_inputs app.spec.inputs []) (
      and_then (check_directories (input_names app.spec.inputs) app.spec.directories) (
        and_then (check (has_resources app.spec.resources) resources_required)
          (and_then (check_resources app.spec.resources []) (check_policies app)))))

-- The loop of `NewStore`.
unfoldable pub add_apps : List Catalog → Dict Catalog → Result (Dict Catalog)
unfolding validate lookup insert
add_apps [] apps = ok apps
add_apps (app ∷ rest) apps =
    let later = add_apps rest (insert app.metadata.id app apps) in
    unless
      (and_then (validate app)
        (check (not (is_some (lookup app.metadata.id apps))) (duplicate_catalog app.metadata.id)))
      later

abbrev pub stored_at : String → Result (Dict Catalog) → Result CatalogStore
stored_at root (ok apps) = ok (record { root = root; apps = apps })
stored_at root (err c) = err c

unfoldable pub new_store : String → List Catalog → Result CatalogStore
unfolding add_apps
new_store root apps = stored_at root (add_apps apps [])
