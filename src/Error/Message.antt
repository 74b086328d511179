-- ===== src/Error/Message.antt =====
-- The text of an error, `err.Error()`, from the format strings of the sources.
-- `quote` is `strconv.Quote`, which `%q` calls.
use home_server_deployer.Prelude.{String, ◌<>◌}
use home_server_deployer.Error.{Error}

module _ (quote : String → String) where
  unfoldable pub error_text : Error → String
  error_text (Error.external s) = s
  error_text (Error.not_exist s) = s <> ": no such file or directory"
  error_text (Error.unsupported_operation op) = "unsupported operation " <> quote op
  error_text (Error.already_exists id) = "instance " <> (quote id <> " already exists")
  error_text (Error.not_managed id) = "instance " <> (quote id <> " is not managed")
  error_text (Error.belongs_to_catalog id) = "instance belongs to catalog " <> quote id
  error_text (Error.unknown_application id) = "unknown catalog application " <> quote id
  error_text (Error.below_supported_minimum v) =
      "Podman " <> (v <> " is below Home Server Deployer supported minimum 5.8.2")
  error_text (Error.unapproved_root id) = "catalog requests unapproved root " <> quote id
  error_text (Error.below_application_minimum v m) =
      "Podman " <> (v <> (" is below application minimum " <> m))
  error_text Error.invalid_instance_id = "invalid instanceId"
  error_text Error.quadlet_api_unavailable = "required Quadlet API capabilities are unavailable"
  error_text Error.plan_expired = "plan expired"
  error_text Error.digest_mismatch = "plan digest mismatch"
  error_text (Error.drift_detected op) = "administrator drift detected; refusing " <> op
  error_text (Error.drift_appeared op) =
      "administrator drift appeared after planning; refusing " <> op
  error_text (Error.unit_not_found n) = "generated unit for " <> (n <> " not found")
  error_text (Error.verification_failed u s) =
      "systemd unit " <> (u <> (" failed verification: " <> s))
  error_text Error.instance_removed = "instance is removed"
  error_text Error.unsupported_action = "unsupported lifecycle action"
  error_text Error.catalog_missing = "catalog missing"
  error_text (Error.rollback_failed c e) = error_text c <> ("; rollback failed: " <> error_text e)
  error_text (Error.both a b) = error_text a <> ("\n" <> error_text b)
  error_text Error.invalid_root = "invalid approved root"
  error_text Error.not_clean = "path must be a clean relative path"
  error_text (Error.unsafe_component p) = "unsafe path component " <> quote p
  error_text (Error.open_root_failed id e) =
      "open approved root " <> (quote id <> (": " <> error_text e))
  error_text (Error.make_dir_failed p e) = "mkdir " <> (quote p <> (": " <> error_text e))
  error_text (Error.resolve_failed p e) = "resolve " <> (quote p <> (": " <> error_text e))
  error_text Error.readonly_required = "readonly-media intent requires readOnly=true"
  error_text (Error.unsupported_intent i) = "unsupported SELinux intent " <> quote i
  error_text (Error.unsupported_strategy s) = "unsupported backup strategy " <> quote s
  error_text (Error.unsupported_consistency s) = "unsupported backup consistency " <> quote s
  error_text Error.provider_required = "provider backup strategy requires a named provider"
  error_text Error.provider_unexpected = "backup provider is only valid with provider strategy"
  error_text (Error.unsupported_api_version v) = "unsupported apiVersion " <> quote v
  error_text (Error.invalid_app_id id) = "invalid metadata.id " <> quote id
  error_text (Error.duplicate_catalog id) = "duplicate catalog ID " <> quote id
  error_text Error.wrong_kind = "kind must be Application"
  error_text Error.name_and_version_required = "metadata.name and metadata.version are required"
  error_text (Error.invalid_input_name n) = "invalid input name " <> quote n
  error_text (Error.duplicate_input n) = "duplicate input " <> quote n
  error_text (Error.unsupported_input_type t) = "unsupported input type " <> quote t
  error_text (Error.invalid_directory n) = "invalid directory " <> quote n
  error_text (Error.unsupported_security_intent i) = "unsupported securityIntent " <> quote i
  error_text Error.resources_required = "at least one resource is required"
  error_text Error.min_podman_version_required = "spec.minPodmanVersion is required"
  error_text Error.backup_strategy_required = "backup.strategy is required"
  error_text (Error.invalid_resource_name n) = "invalid Quadlet resource name " <> quote n
  error_text (Error.invalid_template t) = "invalid resource template " <> quote t
  error_text (Error.duplicate_resource n) = "duplicate resource " <> quote n
  error_text (Error.unsupported_update_mode m) = "unsupported update mode " <> quote m
  error_text (Error.unsupported_health_strategy s) = "unsupported health strategy " <> quote s
  error_text (Error.undeclared_template t id) =
      "template " <> (quote t <> (" is not declared by " <> id))
  error_text (Error.unknown_parameter k) = "unknown parameter " <> quote k
  error_text (Error.control_characters k) =
      "parameter " <> (quote k <> " contains forbidden control characters")
  error_text (Error.required_parameter k) = "parameter " <> (quote k <> " is required")
  error_text (Error.bad_path k) = "parameter " <> (quote k <> " must be a clean relative path")
  error_text (Error.bad_port k) = "parameter " <> (quote k <> " must be a TCP/UDP port")
  error_text (Error.bad_integer k) = "parameter " <> (quote k <> " must be an integer")
  error_text (Error.too_long k) = "parameter " <> (quote k <> " is too long")
  error_text (Error.not_absolute n) = n <> " must be an absolute path"
  error_text Error.root_ids_not_unique = "approved root IDs must be unique and non-empty"
  error_text (Error.root_not_absolute id) =
      "approved root " <> (quote id <> " paths must be absolute")
  error_text (Error.invalid_stored_id kind) = "invalid " <> (kind <> " id")
  error_text (Error.decode_failed p e) = "decode " <> (p <> (": " <> error_text e))
  error_text Error.invalid_quadlet_name = "invalid quadlet name"
  error_text (Error.invalid_unit_name u) = "invalid unit name " <> quote u
  error_text (Error.podman_api status body) = "podman API " <> (status <> (": " <> body))
  error_text (Error.agent_api status body) = "agent " <> (status <> (": " <> body))
  error_text (Error.decode_version_failed e) = "decode podman version: " <> error_text e
  error_text Error.no_libpod_version = "Podman /version did not report libpod APIVersion"
  error_text Error.unit_name_refused = "invalid unit name"
  error_text Error.unknown_operation = "unknown operation"
  error_text (Error.systemd_failed op u r) = "systemd " <> (op <> (" " <> (u <> (": " <> r))))
  error_text (Error.systemd_timed_out op u) = "systemd " <> (op <> (" " <> (u <> " timed out")))
  error_text (Error.invalid_json e) = "invalid JSON: " <> error_text e
  error_text Error.one_object = "request must contain one JSON object"
  error_text Error.tail_range = "tail must be 1..5000"
  error_text Error.unsupported_document = "unsupported document"
  error_text (Error.decode_config_failed e) = "decode config: " <> error_text e
  error_text (Error.connect_failed e) = "connect directly to systemd: " <> error_text e
  error_text (Error.read_catalog_failed e) = "read catalog root: " <> error_text e
  error_text (Error.validate_failed p e) = "validate " <> (p <> (": " <> error_text e))
