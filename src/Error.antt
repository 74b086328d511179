-- ===== src/Error.antt =====
-- The errors of the parts, one constructor for each `fmt.Errorf` or `errors.New` of the sources.
-- `external` is an error that comes from outside the repository: its text is opaque.
pub mod Message
use home_server_deployer.Prelude.{
  ◌≡◌, refl, Bool, true, false, String, List, [], ◌∷◌, Option, none, some,
}

pub data Error : Type 0 where
  external : String → Error
  -- what `os.IsNotExist` recognises
  not_exist : String → Error
  -- internal/engine
  unsupported_operation already_exists not_managed belongs_to_catalog : String → Error
  unknown_application below_supported_minimum unapproved_root : String → Error
  below_application_minimum : String → String → Error
  invalid_instance_id quadlet_api_unavailable plan_expired digest_mismatch : Error
  drift_detected drift_appeared unit_not_found : String → Error
  verification_failed : String → String → Error
  instance_removed unsupported_action catalog_missing : Error
  -- "%v; rollback failed: %w", and two errors under `errors.Join`
  rollback_failed both : Error → Error → Error
  -- internal/paths
  invalid_root not_clean : Error
  unsafe_component : String → Error
  open_root_failed make_dir_failed resolve_failed : String → Error → Error
  -- internal/security/selinux
  readonly_required : Error
  unsupported_intent : String → Error
  -- internal/backup
  unsupported_strategy unsupported_consistency : String → Error
  provider_required provider_unexpected : Error
  -- internal/catalog
  unsupported_api_version invalid_app_id duplicate_catalog : String → Error
  wrong_kind name_and_version_required : Error
  invalid_input_name duplicate_input unsupported_input_type : String → Error
  invalid_directory unsupported_security_intent : String → Error
  resources_required min_podman_version_required backup_strategy_required : Error
  invalid_resource_name invalid_template duplicate_resource : String → Error
  unsupported_update_mode unsupported_health_strategy : String → Error
  undeclared_template : String → String → Error
  unknown_parameter control_characters required_parameter : String → Error
  bad_path bad_port bad_integer too_long : String → Error
  -- internal/config
  not_absolute : String → Error
  root_ids_not_unique : Error
  root_not_absolute : String → Error
  -- internal/state, internal/podman, internal/systemd
  invalid_stored_id : String → Error
  decode_failed : String → Error → Error
  invalid_quadlet_name : Error
  invalid_unit_name : String → Error
  -- the status line and the body of an answer of Podman, and of one of the agent
  podman_api agent_api : String → String → Error
  decode_version_failed : Error → Error
  no_libpod_version : Error
  unit_name_refused unknown_operation : Error
  systemd_failed : String → String → String → Error
  systemd_timed_out : String → String → Error
  -- internal/api, internal/docsgen, internal/config
  invalid_json : Error → Error
  one_object tail_range unsupported_document : Error
  decode_config_failed : Error → Error
  -- catalog.Load
  read_catalog_failed : Error → Error
  connect_failed : Error → Error
  validate_failed : String → Error → Error

-- os.IsNotExist
abbrev pub is_not_exist : Error → Bool
is_not_exist (not_exist _) = true
is_not_exist _ = false

-- errors.Join: no error where there is none to join.
unfoldable pub join_onto : Error → List Error → Error
join_onto e [] = e
join_onto e (f ∷ fs) = both e (join_onto f fs)

unfoldable pub join_errors : List Error → Option Error
unfolding join_onto
join_errors [] = none
join_errors (e ∷ es) = some (join_onto e es)

-- `if err != nil { return err }` for checks that give no value
abbrev pub and_then : Option Error → Option Error → Option Error
and_then none next = next
and_then (some c) next = some c

abbrev pub check : Bool → Error → Option Error
check true c = none
check false c = some c

pub and_then-eq-none : (a b : Option Error) → and_then a b ≡ none → (a ≡ none) × (b ≡ none)
and_then-eq-none none b h = (refl, h)
and_then-eq-none (some c) b h = cc
