-- ===== src/Security.antt =====
-- internal/security/selinux/selinux.go: `MountSuffix` and `Capabilities`.
use home_server_deployer.Prelude.{
  String, ◌<>◌, Bool, true, false, ◌||◌, List, [], ◌∷◌, ◌++◌, str_eq, if◌then◌else◌,
}
use home_server_deployer.Text.{trim_space}
use home_server_deployer.Model.{SecurityCapabilities}
use home_server_deployer.Error.{readonly_required, unsupported_intent}
use home_server_deployer.Act.{Result, ok, err}

-- strings.Join(opts, ",")
unfoldable pub join_options : List String → String
join_options [] = ""
join_options (o ∷ []) = o
join_options (o ∷ p ∷ os) = o <> ("," <> join_options (p ∷ os))

abbrev read_only_options : Bool → List String
read_only_options read_only = if read_only then "ro" ∷ [] else []

unfoldable pub mount_suffix : String → Bool → Result String
unfolding join_options
mount_suffix intent read_only =
    let opts = read_only_options read_only in
    if str_eq intent "private" || (str_eq intent "cache" || str_eq intent "database")
    then ok (join_options (opts ++ "Z" ∷ []))
    else if str_eq intent "shared"
    then ok (join_options (opts ++ "z" ∷ []))
    else if str_eq intent "readonly-media"
    then (if read_only then ok (join_options opts) else err readonly_required)
    else err (unsupported_intent intent)

-- `Capabilities`, from the contents of the file `enforce`
unfoldable pub selinux_capabilities : Result String → SecurityCapabilities
unfolding trim_space
selinux_capabilities (err _) = record { backend = "selinux"; enabled = false; enforcing = false }
selinux_capabilities (ok text) = record {
  backend = "selinux";
  enabled = true;
  enforcing = str_eq (trim_space text) "1";
}
