-- ===== src/Backup.antt =====
-- internal/backup/backup.go: `ValidateContract`. No error is `none`.
use home_server_deployer.Prelude.{
  not, ◌&&◌, Option, none, some, [], ◌∷◌, str_eq, contains, if◌then◌else◌,
}
use home_server_deployer.Model.{BackupContract}
use home_server_deployer.Error.{
  Error, unsupported_strategy, unsupported_consistency, provider_required, provider_unexpected,
}

unfoldable pub validate_contract : BackupContract → Option Error
unfolding contains
validate_contract c =
    if not (contains ("none" ∷ "filesystem" ∷ "provider" ∷ []) c.strategy)
    then some (unsupported_strategy c.strategy)
    else if not
        (contains ("none" ∷ "online" ∷ "stop-required" ∷ "provider-managed" ∷ []) c.consistency)
    then some (unsupported_consistency c.consistency)
    else if str_eq c.strategy "provider" && str_eq c.provider ""
    then some provider_required
    else if not (str_eq c.strategy "provider") && not (str_eq c.provider "")
    then some provider_unexpected
    else none
