-- ===== src/Engine/Rollback.antt =====
-- internal/engine/transaction.go: the rollbacks. They go on after errors and join what they met.
use home_server_deployer.Prelude.{
  String, true, false, Option, none, some, List, [], ◌∷◌, ◌++◌, reverse,
}
use home_server_deployer.Prelude.Dict.{Dict, lookup}
use home_server_deployer.Model.{Instance}
use home_server_deployer.Error.{Error, rollback_failed, join_errors}
use home_server_deployer.Act.{Result, err, Act, noted, collect, ◌>>=◌}
use home_server_deployer.Engine.{Engine}
use home_server_deployer.Engine.Support.{sorted_units, sorted_string_map_keys, verify_unit_active}

-- `old[name]`, which is empty for a missing key
unfoldable pub content_of : Dict String → String → String
unfolding lookup
content_of old name = elim (lookup name old) [ none ↦ "" | some s ↦ s ]

abbrev pub listed : Option Error → List Error
listed none = []
listed (some e) = e ∷ []

-- The cause, and behind it what went wrong in the rollback.
unfoldable pub conclude : Error → List Error → Result (Unit {0})
unfolding join_errors
conclude cause errs = elim (join_errors errs) [
  | none ↦ err cause
  | some e ↦ err (rollback_failed cause e)
]

module _ {W : Type 0} (e : Engine W) where
  open e use {podman, systemd}

  -- The end of each rollback but that of an install: a reload, and the previous units.
  abbrev pub reload_then : (W → List Error × W) → W → List Error × W
  reload_then units w =
      let (r, w') = systemd.reload w in let (es, w'') = units w' in (noted r es, w'')

  unfoldable pub rollback_install : List String → W → Option Error × W
  rollback_install names w =
      let (es, w') = collect (λ name. podman.remove_quadlet name true) (reverse names) w in
      let (es', w'') = reload_then (λ v. ([], v)) w' in (join_errors (es ++ es'), w'')

  -- `fail` of `install`
  unfoldable pub fail_install : List String → Error → Act W (Unit {0})
  unfolding rollback_install conclude
  fail_install installed cause w =
      let (x, w') = rollback_install installed w in (conclude cause (listed x), w')

  unfoldable pub restart_previous : Instance → W → Option Error × W
  unfolding sorted_units verify_unit_active
  restart_previous previous w =
      let (es, w') =
        collect (λ unit. systemd.restart_unit unit >>= λ _. verify_unit_active systemd unit)
          (sorted_units previous.resources) w in
      (join_errors es, w')

  abbrev pub restart_errors : Instance → W → List Error × W
  restart_errors previous w = let (x, w') = restart_previous previous w in (listed x, w')

  unfoldable pub rollback_removed_old :
      Instance → Dict String → List String → Error → Act W (Unit {0})
  unfolding content_of restart_previous conclude
  rollback_removed_old previous old removed cause w =
      let (es, w1) =
        collect (λ name. podman.install_quadlet name (content_of old name)) removed w in
      let (es', w2) = reload_then (restart_errors previous) w1 in (conclude cause (es ++ es'), w2)

  unfoldable pub rollback_updated_sources :
      Instance → Dict String → List String → List String → Error → Act W (Unit {0})
  unfolding content_of restart_previous conclude sorted_string_map_keys
  rollback_updated_sources previous old installed started cause w =
      let (es, w1) = collect systemd.stop_unit (reverse started) w in
      let (es1, w2) = collect (λ name. podman.remove_quadlet name false) (reverse installed) w1 in
      let (es2, w3) =
        collect (λ name. podman.install_quadlet name (content_of old name))
          (sorted_string_map_keys old) w2 in
      let (es3, w4) = reload_then (restart_errors previous) w3 in
      (conclude cause (es ++ (es1 ++ (es2 ++ es3))), w4)

  unfoldable pub rollback_remove : Instance → Dict String → List String → W → Option Error × W
  unfolding content_of sorted_units verify_unit_active
  rollback_remove previous old removed w =
      let (es, w1) =
        collect (λ name. podman.install_quadlet name (content_of old name)) removed w in
      let (es', w2) =
        reload_then
          (collect (λ unit. systemd.start_unit unit >>= λ _. verify_unit_active systemd unit)
            (sorted_units previous.resources))
          w1 in
      (join_errors (es ++ es'), w2)

  -- `rollback` of `remove`
  unfoldable pub fail_remove : Instance → Dict String → List String → Error → Act W (Unit {0})
  unfolding rollback_remove conclude
  fail_remove previous old removed cause w =
      let (x, w') = rollback_remove previous old removed w in (conclude cause (listed x), w')
