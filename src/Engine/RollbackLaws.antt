-- ===== src/Engine/RollbackLaws.antt =====
-- What the rollbacks leave behind: the sources from before, unless they say that they failed.
use home_server_deployer.Prelude.{
  String, ◌≡◌, refl, ◌∙◌, ap, ◌⊎◌, inl, inr, Bool, true, false, List, [], ◌∷◌, ◌++◌, reverse,
  contains,
}
use home_server_deployer.Prelude.Dict.{Dict}
use home_server_deployer.Model.{Instance}
use home_server_deployer.Error.{Error, rollback_failed, join_errors}
use home_server_deployer.Act.{Act, Result, err, collect, ◌>>=◌}
use home_server_deployer.Act.Rules.{Quiet, Quiet-attempt, Quiet-collect, collect_rule}
use home_server_deployer.Engine.{Engine}
use home_server_deployer.Engine.Support.{sorted_units, sorted_string_map_keys, verify_unit_active}
use home_server_deployer.Engine.Rollback.{
  content_of, listed, conclude, reload_then, restart_previous, restart_errors, rollback_install,
  fail_install, rollback_removed_old, rollback_updated_sources, rollback_remove, fail_remove,
}
use home_server_deployer.Engine.Sources.{Sources, IsLawful, without_all}
use home_server_deployer.Engine.Restore.{
  IsSnapshot, restore, restore-without_all, contains-sorted_keys,
}
use home_server_deployer.Engine.LeavesLaws.{Quiet-verify}

-- The error says that the rollback met errors of its own.
abbrev pub RollbackFailed : Result (Unit {0}) → Type 0
RollbackFailed r = (cause rest : Error) × (r ≡ err (rollback_failed cause rest))

pub conclude_cases :
    (cause : Error) (errs : List Error)
    → RollbackFailed (conclude cause errs) ⊎ ((errs ≡ []) × (conclude cause errs ≡ err cause))
unfolding conclude
conclude_cases cause [] = inr (refl, refl)
conclude_cases cause (x ∷ xs) = inl (cause, _, refl)

append-eq-nil : {A : Type 0} (xs ys : List A) → xs ++ ys ≡ [] → (xs ≡ []) × (ys ≡ [])
append-eq-nil [] ys h = (refl, h)
append-eq-nil (x ∷ xs) ys h = cc

listed-join_errors-eq-nil : (errs : List Error) → listed (join_errors errs) ≡ [] → errs ≡ []
unfolding join_errors
listed-join_errors-eq-nil [] h = refl
listed-join_errors-eq-nil (x ∷ xs) h = cc

module _ {W : Type 0} (e : Engine W) (source : W → Sources) (lawful : IsLawful e source) where
  open e use {podman, systemd}

  -- Loops that met no error.
  removed_by :
      (force : Bool) (names : List String) (w : W)
      → (collect (λ n. podman.remove_quadlet n force) names w).0 ≡ []
      → source (collect (λ n. podman.remove_quadlet n force) names w).1
        ≡ without_all names (source w)
  unfolding without_all
  removed_by force names w =
      collect_rule (λ rest v. without_all rest (source v) ≡ without_all names (source w))
        (λ n. podman.remove_quadlet n force)
        (λ n rest v j b good.
          ap (without_all rest) (lawful.leaves.writes.remove_ok n force v good) ∙ j)
        names w refl

  restored_by :
      (old : Dict String) (names : List String) (w : W)
      → (collect (λ n. podman.install_quadlet n (content_of old n)) names w).0 ≡ []
      → source (collect (λ n. podman.install_quadlet n (content_of old n)) names w).1
        ≡ restore old names (source w)
  unfolding restore
  restored_by old names w =
      collect_rule (λ rest v. restore old rest (source v) ≡ restore old names (source w))
        (λ n. podman.install_quadlet n (content_of old n))
        (λ n rest v j b good.
          ap (restore old rest) (lawful.leaves.writes.install_ok n (content_of old n) v good).1 ∙ j)
        names w refl

  -- Loops that change no source.
  launched : (String → Act W (Unit {0})) → String → Act W (Unit {0})
  launched launch unit = launch unit >>= λ _. verify_unit_active systemd unit

  Quiet-launched :
      (launch : String → Act W (Unit {0}))
      → ((unit : String) → Quiet source (launch unit))
      → (unit : String) → Quiet source (launched launch unit)
  unfolding launched
  Quiet-launched launch quiet unit =
      Quiet-attempt source _ _ _ (quiet unit) (λ c w. refl)
        (λ _. Quiet-verify e source lawful.leaves unit)

  restart_previous_quiet :
      (previous : Instance) (w : W) → source (restart_previous e previous w).1 ≡ source w
  unfolding restart_previous launched
  restart_previous_quiet previous w =
      Quiet-collect source (launched systemd.restart_unit)
        (Quiet-launched systemd.restart_unit lawful.leaves.quiet_restart)
        (sorted_units previous.resources) w

  restart_errors_quiet :
      (previous : Instance) (w : W)
      → source (reload_then e (restart_errors e previous) w).1 ≡ source w
  restart_errors_quiet previous w =
      restart_previous_quiet previous (systemd.reload w).1 ∙ lawful.leaves.quiet_reload w

  -- A failed install rolled back: what it had written is gone again.
  pub fail_install-restores :
      (installed : List String) (cause : Error) (w : W) (before : Sources)
      → without_all (reverse installed) (source w) ≡ before
      → RollbackFailed (fail_install e installed cause w).0
        ⊎ (((fail_install e installed cause w).0 ≡ err cause)
            × (source (fail_install e installed cause w).1 ≡ before))
  unfolding fail_install rollback_install
  fail_install-restores installed cause w before h =
      elim (conclude_cases cause (listed (rollback_install e installed w).0)) [
        | inl failed ↦ inl failed
        | inr (none_met, result) ↦
            let parts = append-eq-nil _ _ (listed-join_errors-eq-nil _ none_met) in
            inr (
              result,
              lawful.leaves.quiet_reload _ ∙ (removed_by true (reverse installed) w parts.0 ∙ h),
            )
      ]

  module _ (previous : Instance) (names : List String) (old : Dict String) (before : Sources)
      (snap : IsSnapshot names old before) where
    -- Only some old sources were removed: exactly those are written back.
    pub rollback_removed_old-restores :
        (removed : List String) (cause : Error) (w : W)
        → source w ≡ without_all removed before
        → ((j : String) → contains removed j ≡ true → contains names j ≡ true)
        → RollbackFailed (rollback_removed_old e previous old removed cause w).0
          ⊎ (((rollback_removed_old e previous old removed cause w).0 ≡ err cause)
              × (source (rollback_removed_old e previous old removed cause w).1 ≡ before))
    unfolding rollback_removed_old
    rollback_removed_old-restores removed cause w h within = elim (conclude_cases cause _) [
      | inl failed ↦ inl failed
      | inr (none_met, result) ↦
          let parts = append-eq-nil _ _ none_met in
          inr (
            result,
            restart_errors_quiet previous _
                ∙ (restored_by old removed w parts.0
                    ∙ (ap (restore old removed) h
                        ∙ restore-without_all removed removed snap (λ j. refl) within)),
          )
    ]

    -- The new sources are removed and the old ones written back.
    pub rollback_updated_sources-restores :
        (installed started : List String) (cause : Error) (w : W)
        → without_all (reverse installed) (source w) ≡ without_all names before
        → RollbackFailed (rollback_updated_sources e previous old installed started cause w).0
          ⊎ (((rollback_updated_sources e previous old installed started cause w).0 ≡ err cause)
              × (source (rollback_updated_sources e previous old installed started cause w).1
                  ≡ before))
    unfolding rollback_updated_sources
    rollback_updated_sources-restores installed started cause w h = elim (conclude_cases cause _) [
      | inl failed ↦ inl failed
      | inr (none_met, result) ↦
          let stopped = append-eq-nil _ _ none_met in
          let removed = append-eq-nil _ _ stopped.1 in
          let written = append-eq-nil _ _ removed.1 in
          inr (
            result,
            restart_errors_quiet previous _
                ∙ (restored_by old (sorted_string_map_keys old) _ written.0
                    ∙ (ap (restore old (sorted_string_map_keys old)) (
                          removed_by false (reverse installed) _ removed.0
                          ∙ (ap (without_all (reverse installed)) (
                                Quiet-collect source systemd.stop_unit lawful.leaves.quiet_stop
                                  (reverse started) w)
                              ∙ h))
                        ∙ restore-without_all names (sorted_string_map_keys old) snap
                            (contains-sorted_keys snap) (λ j c. c))),
          )
    ]

    -- Exactly the removed sources are written back.
    pub fail_remove-restores :
        (removed : List String) (cause : Error) (w : W)
        → source w ≡ without_all removed before
        → ((j : String) → contains removed j ≡ true → contains names j ≡ true)
        → RollbackFailed (fail_remove e previous old removed cause w).0
          ⊎ (((fail_remove e previous old removed cause w).0 ≡ err cause)
              × (source (fail_remove e previous old removed cause w).1 ≡ before))
    unfolding fail_remove rollback_remove launched
    fail_remove-restores removed cause w h within =
        elim (conclude_cases cause (listed (rollback_remove e previous old removed w).0)) [
          | inl failed ↦ inl failed
          | inr (none_met, result) ↦
              let parts = append-eq-nil _ _ (listed-join_errors-eq-nil _ none_met) in
              inr (
                result,
                Quiet-collect source (launched systemd.start_unit)
                      (Quiet-launched systemd.start_unit lawful.leaves.quiet_start)
                      (sorted_units previous.resources) _
                    ∙ (lawful.leaves.quiet_reload _
                        ∙ (restored_by old removed w parts.0
                            ∙ (ap (restore old removed) h
                                ∙ restore-without_all removed removed snap (λ j. refl) within))),
              )
        ]
