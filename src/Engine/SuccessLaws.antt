-- ===== src/Engine/SuccessLaws.antt =====
-- A plan that is carried out without an error, on a host of which only what succeeds is known.
use home_server_deployer.Prelude.{String, ◌≡◌, refl, ap, ◌∙◌, inl, inr, false, List, []}
use home_server_deployer.Prelude.Dict.{Dict, keys}
use home_server_deployer.Model.{Instance, Catalog, Plan, RenderedResource}
use home_server_deployer.Error.{Error}
use home_server_deployer.Act.{Act, Result, ok, raise, attempt, each, ◌>>=◌}
use home_server_deployer.Act.Rules.{attempt_rule, each_rule}
use home_server_deployer.Engine.{Engine}
use home_server_deployer.Engine.Support.{sorted_resource_names, sorted_units}
use home_server_deployer.Engine.Rollback.{
  conclude, fail_install, rollback_removed_old, rollback_updated_sources, fail_remove,
}
use home_server_deployer.Engine.Transaction.{
  save_and_document, installed_instance, updated_instance, removed_instance, activate_install,
  install, activate_update, install_new, remove_old, update, snapshot, record_remove,
  remove_sources,
}
use home_server_deployer.Engine.Sources.{Sources, LeavesSources, without_all, with_all}
use home_server_deployer.Engine.LeavesLaws.{Quiet-save_and_document, Quiet-snapshot}
use home_server_deployer.Engine.StepRules.{activation_rule, stop_all_rule}
use home_server_deployer.Engine.RollbackLaws.{conclude_cases}

conclude-never : (cause : Error) (errs : List Error) → conclude cause errs ≡ ok tt → ⊥
conclude-never cause errs h = elim (conclude_cases cause errs) [
  | inl (c, rest, failed) ↦ cc
  | inr (_, failed) ↦ cc
]

-- What a call that reports success has left.
abbrev pub Leaves : {W : Type 0} → (W → Sources) → Sources → Result (Unit {0}) × W → Type 0
Leaves source after r = r.0 ≡ ok tt → source r.1 ≡ after

module _ {W : Type 0} (e : Engine W) (source : W → Sources) (leaves : LeavesSources e source) where
  open e use {podman, systemd, platform, state}

  -- After a rollback there is always an error.
  module _ (after : Sources) where
    fail_install-Leaves :
        (installed : List String) (c : Error) (w : W)
        → Leaves source after (fail_install e installed c w)
    unfolding fail_install
    fail_install-Leaves installed c w h = elim (conclude-never c _ h) [ ]

    rollback_removed_old-Leaves :
        (previous : Instance) (old : Dict String) (removed : List String) (c : Error) (w : W)
        → Leaves source after (rollback_removed_old e previous old removed c w)
    unfolding rollback_removed_old
    rollback_removed_old-Leaves previous old removed c w h = elim (conclude-never c _ h) [ ]

    rollback_updated_sources-Leaves :
        (previous : Instance) (old : Dict String) (installed started : List String) (c : Error)
        (w : W)
        → Leaves source after (rollback_updated_sources e previous old installed started c w)
    unfolding rollback_updated_sources
    rollback_updated_sources-Leaves previous old installed started c w h =
        elim (conclude-never c _ h) [ ]

    fail_remove-Leaves :
        (in' : Instance) (old : Dict String) (removed : List String) (c : Error) (w : W)
        → Leaves source after (fail_remove e in' old removed c w)
    unfolding fail_remove
    fail_remove-Leaves in' old removed c w h = elim (conclude-never c _ h) [ ]

    saved-Leaves :
        (app : Catalog) (in' : Instance) (w : W)
        → source w ≡ after
        → Leaves source after (save_and_document e in' app w)
    saved-Leaves app in' w h _ = Quiet-save_and_document e source leaves in' app w ∙ h

  -- The two loops over sources.
  install_all-Leaves :
      (after : Sources) (fail : List String → Error → Act W (Unit {0}))
      (next : List String → Act W (Unit {0}))
      → ((installed : List String) (c : Error) (w : W) → Leaves source after (fail installed c w))
      → ((installed : List String) (w : W)
          → source w ≡ after
          → Leaves source after (next installed w))
      → (rs : List RenderedResource) (w : W) → with_all rs (source w) ≡ after
      → Leaves source after (
          each
            (λ (r : RenderedResource). r.name)
            (λ r. podman.install_quadlet r.name r.content)
            fail
            next
            rs
            []
            w)
  unfolding with_all
  install_all-Leaves after fail next at_fail at_end rs w =
      each_rule (Leaves source after) (λ _ rest v. with_all rest (source v) ≡ after)
        (λ (r : RenderedResource). r.name) (λ r. podman.install_quadlet r.name r.content) fail next
        (λ _ r rest v i b good.
          ap (with_all rest) (leaves.writes.install_ok r.name r.content v good).1 ∙ i)
        (λ installed r rest v i c bad. at_fail installed c _)
        (λ installed v i. at_end installed v i) rs [] w

  remove_all-Leaves :
      (after gone : Sources) (fail : List String → Error → Act W (Unit {0}))
      (next : List String → Act W (Unit {0}))
      → ((removed : List String) (c : Error) (w : W) → Leaves source after (fail removed c w))
      → ((removed : List String) (w : W) → source w ≡ gone → Leaves source after (next removed w))
      → (names : List String) (w : W) → without_all names (source w) ≡ gone
      → Leaves source after
          (each (λ (n : String). n) (λ n. podman.remove_quadlet n false) fail next names [] w)
  unfolding without_all
  remove_all-Leaves after gone fail next at_fail at_end names w =
      each_rule (Leaves source after) (λ _ rest v. without_all rest (source v) ≡ gone)
        (λ (n : String). n) (λ n. podman.remove_quadlet n false) fail next
        (λ _ n rest v i b good. ap (without_all rest) (leaves.writes.remove_ok n false v good) ∙ i)
        (λ removed n rest v i c bad. at_fail removed c _) (λ removed v i. at_end removed v i) names
        [] w

  pub install-Leaves :
      (p : Plan) (app : Catalog) (w : W)
      → Leaves source (with_all p.resources (source w)) (install e p app w)
  unfolding install activate_install attempt
  install-Leaves p app w =
      install_all-Leaves after (fail_install e) (activate_install e p app)
        (fail_install-Leaves after)
        (λ installed v h.
          activation_rule e source leaves (Leaves source after) after app systemd.start_unit
            leaves.quiet_start (λ _. fail_install e installed)
            (λ _ c u _. fail_install-Leaves after installed c u) (saved-Leaves after app)
            p.resources (λ resources u. installed_instance p resources (platform.now u)) v h)
        p.resources w refl
    where
      after : Sources
      after = with_all p.resources (source w)

  pub update-Leaves :
      (p : Plan) (app : Catalog) (previous : Instance) (old : Dict String) (w : W)
      → Leaves source
          (with_all p.resources (without_all (sorted_resource_names previous.resources) (source w)))
          (update e p app previous old w)
  unfolding update remove_old install_new activate_update attempt
  update-Leaves p app previous old w =
      stop_all_rule e source leaves (Leaves source after) (source w)
        (λ _. remove_old e p app previous old) (λ c v h k. cc)
        (λ _ v h.
          remove_all-Leaves after gone (rollback_removed_old e previous old)
            (λ _. install_new e p app previous old) (rollback_removed_old-Leaves after previous old)
            (λ _ u i.
              install_all-Leaves after
                (λ installed. rollback_updated_sources e previous old installed [])
                (activate_update e p app previous old)
                (λ installed. rollback_updated_sources-Leaves after previous old installed [])
                (λ installed x j.
                  activation_rule e source leaves (Leaves source after) after app
                    systemd.restart_unit leaves.quiet_restart
                    (rollback_updated_sources e previous old installed)
                    (λ started c y _.
                      rollback_updated_sources-Leaves after previous old installed started c y)
                    (saved-Leaves after app) p.resources
                    (λ resources y. updated_instance p previous resources (platform.now y)) x j)
                p.resources u (ap (with_all p.resources) i))
            names v (ap (without_all names) h))
        (sorted_units previous.resources) w refl
    where
      names : List String
      names = sorted_resource_names previous.resources

      gone : Sources
      gone = without_all names (source w)

      after : Sources
      after = with_all p.resources gone

  pub remove_read-Leaves :
      (in' : Instance) (app : Catalog) (before : Sources) (w : W)
      → source w ≡ before
      → Leaves source (without_all (sorted_resource_names in'.resources) before) (
          (snapshot e (keys in'.resources) [] >>= λ old.
          each
            (λ (u : String). u)
            systemd.stop_unit
            (λ _. raise)
            (λ _. remove_sources e in' app old)
            (sorted_units in'.resources)
            [])
            w)
  unfolding remove_sources record_remove attempt
  remove_read-Leaves in' app before w h =
      attempt_rule (Leaves source after) (snapshot e (keys in'.resources) []) _ _ w
        (λ old _.
          stop_all_rule e source leaves (Leaves source after) before
            (λ _. remove_sources e in' app old) (λ c v _ k. cc)
            (λ _ v i.
              remove_all-Leaves after after (fail_remove e in' old) _
                (fail_remove-Leaves after in' old)
                (λ removed u j.
                  attempt_rule (Leaves source after) systemd.reload _ _ u
                    (λ _ _.
                      saved-Leaves after app
                        (removed_instance in' (platform.now (systemd.reload u).1))
                        (systemd.reload u).1 (leaves.quiet_reload u ∙ j))
                    (λ c _. fail_remove-Leaves after in' old removed c _))
                (sorted_resource_names in'.resources) v
                (ap (without_all (sorted_resource_names in'.resources)) i))
            (sorted_units in'.resources) _ (Quiet-snapshot e source leaves _ [] w ∙ h))
        (λ c _ k. cc)
    where
      after : Sources
      after = without_all (sorted_resource_names in'.resources) before
