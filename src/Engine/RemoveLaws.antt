-- ===== src/Engine/RemoveLaws.antt =====
-- How `remove` can end.
use home_server_deployer.Prelude.{
  String, ◌≡◌, refl, subst, sym, ap, ◌∙◌, inr, inl, true, List, [], contains,
}
use home_server_deployer.Prelude.Dict.{Dict, keys}
use home_server_deployer.Prelude.Sort.{contains-sort_strings}
use home_server_deployer.Model.{Instance, Catalog}
use home_server_deployer.Act.{Result, raise, attempt, each, ◌>>=◌}
use home_server_deployer.Act.Rules.{attempt_rule}
use home_server_deployer.Engine.{Engine}
use home_server_deployer.Engine.Support.{sorted_resource_names, sorted_units}
use home_server_deployer.Engine.Rollback.{fail_remove}
use home_server_deployer.Engine.Transaction.{
  save_and_document, removed_instance, record_remove, remove_sources, snapshot,
}
use home_server_deployer.Engine.Sources.{Sources, IsLawful, without_all}
use home_server_deployer.Engine.Restore.{IsSnapshot, snapshot-IsSnapshot}
use home_server_deployer.Engine.RollbackLaws.{fail_remove-restores}
use home_server_deployer.Engine.TransactionLaws.{Settled, Settled-rollback, remove_all_rule}
use home_server_deployer.Engine.StepRules.{stop_all_rule}
use home_server_deployer.Engine.LeavesLaws.{Quiet-snapshot}

module _ {W : Type 0} (e : Engine W) (source : W → Sources) (lawful : IsLawful e source) where
  open e use {podman, systemd, platform}

  record_remove-eq :
      (in' : Instance) (app : Catalog) (w : W)
      → record_remove e in' app w
        ≡ save_and_document e (removed_instance in' (platform.now w)) app w
  unfolding record_remove attempt
  record_remove-eq in' app w = refl

  -- A removal ends with the sources as they were, or without those of the instance.
  pub remove_sources-settles :
      (in' : Instance) (app : Catalog) (old : Dict String) (before : Sources) (w : W)
      → IsSnapshot (keys in'.resources) old before
      → source w ≡ before
      → Settled e source before
          (without_all (sorted_resource_names in'.resources) before)
          app
          (remove_sources e in' app old w)
  unfolding remove_sources
  remove_sources-settles in' app old before w snap h =
      remove_all_rule e source lawful Q before names (fail_remove e in' old) _
        (λ removed c u gone within. Settled-rollback e source _ _ app c _ (
          fail_remove-restores e source lawful in' (keys in'.resources) old before snap removed c u
            gone (λ j m. sym (contains-sort_strings (keys in'.resources) j) ∙ within j m)))
        (λ removed u all gone.
          attempt_rule Q systemd.reload _ _ u
            (λ _ _. inr (
              inr (
                removed_instance in' (platform.now (systemd.reload u).1),
                (systemd.reload u).1,
                lawful.leaves.quiet_reload u ∙ (gone ∙ ap (λ ns. without_all ns before) all),
                record_remove-eq in' app _,
              )))
            (λ c _. Settled-rollback e source _ _ app c _ (
              fail_remove-restores e source lawful in' (keys in'.resources) old before snap removed
                c _ (lawful.leaves.quiet_reload u ∙ gone)
                (λ j m.
                  sym (contains-sort_strings (keys in'.resources) j)
                  ∙ subst (λ ns. contains ns j ≡ true) all m))))
        w h
    where
      names : List String
      names = sorted_resource_names in'.resources

      Q : Result (Unit {0}) × W → Type 0
      Q = Settled e source before (without_all names before) app

  -- The removal of an instance that was read, from the snapshot on.
  pub remove_read-settles :
      (in' : Instance) (app : Catalog) (before : Sources) (w : W)
      → source w ≡ before
      → Settled e source before (without_all (sorted_resource_names in'.resources) before) app (
          (snapshot e (keys in'.resources) [] >>= λ old.
          each
            (λ (u : String). u)
            systemd.stop_unit
            (λ _. raise)
            (λ _. remove_sources e in' app old)
            (sorted_units in'.resources)
            [])
            w)
  remove_read-settles in' app before w h =
      attempt_rule Q (snapshot e (keys in'.resources) []) _ _ w
        (λ old read.
          stop_all_rule e source lawful.leaves Q before (λ _. remove_sources e in' app old)
            (λ c v k. inr (inl ((c, refl), k)))
            (λ _ v k.
              remove_sources-settles in' app old before v
                (subst (IsSnapshot (keys in'.resources) old) h
                  (snapshot-IsSnapshot e source lawful (keys in'.resources) w old read))
                k)
            (sorted_units in'.resources) _ (Quiet-snapshot e source lawful.leaves _ [] w ∙ h))
        (λ c _. inr (inl ((c, refl), Quiet-snapshot e source lawful.leaves _ [] w ∙ h)))
    where
      Q : Result (Unit {0}) × W → Type 0
      Q = Settled e source before (without_all (sorted_resource_names in'.resources) before) app
