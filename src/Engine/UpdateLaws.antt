-- ===== src/Engine/UpdateLaws.antt =====
-- How `update` can end.
use home_server_deployer.Prelude.{String, ◌≡◌, refl, sym, ap, ◌∙◌, inr, inl, List, [], reverse}
use home_server_deployer.Prelude.Dict.{Dict}
use home_server_deployer.Model.{Instance, Catalog, Plan}
use home_server_deployer.Act.{attempt}
use home_server_deployer.Engine.{Engine}
use home_server_deployer.Engine.Support.{sorted_resource_names, sorted_units}
use home_server_deployer.Engine.Rollback.{rollback_removed_old, rollback_updated_sources}
use home_server_deployer.Engine.Transaction.{
  activate_update, updated_instance, install_new, remove_old, update,
}
use home_server_deployer.Engine.Sources.{Sources, IsLawful, without_all, with_all}
use home_server_deployer.Engine.Restore.{IsSnapshot}
use home_server_deployer.Engine.RollbackLaws.{
  rollback_removed_old-restores, rollback_updated_sources-restores,
}
use home_server_deployer.Engine.TransactionLaws.{
  Settled, Settled-rollback, install_all_rule, remove_all_rule,
}
use home_server_deployer.Engine.Settling.{activation-settles}
use home_server_deployer.Engine.StepRules.{stop_all_rule}

module _ {W : Type 0} (e : Engine W) (source : W → Sources) (lawful : IsLawful e source) where
  open e use {podman, systemd, platform}

  module _ (p : Plan) (app : Catalog) (previous : Instance) (names : List String)
      (old : Dict String) (before : Sources) (snap : IsSnapshot names old before) where
    activate_update-settles :
        (after : Sources) (installed : List String) (w : W)
        → without_all (reverse installed) (source w) ≡ without_all names before
        → source w ≡ after
        → Settled e source before after app (activate_update e p app previous old installed w)
    unfolding activate_update attempt
    activate_update-settles after installed w undo done =
        activation-settles e source lawful before after app systemd.restart_unit
          lawful.leaves.quiet_restart (rollback_updated_sources e previous old installed)
          (λ started c v h. Settled-rollback e source before after app c _ (
            rollback_updated_sources-restores e source lawful previous names old before snap
              installed started c v (ap (without_all (reverse installed)) (h ∙ sym done) ∙ undo)))
          p.resources (λ resources v. updated_instance p previous resources (platform.now v)) w done

    install_new-settles :
        (w : W)
        → source w ≡ without_all names before
        → Settled e source before
            (with_all p.resources (without_all names before))
            app
            (install_new e p app previous old w)
    unfolding install_new
    install_new-settles w h =
        install_all_rule e source lawful
          (Settled e source before (with_all p.resources (without_all names before)) app)
          (without_all names before) (with_all p.resources (without_all names before))
          (λ installed. rollback_updated_sources e previous old installed [])
          (activate_update e p app previous old)
          (λ installed c v undo. Settled-rollback e source _ _ app c _ (
            rollback_updated_sources-restores e source lawful previous names old before snap
              installed [] c v undo))
          (λ installed v. activate_update-settles _ installed v) p.resources w h refl

  -- An update ends with the sources as they were, or with the plan's in place of the old ones.
  pub update-settles :
      (p : Plan) (app : Catalog) (previous : Instance) (old : Dict String) (w : W)
      → let names = sorted_resource_names previous.resources in
        IsSnapshot names old (source w)
        → Settled e source
            (source w)
            (with_all p.resources (without_all names (source w)))
            app
            (update e p app previous old w)
  unfolding update remove_old
  update-settles p app previous old w snap =
      let names = sorted_resource_names previous.resources in
      let Q =
        Settled e source (source w) (with_all p.resources (without_all names (source w))) app in
      stop_all_rule e source lawful.leaves Q (source w) (λ _. remove_old e p app previous old)
        (λ c v h. inr (inl ((c, refl), h)))
        (λ _ v h.
          remove_all_rule e source lawful Q (source w) names (rollback_removed_old e previous old)
            (λ _. install_new e p app previous old)
            (λ removed c u gone within. Settled-rollback e source _ _ app c _ (
              rollback_removed_old-restores e source lawful previous names old (source w) snap
                removed c u gone within))
            (λ _ u all gone.
              install_new-settles p app previous names old (source w) snap u
                (gone ∙ ap (λ ns. without_all ns (source w)) all))
            v h)
        (sorted_units previous.resources) w refl
