-- ===== src/Engine/InstallLaws.antt =====
-- How `install` can end.
use home_server_deployer.Prelude.{String, ◌≡◌, refl, sym, ap, ◌∙◌, List, reverse}
use home_server_deployer.Model.{Catalog, Plan}
use home_server_deployer.Act.{attempt}
use home_server_deployer.Engine.{Engine}
use home_server_deployer.Engine.Rollback.{fail_install}
use home_server_deployer.Engine.Transaction.{activate_install, install, installed_instance}
use home_server_deployer.Engine.Sources.{Sources, IsLawful, without_all, with_all}
use home_server_deployer.Engine.RollbackLaws.{fail_install-restores}
use home_server_deployer.Engine.TransactionLaws.{Settled, Settled-rollback, install_all_rule}
use home_server_deployer.Engine.Settling.{activation-settles}

module _ {W : Type 0} (e : Engine W) (source : W → Sources) (lawful : IsLawful e source) where
  open e use {podman, systemd, platform}

  module _ (p : Plan) (app : Catalog) where
    activate_install-settles :
        (before after : Sources) (installed : List String) (w : W)
        → without_all (reverse installed) (source w) ≡ before
        → source w ≡ after
        → Settled e source before after app (activate_install e p app installed w)
    unfolding activate_install attempt
    activate_install-settles before after installed w undo done =
        activation-settles e source lawful before after app systemd.start_unit
          lawful.leaves.quiet_start (λ _. fail_install e installed)
          (λ _ c v h. Settled-rollback e source before after app c _ (
            fail_install-restores e source lawful installed c v before
              (ap (without_all (reverse installed)) (h ∙ sym done) ∙ undo)))
          p.resources (λ resources v. installed_instance p resources (platform.now v)) w done

    -- An install ends with the sources as they were, or with the plan's added to them.
    pub install-settles :
        (w : W)
        → Settled e source (source w) (with_all p.resources (source w)) app (install e p app w)
    unfolding install
    install-settles w =
        install_all_rule e source lawful
          (Settled e source (source w) (with_all p.resources (source w)) app) (source w)
          (with_all p.resources (source w)) (fail_install e) (activate_install e p app)
          (λ installed c v undo.
            Settled-rollback e source _ _ app c _
              (fail_install-restores e source lawful installed c v (source w) undo))
          (λ installed v. activate_install-settles _ _ installed v) p.resources w refl refl
