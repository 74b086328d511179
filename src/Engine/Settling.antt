-- ===== src/Engine/Settling.antt =====
-- The end of an install or an update, and the stops before an update or a removal: no error leaves
-- the source files half changed, unless it says that the rollback failed.
use home_server_deployer.Prelude.{String, ◌≡◌, refl, inr, List}
use home_server_deployer.Prelude.Dict.{Dict}
use home_server_deployer.Model.{ResourceState, Instance, Catalog, RenderedResource}
use home_server_deployer.Error.{Error}
use home_server_deployer.Act.{Act}
use home_server_deployer.Act.Rules.{Quiet}
use home_server_deployer.Engine.{Engine}
use home_server_deployer.Engine.Sources.{Sources, IsLawful}
use home_server_deployer.Engine.TransactionLaws.{Settled}
use home_server_deployer.Engine.StepRules.{activation, activation_rule}

module _ {W : Type 0} (e : Engine W) (source : W → Sources) (lawful : IsLawful e source) where
  open e use {podman, systemd, platform}

  -- Reload, look up the units, start them and record the result: only the last step can end well.
  pub activation-settles :
      (before after : Sources) (app : Catalog) (launch : String → Act W (Unit {0}))
      (quiet : (unit : String) → Quiet source (launch unit))
      (fail : List String → Error → Act W (Unit {0}))
      (at_fail : (started : List String) (c : Error) (w : W)
        → source w ≡ after
        → Settled e source before after app (fail started c w))
      (rs : List RenderedResource) (instance_of : Dict ResourceState → W → Instance) (w : W)
      → source w ≡ after
      → Settled e source before after app (activation e app launch fail rs instance_of w)
  activation-settles before after app launch quiet fail at_fail rs instance_of =
      activation_rule e source lawful.leaves (Settled e source before after app) after app launch
        quiet fail at_fail (λ in' v h. inr (inr (in', v, h, refl))) rs instance_of
