-- ===== src/Engine/StopLaws.antt =====
-- What `update` and `remove` do when a unit does not stop.
use home_server_deployer.Prelude.{String, ◌≡◌, List, [], ◌∷◌, ◌++◌}
use home_server_deployer.Prelude.Dict.{Dict}
use home_server_deployer.Model.{Catalog, Instance, Plan}
use home_server_deployer.Error.{Error}
use home_server_deployer.Act.{Act, Result, ok, err, raise, pure, branch, attempt, each, ◌>>◌}
use home_server_deployer.Engine.{Engine}
use home_server_deployer.Engine.Support.{sorted_units}
use home_server_deployer.Engine.Transaction.{update, remove_old}

module _ {W : Type 0} (e : Engine W) where
  open e use {systemd}

  -- The stops alone, up to the first that fails.
  unfoldable pub stop_all : List String → Act W (Unit {0})
  stop_all [] = pure tt
  stop_all (unit ∷ units) = do systemd.stop_unit unit; stop_all units

  branch_err :
      (f g : Unit {0} → Act W (Unit {0})) (r : Result (Unit {0})) (u v : W) (c : Error)
      → ((a : Unit {0}) → f a u ≡ (err c, v) → g a u ≡ (err c, v))
      → branch raise f r u ≡ (err c, v)
      → branch raise g r u ≡ (err c, v)
  branch_err f g (ok a) u v c more h = more a h
  branch_err f g (err d) u v c more h = h

  stops_err :
      (next : List String → Act W (Unit {0})) (units stopped : List String) (w v : W) (c : Error)
      → stop_all units w ≡ (err c, v)
      → each (λ unit. unit) systemd.stop_unit (λ _. raise) next units stopped w ≡ (err c, v)
  unfolding stop_all each attempt
  stops_err next [] stopped w v c h = cc
  stops_err next (unit ∷ units) stopped w v c h =
      branch_err _ _ (systemd.stop_unit unit w).0 (systemd.stop_unit unit w).1 v c
        (λ a k. stops_err next units (stopped ++ unit ∷ []) _ v c k) h

  -- If one of the previous instance's units does not stop, an update returns that error and
  -- leaves the host as the stops left it: nothing is restored, and the units that did stop are
  -- not started again.
  pub update-stop_all :
      (p : Plan) (app : Catalog) (previous : Instance) (old : Dict String) (w v : W) (c : Error)
      → stop_all (sorted_units previous.resources) w ≡ (err c, v)
      → update e p app previous old w ≡ (err c, v)
  unfolding update
  update-stop_all p app previous old w v c h =
      stops_err (λ _. remove_old e p app previous old) (sorted_units previous.resources) [] w v c h
