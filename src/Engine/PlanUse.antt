-- ===== src/Engine/PlanUse.antt =====
-- From `CreatePlan` to `ExecutePlan`: the plan that one stored is the plan that the other reads.
use home_server_deployer.Prelude.{◌≡◌, refl, str_eq, eq_iff, ltb, if◌then◌else◌}
use home_server_deployer.Model.{PlanRequest, Plan}
use home_server_deployer.Error.{plan_expired, drift_detected}
use home_server_deployer.Act.{ok}
use home_server_deployer.Engine.{Engine}
use home_server_deployer.Engine.Support.{plan_digest}
use home_server_deployer.Engine.Planning.{create_plan}
use home_server_deployer.Engine.Execute.{
  Outcome, with_plan, execute_plan, execute_read, perform_and_report, check_again, is_nil, refused,
}
use home_server_deployer.Engine.PlanLaws.{create_plan-Planned}

module _ {W : Type 0} (e : Engine W) where
  open e use {state, platform}

  -- `ExecutePlan` without the test on the digest.
  abbrev pub run_in_time : Plan → W → Outcome × W
  run_in_time p v =
      if ltb p.expires_at (platform.now v)
      then (refused plan_expired, v)
      else if is_nil p.drift
      then (if str_eq p.operation "install"
          then perform_and_report e p v
          else let (x, v') = state.get_instance p.instance_id v in check_again e p x v')
      else (refused (drift_detected p.operation), v)

  execute_read-digest :
      (p : Plan) (v : W) → p.digest ≡ plan_digest platform p → execute_read e p v ≡ run_in_time p v
  unfolding execute_read
  execute_read-digest p v h = rw ((eq_iff p.digest (plan_digest platform p)).1 h) refl

  -- If the store gives back the plan that CreatePlan saved, ExecutePlan right after CreatePlan
  -- never refuses it for its digest: it runs on the tests of time and drift alone.
  pub execute_plan-create_plan :
      (r : PlanRequest) (w v : W) (p : Plan)
      → create_plan e r w ≡ (ok p, v)
      → (state.get_plan p.id v).0 ≡ ok p
      → execute_plan e p.id v ≡ run_in_time p (state.get_plan p.id v).1
  unfolding execute_plan
  execute_plan-create_plan r w v p h kept =
      let planned = create_plan-Planned e r w v p h in
      rw (kept, with_plan) (execute_read-digest p (state.get_plan p.id v).1 planned.2.1)
