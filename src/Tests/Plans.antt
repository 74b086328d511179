-- ===== src/Tests/Plans.antt =====
-- Plans made and used on the host in memory.
use home_server_deployer.Prelude.{◌≡◌, refl, ◌⊎◌, none, [], ◌∷◌, contains}
use home_server_deployer.Model.{PlanRequest, Plan, empty_plan}
use home_server_deployer.Act.{Result, ok, err, attempt, each, collect}
use home_server_deployer.Engine.Execute.{execute_plan}
use home_server_deployer.Engine.Planning.{create_plan}
use home_server_deployer.Engine.PlanLaws.{Planned, create_plan-Planned}
use home_server_deployer.Engine.PlanUse.{run_in_time, execute_plan-create_plan}
use home_server_deployer.Engine.GuardLaws.{Untouched, Cleared, execute_plan-guards}
use home_server_deployer.Engine.Rollback.{fail_install}
use home_server_deployer.Engine.Transaction.{installed_instance}
use home_server_deployer.Engine.Sources.{assign}
use home_server_deployer.Tests.Fake.{World, files_of, fake_engine}

request : PlanRequest
request = record {
  operation = "install";
  app_id = "app";
  instance_id = "web";
  parameters = ("data", "web/data") ∷ [];
}

empty_host : World
empty_host = record {
  files = λ _. none;
  names = "app.container" ∷ [];
  broken = [];
  instances = [];
  plans = [];
  trace = [];
}

plan_or_empty : Result Plan → Plan
plan_or_empty (ok p) = p
plan_or_empty (err _) = empty_plan

made : Result Plan × World
unfolding request empty_host create_plan attempt contains
made = create_plan fake_engine request empty_host

the_plan : Plan
unfolding made
the_plan = plan_or_empty made.0

made_ok : create_plan fake_engine request empty_host ≡ (ok the_plan, made.1)
unfolding the_plan plan_or_empty made
made_ok = refl

steps : made.1.trace ≡ "capabilities" ∷ "random" ∷ "read /catalog/app/app.tmpl" ∷ "save plan" ∷ []
unfolding made
steps = refl

create_plan-Planned_example : Planned fake_engine request the_plan made.1
create_plan-Planned_example =
    create_plan-Planned fake_engine request empty_host made.1 the_plan made_ok

-- The store in memory gives back the plan that it has saved.
kept : (fake_engine.state.get_plan the_plan.id made.1).0 ≡ ok the_plan
unfolding the_plan plan_or_empty made
kept = refl

execute_plan-create_plan_example :
    execute_plan fake_engine the_plan.id made.1 ≡ run_in_time fake_engine the_plan made.1
execute_plan-create_plan_example =
    execute_plan-create_plan fake_engine request empty_host made.1 the_plan made_ok kept

installed : (execute_plan fake_engine the_plan.id made.1).0.result.status ≡ "succeeded"
unfolding the_plan plan_or_empty made execute_plan attempt each collect fail_install
    installed_instance assign
installed = refl

execute_plan-guards_example :
    Untouched fake_engine files_of made.1 (execute_plan fake_engine the_plan.id made.1)
    ⊎ ((p : Plan) × ((fake_engine.state.get_plan the_plan.id made.1).0 ≡ ok p)
        × Cleared fake_engine files_of p (fake_engine.state.get_plan the_plan.id made.1).1)
execute_plan-guards_example =
    execute_plan-guards fake_engine files_of (λ id w. refl) (λ id w. refl) (λ n w. refl) the_plan.id
      made.1
