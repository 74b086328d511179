-- ===== src/Tests/Transactions.antt =====
-- Runs of `ExecutePlan` on the host in memory.
use home_server_deployer.Prelude.{
  String, ◌≡◌, refl, none, some, List, [], ◌∷◌, true, codes, contains,
}
use home_server_deployer.Model.{empty_catalog, Instance, Plan, RenderedResource}
use home_server_deployer.Error.{external}
use home_server_deployer.Act.{err, attempt, each, collect}
use home_server_deployer.Engine.Rollback.{rollback_updated_sources}
use home_server_deployer.Engine.Support.{sorted_units, hex, plan_digest}
use home_server_deployer.Engine.Sources.{assign}
use home_server_deployer.Engine.Transaction.{update, updated_instance}
use home_server_deployer.Engine.StopLaws.{stop_all, update-stop_all}
use home_server_deployer.Engine.Execute.{Outcome, execute_plan}
use home_server_deployer.Engine.ExecuteLaws.{Concluded, execute_plan-concludes}
use home_server_deployer.Tests.Fake.{
  World, files_of, fake_engine, fake_platform, fake_state, fake-IsLawful,
}

-- An instance of two Quadlets, as it was installed.
unfoldable pub old_instance : Instance
unfolding hex
old_instance = record {
  id = "web";
  catalog_id = "app";
  catalog_version = "1";
  parameters = [];
  resources =
      (
        "b.container",
        record {
          name = "b.container";
          unit_name = "b.service";
          sha256 = hex (codes "B");
          source = "B";
        },
      )
      ∷ (
        "a.volume",
        record {
          name = "a.volume";
          unit_name = "a.service";
          sha256 = hex (codes "A");
          source = "A";
        },
      )
      ∷ [];
  directories = [];
  installed_at = 5;
  updated_at = 5;
  removed_at = none;
  history = [];
}

unfoldable pub rendered : String → String → RenderedResource
rendered n c = record {
  name = n;
  unit_name = "";
  content = c;
  start = true;
  sha256 = "";
  previous_sha256 = "";
}

unfoldable pub plan_of : String → Plan
unfolding rendered plan_digest
plan_of op =
    let p : Plan = record {
      id = "plan";
      digest = "";
      operation = op;
      app_id = "app";
      catalog_version = "2";
      instance_id = "web";
      parameters = [];
      directories = [];
      resources = rendered "b.container" "B2" ∷ rendered "c.container" "C2" ∷ [];
      drift = [];
      created_at = 900;
      expires_at = 2000;
    } in
    record p { digest = plan_digest fake_platform p }

unfoldable pub host : String → List String → World
unfolding plan_of old_instance assign
host op broken = record {
  files = assign "a.volume" (some "A") (assign "b.container" (some "B") (λ _. none));
  names = "a.volume" ∷ "b.container" ∷ "c.container" ∷ [];
  broken = broken;
  instances = ("web", old_instance) ∷ [];
  plans = ("plan", plan_of op) ∷ [];
  trace = [];
}

run : String → List String → Outcome × World
unfolding host execute_plan updated_instance attempt each collect contains rollback_updated_sources
run op broken = execute_plan fake_engine "plan" (host op broken)

-- The second install of an update fails: the first is taken back and the old sources return.
update_rolled_back :
    (run "update" ("install c.container" ∷ [])).1.trace
    ≡ "stop a.service" ∷ "stop b.service" ∷ "remove a.volume" ∷ "remove b.container"
      ∷ "install b.container" ∷ "install c.container" ∷ "remove b.container" ∷ "install a.volume"
      ∷ "install b.container" ∷ "reload" ∷ "restart a.service" ∷ "status a.service"
      ∷ "restart b.service" ∷ "status b.service" ∷ []
unfolding run
update_rolled_back = refl

-- The plan of an update is carried out, and the plan is deleted.
update_carried_out :
    (run "update" []).1.trace
    ≡ "stop a.service" ∷ "stop b.service" ∷ "remove a.volume" ∷ "remove b.container"
      ∷ "install b.container" ∷ "install c.container" ∷ "reload" ∷ "list"
      ∷ "restart b.container.service" ∷ "status b.container.service" ∷ "restart c.container.service"
      ∷ "status c.container.service" ∷ "list" ∷ "save" ∷ "docs web" ∷ "delete plan" ∷ []
unfolding run
update_carried_out = refl

-- A stop fails: the unit that was stopped before it is not started again.
update_not_stopped :
    (run "update" ("stop b.service" ∷ [])).1.trace ≡ "stop a.service" ∷ "stop b.service" ∷ []
unfolding run
update_not_stopped = refl

execute_plan-concludes_example :
    let w = host "update" ("install c.container" ∷ []) in
    Concluded fake_engine files_of fake-IsLawful
      (fake_state.get_plan "plan" w).0
      (fake_state.get_plan "plan" w).1
      (files_of w)
      (execute_plan fake_engine "plan" w)
execute_plan-concludes_example =
    execute_plan-concludes fake_engine files_of fake-IsLawful "plan"
      (host "update" ("install c.container" ∷ []))

refused_host : World
unfolding host stop_all sorted_units attempt contains
refused_host =
    (stop_all fake_engine (sorted_units old_instance.resources)
      (host "update" ("stop b.service" ∷ []))).1

stop_refused :
    stop_all fake_engine
      (sorted_units old_instance.resources)
      (host "update" ("stop b.service" ∷ []))
    ≡ (err (external "stop b.service"), refused_host)
unfolding refused_host
stop_refused = refl

update-stop_all_example :
    update fake_engine
      (plan_of "update")
      empty_catalog
      old_instance
      []
      (host "update" ("stop b.service" ∷ []))
    ≡ (err (external "stop b.service"), refused_host)
update-stop_all_example =
    update-stop_all fake_engine (plan_of "update") empty_catalog old_instance []
      (host "update" ("stop b.service" ∷ [])) refused_host (external "stop b.service") stop_refused
