-- ===== src/Tests/Queries.antt =====
-- Queries on the host in memory.
use home_server_deployer.Prelude.{String, ◌≡◌, refl, none, some, List, [], ◌∷◌, contains, All}
use home_server_deployer.Prelude.Dict.{Dict, lookup, values, is_some}
use home_server_deployer.Model.{Instance, DiscoveredQuadlet, RuntimeContainer}
use home_server_deployer.Act.{Result, ok, err, attempt}
use home_server_deployer.Engine.Queries.{discover, logs, unit_names}
use home_server_deployer.Engine.QueryLaws.{ShowsOwner, discover-owned, runs_in, logs-runs_in}
use home_server_deployer.Engine.Sources.{assign}
use home_server_deployer.Tests.Fake.{World, fake_engine}

-- An instance whose resource has the unit `unit`.
abbrev one_instance : String → Instance
one_instance unit = record {
  id = "web";
  catalog_id = "app";
  catalog_version = "2";
  parameters = [];
  resources =
      ("b.container", record { name = "b.container"; unit_name = unit; sha256 = ""; source = "B" })
      ∷ [];
  directories = [];
  installed_at = 5;
  updated_at = 5;
  removed_at = none;
  history = [];
}

abbrev read_logs : Dict String
read_logs = ("b", "log") ∷ []

abbrev host : String → World
host unit = record {
  files = assign "b.container" (some "B") (λ _. none);
  names = "a.container" ∷ "b.container" ∷ [];
  broken = [];
  instances = ("web", one_instance unit) ∷ [];
  plans = [];
  trace = [];
}

abbrev value_or : {A : Type 0} → A → Result A → A
value_or a (ok b) = b
value_or a (err _) = a

shown : List DiscoveredQuadlet
unfolding discover attempt contains assign
shown = value_or [] (discover fake_engine (host "b.service")).0

shown_ok : (discover fake_engine (host "b.service")).0 ≡ ok shown
unfolding shown
shown_ok = refl

discover-owned_example :
    (ins : List Instance) × ((v : World) × ((fake_engine.state.list_instances v).0 ≡ ok ins))
    × All (ShowsOwner ins []) shown
discover-owned_example = discover-owned fake_engine (host "b.service") shown shown_ok

logs_read : (logs fake_engine "web" 10 (host "b.service")).0 ≡ ok read_logs
unfolding logs attempt contains lookup
logs_read = refl

-- A resource without a unit brings the log of a container that runs outside systemd.
stray_log : (logs fake_engine "web" 10 (host "")).0 ≡ ok (("stray", "log") ∷ [])
unfolding logs attempt contains lookup
stray_log = refl

logs-runs_in_example :
    (in' : Instance) × (cs : List RuntimeContainer) × ((v : World)
      × ((fake_engine.state.get_instance "web" v).0 ≡ ok in'))
    × ((v : World) × ((fake_engine.podman.list_containers v).0 ≡ ok cs))
    × ((name : String)
        → is_some (lookup name read_logs) ≡ runs_in (unit_names (values in'.resources)) cs name)
logs-runs_in_example = logs-runs_in fake_engine "web" 10 (host "b.service") read_logs logs_read
