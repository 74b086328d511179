-- ===== src/Tests/Units.antt =====
-- Jobs and states of units on a systemd in memory.
use home_server_deployer.Prelude.{
  String, ◌≡◌, refl, true, false, List, [], ◌∷◌, str_eq, if◌then◌else◌,
}
use home_server_deployer.Act.{ok, attempt}
use home_server_deployer.Names.{valid_unit}
use home_server_deployer.Engine.Support.{verify_unit_active}
use home_server_deployer.Systemd.{Bus, UnitStatus, finished, queue_job, job, direct_manager}
use home_server_deployer.Systemd.JobLaws.{Done, job-Done}
use home_server_deployer.Systemd.StatusLaws.{SeenActive, verify_unit_active-SeenActive}

-- The units that run.
abbrev Units : Type 0
Units = List String

abbrev state_of : String → UnitStatus
state_of active = record { load_state = "loaded"; active_state = active; sub_state = "running" }

abbrev listed : List String → Units → List UnitStatus
listed (u ∷ []) (v ∷ _) = state_of (if str_eq u v then "active" else "inactive") ∷ []
listed _ _ = []

abbrev bus : Bus Units
bus = record {
  queue_start = λ u w. (ok tt, u ∷ w);
  queue_stop = λ u w. (ok tt, []);
  queue_restart = λ u w. (ok tt, w);
  await_job = λ w. (finished "done", w);
  reload_units = λ w. (ok tt, w);
  list_units = λ us w. (ok (listed us w), w);
  version_property = λ w. ok "\"257\"";
}

not_a_service : valid_unit "web.timer" ≡ false
unfolding valid_unit
not_a_service = refl

started : (job bus "start" "web.service" []).0 ≡ ok tt
unfolding job attempt
started = refl

job-Done_example :
    (valid_unit "web.service" ≡ true) × Done bus (queue_job bus "start" "web.service") []
job-Done_example = job-Done bus "start" "web.service" [] started

verified : (verify_unit_active (direct_manager bus) "web.service" ("web.service" ∷ [])).0 ≡ ok tt
unfolding verify_unit_active direct_manager attempt
verified = refl

verify_unit_active-SeenActive_example :
    SeenActive bus "web.service" (bus.list_units ("web.service" ∷ []))
verify_unit_active-SeenActive_example =
    verify_unit_active-SeenActive bus "web.service" ("web.service" ∷ []) verified
