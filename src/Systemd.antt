-- ===== src/Systemd.antt =====
-- internal/systemd/systemd.go: `Direct` over the calls of the D-Bus library.
pub mod StatusLaws
pub mod JobLaws
pub mod QuietLaws
use Prim.Native.Char.{code}
use home_server_deployer.Prelude.{
  String, ◌<>◌, Bool, true, false, not, ◌&&◌, Option, none, some, List, [], ◌∷◌, ◌==◌, str_eq,
  if◌then◌else◌,
}
use home_server_deployer.Model.{SystemdCapabilities}
use home_server_deployer.Error.{
  Error, invalid_unit_name, unit_name_refused, unknown_operation, systemd_failed, systemd_timed_out,
}
use home_server_deployer.Act.{Result, ok, err, Act, pure, ◌>>=◌, ◌>>◌}
use home_server_deployer.Names.{valid_unit}
use home_server_deployer.Services.{Manager}

-- The states of a unit.
pub record UnitStatus : Type 0 where
  pub load_state : String
  pub active_state : String
  pub sub_state : String

-- What comes first for a job: its result, the end of the context, or thirty seconds.
pub data JobEvent : Type 0 where
  finished : String → JobEvent
  cancelled : Error → JobEvent
  timed_out : JobEvent

-- The connection: each of the first three queues a job in the mode "replace".
pub record Bus (W : Type 0) : Type 0 where
  pub queue_start : String → Act W (Unit {0})
  pub queue_stop : String → Act W (Unit {0})
  pub queue_restart : String → Act W (Unit {0})
  pub await_job : W → JobEvent × W
  pub reload_units : Act W (Unit {0})
  pub list_units : List String → Act W (List UnitStatus)
  pub version_property : W → Result String

-- strings.Trim(s, "\"")
unfoldable pub drop_quotes : String → String
drop_quotes String.[] = ""
drop_quotes (String.◌∷◌ c s) =
    let rest = drop_quotes s in if code c == b'"' then rest else String.◌∷◌ c s

abbrev pub onto_unquoted : Prim.Native.Char.Char → String → String
onto_unquoted c String.[] = if code c == b'"' then "" else String.◌∷◌ c ""
onto_unquoted c (String.◌∷◌ d s) = String.◌∷◌ c (String.◌∷◌ d s)

unfoldable pub drop_last_quotes : String → String
drop_last_quotes String.[] = ""
drop_last_quotes (String.◌∷◌ c s) = onto_unquoted c (drop_last_quotes s)

unfoldable pub trim_quotes : String → String
unfolding drop_quotes drop_last_quotes
trim_quotes s = drop_last_quotes (drop_quotes s)

-- The `select` of `job`.
unfoldable pub job_result : String → String → JobEvent → Result (Unit {0})
job_result op name (finished r) =
    if not (str_eq r "done") && not (str_eq r "skipped")
    then err (systemd_failed op name r)
    else ok tt
job_result op name (cancelled c) = err c
job_result op name timed_out = err (systemd_timed_out op name)

-- `%s/%s/%s`
unfoldable pub status_line : UnitStatus → String
status_line u = u.load_state <> ("/" <> (u.active_state <> ("/" <> u.sub_state)))

unfoldable pub status_of_units : List UnitStatus → String
unfolding status_line
status_of_units (u ∷ []) = status_line u
status_of_units _ = "not-found"

module _ {W : Type 0} (bus : Bus W) where
  -- The `switch` of `job`.
  abbrev pub queue_job : String → String → Act W (Unit {0})
  queue_job op name w =
      if str_eq op "start"
      then bus.queue_start name w
      else if str_eq op "stop"
      then bus.queue_stop name w
      else if str_eq op "restart"
      then bus.queue_restart name w
      else (err unknown_operation, w)

  abbrev pub awaited : String → String → Act W (Unit {0})
  awaited op name w = let (event, w') = bus.await_job w in (job_result op name event, w')

  abbrev pub require_unit : String → Error → Act W (Unit {0})
  require_unit name c w = if valid_unit name then (ok tt, w) else (err c, w)

  unfoldable pub job : String → String → Act W (Unit {0})
  unfolding valid_unit job_result
  job op name = do require_unit name (invalid_unit_name name); queue_job op name; awaited op name

  unfoldable pub direct_status : String → Act W String
  unfolding valid_unit status_of_units
  direct_status name = do
    require_unit name unit_name_refused
    units ← bus.list_units (name ∷ [])
    pure (status_of_units units)

  abbrev pub version_or_empty : Result String → String
  version_or_empty (ok v) = trim_quotes v
  version_or_empty (err _) = ""

  -- `Capabilities` of a connection that is there.
  unfoldable pub direct_capabilities : W → SystemdCapabilities
  unfolding trim_quotes
  direct_capabilities w = record {
    available = true;
    version = version_or_empty (bus.version_property w);
  }

  -- `*Direct` as a `Manager`
  unfoldable pub direct_manager : Manager W
  unfolding direct_capabilities job direct_status
  direct_manager = record {
    manager_capabilities = direct_capabilities;
    reload = bus.reload_units;
    start_unit = job "start";
    stop_unit = job "stop";
    restart_unit = job "restart";
    unit_status = direct_status;
  }
