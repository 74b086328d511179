-- ===== src/Systemd/QuietLaws.antt =====
-- internal/systemd/systemd.go: what jobs and states of units leave alone.
use home_server_deployer.Prelude.{String, ◌≡◌, refl, str_eq, List}
use home_server_deployer.Error.{Error}
use home_server_deployer.Act.Rules.{Quiet, Quiet-bind, if_rule}
use home_server_deployer.Names.{valid_unit}
use home_server_deployer.Systemd.{Bus, queue_job, require_unit, job, direct_status}

-- The calls of systemd change no part of the view.
pub record QuietBus {W V : Type 0} (bus : Bus W) (view : W → V) : Type 0 where
  pub quiet_queue_start : (u : String) → Quiet view (bus.queue_start u)
  pub quiet_queue_stop : (u : String) → Quiet view (bus.queue_stop u)
  pub quiet_queue_restart : (u : String) → Quiet view (bus.queue_restart u)
  pub quiet_await : (w : W) → view (bus.await_job w).1 ≡ view w
  pub quiet_reload_units : Quiet view bus.reload_units
  pub quiet_list_units : (us : List String) → Quiet view (bus.list_units us)

module _ {W V : Type 0} (bus : Bus W) (view : W → V) (quiet : QuietBus bus view) where
  open quiet use {quiet_queue_start, quiet_queue_stop, quiet_queue_restart, quiet_await}

  Quiet-require_unit : (name : String) (c : Error) → Quiet view (require_unit bus name c)
  Quiet-require_unit name c w =
      if_rule (λ (r : _ × W). view r.1 ≡ view w) (valid_unit name) _ _ refl refl

  Quiet-queue_job : (op name : String) → Quiet view (queue_job bus op name)
  Quiet-queue_job op name w =
      if_rule (λ (r : _ × W). view r.1 ≡ view w) (str_eq op "start") _ _ (quiet_queue_start name w)
        (if_rule (λ (r : _ × W). view r.1 ≡ view w) (str_eq op "stop") _ _ (quiet_queue_stop name w)
          (if_rule (λ (r : _ × W). view r.1 ≡ view w) (str_eq op "restart") _ _
            (quiet_queue_restart name w) refl))

  pub Quiet-job : (op name : String) → Quiet view (job bus op name)
  unfolding job
  Quiet-job op name =
      Quiet-bind view (require_unit bus name _) _ (Quiet-require_unit name _)
        λ _. Quiet-bind view (queue_job bus op name) _ (Quiet-queue_job op name) λ _. quiet_await

  pub Quiet-direct_status : (name : String) → Quiet view (direct_status bus name)
  unfolding direct_status
  Quiet-direct_status name =
      Quiet-bind view (require_unit bus name _) _ (Quiet-require_unit name _)
        λ _. Quiet-bind view (bus.list_units _) _ (quiet.quiet_list_units _) λ _ _. refl
