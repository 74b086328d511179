-- ===== src/Systemd/JobLaws.antt =====
-- internal/systemd/systemd.go: what a job and a status ask of systemd.
use home_server_deployer.Prelude.{
  String, ◌≡◌, refl, subst, true, ◌||◌, str_eq, arith, Bool-cases, inl, inr,
}
use home_server_deployer.Error.{Error, invalid_unit_name}
use home_server_deployer.Act.{ok, Act}
use home_server_deployer.Act.Rules.{bind_rule}
use home_server_deployer.Names.{valid_unit}
use home_server_deployer.Systemd.{
  Bus, JobEvent, finished, cancelled, timed_out, job_result, queue_job, awaited, require_unit, job,
}

job_result-finished :
    (op name : String) (event : JobEvent)
    → job_result op name event ≡ ok tt
    → (r : String) × (event ≡ finished r) × ((str_eq r "done" || str_eq r "skipped") ≡ true)
unfolding job_result
job_result-finished op name (finished r) h = (r, refl, ground arith)
job_result-finished op name (cancelled c) h = cc
job_result-finished op name timed_out h = cc

module _ {W : Type 0} (bus : Bus W) where
  -- What a job that ended well went through: systemd took it, and it was done or skipped.
  abbrev pub Done : Act W (Unit {0}) → W → Type 0
  Done queue w =
      ((queue w).0 ≡ ok tt)
      × ((r : String) × ((bus.await_job (queue w).1).0 ≡ finished r)
          × ((str_eq r "done" || str_eq r "skipped") ≡ true))

  require_unit-ok :
      (name : String) (c : Error) (w : W)
      → (require_unit bus name c w).0 ≡ ok tt
      → (valid_unit name ≡ true) × ((require_unit bus name c w).1 ≡ w)
  require_unit-ok name c w = elim (Bool-cases (valid_unit name)) [
    | inl valid ↦ rw valid (λ _. (refl, refl))
    | inr invalid ↦ rw invalid (λ h. cc)
  ]

  -- If a job returns without an error, the unit name is valid, systemd took the job, and it
  -- reported the result done or skipped.
  pub job-Done :
      (op name : String) (w : W)
      → (job bus op name w).0 ≡ ok tt
      → (valid_unit name ≡ true) × Done (queue_job bus op name) w
  unfolding job
  job-Done op name w =
      bind_rule P (require_unit bus name (invalid_unit_name name)) _ w
        (λ _ named.
          let (valid, same) = require_unit-ok name (invalid_unit_name name) w named in
          bind_rule P (queue_job bus op name) (λ _. awaited bus op name) _
            λ _ queued _ h. (
              valid,
              subst (Done (queue_job bus op name)) same
                  (queued, job_result-finished op name (bus.await_job _).0 h),
            ))
        tt
    where
      P : Unit {0} → W → Type 0
      P _ _ = (valid_unit name ≡ true) × Done (queue_job bus op name) w
