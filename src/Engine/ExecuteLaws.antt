-- ===== src/Engine/ExecuteLaws.antt =====
-- How `ExecutePlan` can end.
use home_server_deployer.Prelude.{
  if◌then◌else◌, String, ◌≡◌, refl, sym, subst, ◌∙◌, ◌⊎◌, inl, inr, Bool, true, false, some, str_eq,
  ltb, arith,
}
use home_server_deployer.Model.{Instance, Plan}
use home_server_deployer.Error.{
  Error, rollback_failed, plan_expired, digest_mismatch, drift_detected, drift_appeared,
}
use home_server_deployer.Act.{Result, ok, err}
use home_server_deployer.Act.Rules.{if_rule}
use home_server_deployer.Engine.{Engine}
use home_server_deployer.Engine.Support.{plan_digest}
use home_server_deployer.Engine.Execute.{
  Outcome, perform, report, perform_and_report, check_again, execute_read, execute_plan, with_plan,
  is_nil, refused, detect_drift,
}
use home_server_deployer.Engine.Sources.{Sources, IsLawful}
use home_server_deployer.Engine.PerformLaws.{Applied, Ended, perform-ends}
use home_server_deployer.Engine.LeavesLaws.{Quiet-detect_drift}

-- The world in which a plan that was read in `w` begins: an install begins at once, all others
-- after the instance was read and its drift was looked for.
pub data BeginsAt {W : Type 0} (e : Engine W) (p : Plan) (w : W) : W → Type 0 where
  at_once : str_eq p.operation "install" ≡ true → BeginsAt e p w w
  after_look :
      str_eq p.operation "install" ≡ false
      → (in' : Instance) → (e.state.get_instance p.instance_id w).0 ≡ ok in'
      → BeginsAt e p w (detect_drift e in' (e.state.get_instance p.instance_id w).1).1

module _ {W : Type 0} (e : Engine W) (source : W → Sources) (lawful : IsLawful e source) where
  open e use {podman, platform, state}

  -- What `ExecutePlan` reports, and the sources that it leaves. `w` is the world in which the plan
  -- was read.
  abbrev pub Concluded : Result Plan → W → Sources → Outcome × W → Type 0
  Concluded read w before r =
      ((cause rest : Error) × (r.0.error ≡ some (rollback_failed cause rest)))
      ⊎ (((c : Error) × (r.0.error ≡ some c)) × (source r.1 ≡ before))
      ⊎ ((p : Plan) × (v : W) × (read ≡ ok p)
          × BeginsAt e p w v
          × Applied e p v before (source r.1))

  report-concludes :
      (p : Plan) (u v : W) (before : Sources) (r : Result (Unit {0})) (w : W)
      → BeginsAt e p u v
      → Ended e source lawful p v before (r, w)
      → Concluded (ok p) u before (report e p r w)
  unfolding report
  report-concludes p u v before (err c) w begins (inl (cause, rest, failed)) =
      inl (cause, rest, ground arith)
  report-concludes p u v before (err c) w begins (inr (inl (_, unchanged))) =
      inr (inl ((c, refl), unchanged))
  report-concludes p u v before (err c) w begins (inr (inr applied)) =
      inr (inr (p, v, refl, begins, applied))
  report-concludes p u v before (ok a) w begins (inl (cause, rest, failed)) = cc
  report-concludes p u v before (ok a) w begins (inr (inl ((c, failed), unchanged))) = cc
  report-concludes p u v before (ok a) w begins (inr (inr applied)) = inr (
      inr (
        p,
        v,
        refl,
        begins,
        subst (Applied e p v before) (sym (lawful.leaves.quiet_delete_plan p.id w)) applied,
      ))

  performed-concludes :
      (p : Plan) (u : W) (before : Sources) (w : W)
      → BeginsAt e p u w
      → source w ≡ before
      → Concluded (ok p) u before (perform_and_report e p w)
  unfolding perform_and_report
  performed-concludes p u before w begins h =
      report-concludes p u w before (perform e p w).0 (perform e p w).1 begins
        (perform-ends e source lawful p before w h)

  -- The second look is taken in the world `x` that the reading of the instance left.
  check_again-concludes :
      (p : Plan) (u : W) (before : Sources) (r : Result Instance) (x : W)
      → ((in' : Instance) → r ≡ ok in' → BeginsAt e p u (detect_drift e in' x).1)
      → source x ≡ before
      → Concluded (ok p) u before (check_again e p r x)
  unfolding check_again
  check_again-concludes p u before (err c) x begins h = inr (inl ((c, refl), h))
  check_again-concludes p u before (ok in') x begins h =
      if_rule (Concluded (ok p) u before) (is_nil (detect_drift e in' x).0) _ _
        (performed-concludes p u before _ (begins in' refl) (q ∙ h))
        (inr (inl ((drift_appeared p.operation, refl), q ∙ h)))
    where
      q : source (detect_drift e in' x).1 ≡ source x
      q = Quiet-detect_drift e source lawful.leaves in' x

  installs-concludes :
      (p : Plan) (before : Sources) (w : W) (b : Bool)
      → str_eq p.operation "install" ≡ b
      → source w ≡ before
      → Concluded (ok p) w before (
          if b
          then perform_and_report e p w
          else let (r, x) = state.get_instance p.instance_id w in check_again e p r x)
  installs-concludes p before w true op h = performed-concludes p w before w (BeginsAt.at_once op) h
  installs-concludes p before w false op h =
      check_again-concludes p w before (state.get_instance p.instance_id w).0 _
        (λ in' read. BeginsAt.after_look op in' read)
        (lawful.leaves.quiet_get_instance p.instance_id w ∙ h)

  execute_read-concludes :
      (p : Plan) (before : Sources) (w : W)
      → source w ≡ before
      → Concluded (ok p) w before (execute_read e p w)
  unfolding execute_read
  execute_read-concludes p before w h =
      if_rule Q (ltb p.expires_at (platform.now w)) _ _ (refusal plan_expired) (
        if_rule Q (str_eq p.digest (plan_digest platform p)) _ _
          (if_rule Q (is_nil p.drift) _ _
            (installs-concludes p before w (str_eq p.operation "install") refl h)
            (refusal (drift_detected p.operation)))
          (refusal digest_mismatch))
    where
      Q : Outcome × W → Type 0
      Q = Concluded (ok p) w before

      refusal : (c : Error) → Q (refused c, w)
      refusal c = inr (inl ((c, refl), h))

  -- On a host that keeps to the laws of IsLawful (a call of Podman that succeeds has written or
  -- removed its file, one that fails has changed none, a source that is read is read whole, and
  -- nothing else touches a source), ExecutePlan ends in one of three ways: with an error that
  -- says that the rollback failed as well; with an error, and every Quadlet source as it was; or
  -- with the stored plan applied in full. An install then has written all of the plan's
  -- resources; an update has removed all sources of the instance that the store gave it after the
  -- second look and the making of the directories, and written the plan's; a removal has removed
  -- all sources of the instance that the store gave it after the second look; a plan of another
  -- operation has changed nothing.
  pub execute_plan-concludes :
      (id : String) (w : W)
      → Concluded (state.get_plan id w).0 (state.get_plan id w).1 (source w) (execute_plan e id w)
  unfolding execute_plan
  execute_plan-concludes id w = go (state.get_plan id w).0
    where
      go :
          (r : Result Plan)
          → Concluded r (state.get_plan id w).1 (source w) (with_plan e r (state.get_plan id w).1)
      go (err c) = inr (inl ((c, refl), lawful.leaves.quiet_get_plan id w))
      go (ok p) = execute_read-concludes p (source w) _ (lawful.leaves.quiet_get_plan id w)
