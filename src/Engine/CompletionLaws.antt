-- ===== src/Engine/CompletionLaws.antt =====
-- `ExecutePlan` that reports no error, on a host of which only what succeeds is known.
use home_server_deployer.Prelude.{
  String, ◌≡◌, refl, sym, subst, ◌∙◌, Bool, true, false, ◌||◌, Bool-cases, inl, inr, none, [],
  str_eq, eq_iff, ltb, arith, if◌then◌else◌,
}
use home_server_deployer.Model.{Instance, Plan}
use home_server_deployer.Act.{Result, ok, err, ◌>>=◌}
use home_server_deployer.Act.Rules.{attempt_rule, if_rule}
use home_server_deployer.Engine.{Engine}
use home_server_deployer.Engine.Support.{sorted_resource_names, plan_digest}
use home_server_deployer.Engine.Transaction.{install, update, snapshot, ensure_dirs, upsert, remove}
use home_server_deployer.Engine.Execute.{
  Outcome, perform, report, perform_and_report, check_again, execute_read, execute_plan, with_plan,
  is_nil, detect_drift,
}
use home_server_deployer.Engine.Sources.{Sources, LeavesSources}
use home_server_deployer.Engine.LeavesLaws.{Quiet-ensure_dirs, Quiet-snapshot, Quiet-detect_drift}
use home_server_deployer.Engine.PerformLaws.{Applied}
use home_server_deployer.Engine.ExecuteLaws.{BeginsAt}
use home_server_deployer.Engine.SuccessLaws.{install-Leaves, update-Leaves, remove_read-Leaves}

module _ {W : Type 0} (e : Engine W) (source : W → Sources) (leaves : LeavesSources e source) where
  open e use {platform, state}

  -- If an operation reports success, it was applied in full.
  abbrev Achieves : Plan → W → Sources → Result (Unit {0}) × W → Type 0
  Achieves p v before r = r.0 ≡ ok tt → Applied e p v before (source r.1)

  upsert_body-Achieves :
      (p : Plan) (v : W) (app : home_server_deployer.Model.Catalog) (before : Sources) (b : Bool)
      → source (ensure_dirs e p.directories v).1 ≡ before
      → (b ≡ true → p.operation ≡ "update")
      → (b ≡ false → p.operation ≡ "install")
      → Achieves p v before (
          (if b
              then (state.get_instance p.instance_id >>= λ previous.
                  snapshot e (sorted_resource_names previous.resources) [] >>= λ old.
                  update e p app previous old)
              else install e p app)
            (ensure_dirs e p.directories v).1)
  upsert_body-Achieves p v app before true h op _ =
      attempt_rule (Achieves p v before) (state.get_instance p.instance_id) _ _
        (ensure_dirs e p.directories v).1
        (λ previous read.
          let names = sorted_resource_names previous.resources in
          let u = (state.get_instance p.instance_id (ensure_dirs e p.directories v).1).1 in
          let same : source (snapshot e names [] u).1 ≡ before =
            Quiet-snapshot e source leaves names [] u
            ∙ (leaves.quiet_get_instance p.instance_id _ ∙ h) in
          attempt_rule (Achieves p v before) (snapshot e names []) _ _ u
            (λ old _ done.
              subst
                (λ b.
                  Applied e p v b
                    (source (update e p app previous old (snapshot e names [] u).1).1))
                same
                (Applied.updated (op refl) previous read
                  (update-Leaves e source leaves p app previous old _ done)))
            (λ c _ done. cc))
        (λ c _ done. cc)
  upsert_body-Achieves p v app before false h _ op = λ done.
      subst (λ b. Applied e p v b (source (install e p app (ensure_dirs e p.directories v).1).1)) h
        (Applied.installed (op refl) (install-Leaves e source leaves p app _ done))

  upsert-Achieves :
      (p : Plan) (before : Sources) (w : W)
      → source w ≡ before
      → (str_eq p.operation "install" || str_eq p.operation "update") ≡ true
      → Achieves p w before (upsert e p w)
  unfolding upsert
  upsert-Achieves p before w h op =
      attempt_rule (Achieves p w before) (ensure_dirs e p.directories) _ _ w
        (λ _ _.
          upsert_body-Achieves p w _ before (str_eq p.operation "update")
            (Quiet-ensure_dirs e source leaves p.directories w ∙ h) (eq_iff p.operation "update").0
            (λ no_update. (eq_iff p.operation "install").0 (ground arith)))
        (λ c _ done. cc)

  remove-Achieves :
      (p : Plan) (before : Sources) (w : W)
      → source w ≡ before
      → p.operation ≡ "remove"
      → Achieves p w before (remove e p w)
  unfolding remove
  remove-Achieves p before w h op =
      attempt_rule (Achieves p w before) (state.get_instance p.instance_id) _ _ w
        (λ in' read done. Applied.removed op in' read (
          remove_read-Leaves e source leaves in' _ before _
            (leaves.quiet_get_instance p.instance_id w ∙ h) done))
        (λ c _ done. cc)

  perform-Achieves :
      (p : Plan) (before : Sources) (w : W)
      → source w ≡ before
      → Achieves p w before (perform e p w)
  unfolding perform
  perform-Achieves p before w h =
      elim (Bool-cases (str_eq p.operation "install" || str_eq p.operation "update")) [
        | inl upserts ↦ rw upserts (upsert-Achieves p before w h upserts)
        | inr other ↦ elim (Bool-cases (str_eq p.operation "remove")) [
          | inl removes ↦
              rw (other, removes)
                (remove-Achieves p before w h ((eq_iff p.operation "remove").0 removes))
          | inr unknown ↦ rw (other, unknown) (λ done. Applied.ignored (ground arith) h)
        ]
      ]

  -- The plan that was read was applied in full, from the world in which it began.
  abbrev pub Completed : Result Plan → W → Sources → W → Type 0
  Completed read w before end =
      (p : Plan) × (v : W) × (read ≡ ok p) × BeginsAt e p w v × Applied e p v before (source end)

  abbrev Completes : Result Plan → W → Sources → Outcome × W → Type 0
  Completes read w before r = r.0.error ≡ none → Completed read w before r.1

  report-Completes :
      (p : Plan) (u v : W) (before : Sources) (r : Result (Unit {0})) (w : W)
      → BeginsAt e p u v
      → Achieves p v before (r, w)
      → Completes (ok p) u before (report e p r w)
  unfolding report
  report-Completes p u v before (err c) w begins achieves h = cc
  report-Completes p u v before (ok tt) w begins achieves h = (
    p,
    v,
    refl,
    begins,
    subst (Applied e p v before) (sym (leaves.quiet_delete_plan p.id w)) (achieves refl),
  )

  performed-Completes :
      (p : Plan) (u : W) (before : Sources) (w : W)
      → BeginsAt e p u w
      → source w ≡ before
      → Completes (ok p) u before (perform_and_report e p w)
  unfolding perform_and_report
  performed-Completes p u before w begins h =
      report-Completes p u w before (perform e p w).0 (perform e p w).1 begins
        (perform-Achieves p before w h)

  check_again-Completes :
      (p : Plan) (u : W) (before : Sources) (r : Result Instance) (x : W)
      → ((in' : Instance) → r ≡ ok in' → BeginsAt e p u (detect_drift e in' x).1)
      → source x ≡ before
      → Completes (ok p) u before (check_again e p r x)
  unfolding check_again
  check_again-Completes p u before (err c) x begins h = λ k. cc
  check_again-Completes p u before (ok in') x begins h =
      if_rule (Completes (ok p) u before) (is_nil (detect_drift e in' x).0) _ _
        (performed-Completes p u before _ (begins in' refl)
          (Quiet-detect_drift e source leaves in' x ∙ h))
        (λ k. cc)

  installs-Completes :
      (p : Plan) (before : Sources) (w : W) (b : Bool)
      → str_eq p.operation "install" ≡ b
      → source w ≡ before
      → Completes (ok p) w before (
          if b
          then perform_and_report e p w
          else let (r, x) = state.get_instance p.instance_id w in check_again e p r x)
  installs-Completes p before w true op h = performed-Completes p w before w (BeginsAt.at_once op) h
  installs-Completes p before w false op h =
      check_again-Completes p w before (state.get_instance p.instance_id w).0 _
        (λ in' read. BeginsAt.after_look op in' read)
        (leaves.quiet_get_instance p.instance_id w ∙ h)

  execute_read-Completes :
      (p : Plan) (before : Sources) (w : W)
      → source w ≡ before
      → Completes (ok p) w before (execute_read e p w)
  unfolding execute_read
  execute_read-Completes p before w h =
      if_rule Q (ltb p.expires_at (platform.now w)) _ _ (λ k. cc)
        (if_rule Q (str_eq p.digest (plan_digest platform p)) _ _
          (if_rule Q (is_nil p.drift) _ _
            (installs-Completes p before w (str_eq p.operation "install") refl h) (λ k. cc))
          (λ k. cc))
    where
      Q : Outcome × W → Type 0
      Q = Completes (ok p) w before

  -- If ExecutePlan reports no error, the stored plan was applied in full to the sources.
  pub execute_plan-Completed :
      (id : String) (w : W)
      → (execute_plan e id w).0.error ≡ none
      → Completed (state.get_plan id w).0 (state.get_plan id w).1 (source w) (execute_plan e id w).1
  unfolding execute_plan
  execute_plan-Completed id w = go (state.get_plan id w).0
    where
      go :
          (r : Result Plan)
          → Completes r (state.get_plan id w).1 (source w) (with_plan e r (state.get_plan id w).1)
      go (err c) = λ h. cc
      go (ok p) = execute_read-Completes p (source w) _ (leaves.quiet_get_plan id w)
