-- ===== src/Engine/Execute.antt =====
-- internal/engine: `detectDrift` of engine.go, and `ExecutePlan` of transaction.go.
use home_server_deployer.Prelude.{
  String, Bool, true, false, ◌||◌, Option, none, some, List, [], ◌∷◌, str_eq, ltb, if◌then◌else◌,
}
use home_server_deployer.Prelude.Dict.{Dict, lookup}
use home_server_deployer.Model.{ResourceState, Instance, Plan, DriftRecord, OperationResult}
use home_server_deployer.Error.{
  Error, plan_expired, digest_mismatch, drift_detected, drift_appeared,
}
use home_server_deployer.Error.Message.{error_text}
use home_server_deployer.Act.{Result, ok, err, Act, pure}
use home_server_deployer.Engine.{Engine}
use home_server_deployer.Engine.Support.{hash, plan_digest, sorted_resource_names}
use home_server_deployer.Engine.Transaction.{upsert, remove}

-- `in.Resources[n].SHA256`, which is empty for a missing key
unfoldable pub expected_hash : Dict ResourceState → String → String
unfolding lookup
expected_hash m name = elim (lookup name m) [ none ↦ "" | some r ↦ r.sha256 ]

-- `ExecutePlan` returns its result beside an error.
pub record Outcome : Type 0 where
  pub result : OperationResult
  pub error : Option Error

abbrev pub zero_result : OperationResult
zero_result = record {
  plan_id = "";
  instance_id = "";
  operation = "";
  status = "";
  message = "";
  at = 0;
}

abbrev pub refused : Error → Outcome
refused c = record { result = zero_result; error = some c }

-- len(drift) > 0, negated
abbrev pub is_nil : List DriftRecord → Bool
is_nil [] = true
is_nil (_ ∷ _) = false

module _ {W : Type 0} (e : Engine W) where
  open e use {podman, state, platform}

  -- The hash of the source that the host has, or "missing".
  abbrev pub actual_hash : Result String → String
  actual_hash (ok s) = hash platform s
  actual_hash (err _) = "missing"

  unfoldable pub drift_of : Dict ResourceState → List String → W → List DriftRecord × W
  unfolding expected_hash hash
  drift_of resources [] w = ([], w)
  drift_of resources (n ∷ ns) w =
      let want = expected_hash resources n in
      let (r, w') = podman.get_quadlet n w in
      let got = actual_hash r in
      let (rest, w'') = drift_of resources ns w' in
      (
        (if str_eq got want
            then rest
            else record { resource = n; expected_hash = want; actual_hash = got } ∷ rest),
        w'',
      )

  unfoldable pub detect_drift : Instance → W → List DriftRecord × W
  unfolding drift_of sorted_resource_names
  detect_drift in' w = drift_of in'.resources (sorted_resource_names in'.resources) w

  -- The `switch` on the operation. An operation of no case does nothing.
  unfoldable pub perform : Plan → Act W (Unit {0})
  unfolding upsert remove
  perform p =
      if str_eq p.operation "install" || str_eq p.operation "update"
      then upsert e p
      else if str_eq p.operation "remove"
      then remove e p
      else pure tt

  -- The end of `ExecutePlan`: the result, and on success the deletion of the plan.
  unfoldable pub report : Plan → Result (Unit {0}) → W → Outcome × W
  unfolding error_text
  report p (err c) w = (
    record {
      result = record {
        plan_id = p.id;
        instance_id = p.instance_id;
        operation = p.operation;
        status = "failed";
        message = error_text platform.quote c;
        at = platform.now w;
      };
      error = some c;
    },
    w,
  )
  report p (ok _) w =
      let (_, w') = state.delete_plan p.id w in
      (
        record {
          result = record {
            plan_id = p.id;
            instance_id = p.instance_id;
            operation = p.operation;
            status = "succeeded";
            message = "";
            at = platform.now w;
          };
          error = none;
        },
        w',
      )

  unfoldable pub perform_and_report : Plan → W → Outcome × W
  unfolding perform report
  perform_and_report p w = let (r, w') = perform p w in report p r w'

  -- The second look at drift, which an install does not take.
  unfoldable pub check_again : Plan → Result Instance → W → Outcome × W
  unfolding detect_drift perform_and_report
  check_again p (err c) w = (refused c, w)
  check_again p (ok in') w =
      let (drift, w') = detect_drift in' w in
      let (r, w'') = perform_and_report p w' in
      if is_nil drift then (r, w'') else (refused (drift_appeared p.operation), w')

  unfoldable pub execute_read : Plan → W → Outcome × W
  unfolding check_again perform_and_report plan_digest
  execute_read p w =
      if ltb p.expires_at (platform.now w)
      then (refused plan_expired, w)
      else if str_eq p.digest (plan_digest platform p)
      then (if is_nil p.drift
          then (if str_eq p.operation "install"
              then perform_and_report p w
              else let (r, w') = state.get_instance p.instance_id w in check_again p r w')
          else (refused (drift_detected p.operation), w))
      else (refused digest_mismatch, w)

  abbrev pub with_plan : Result Plan → W → Outcome × W
  with_plan (err c) w = (refused c, w)
  with_plan (ok p) w = execute_read p w

  unfoldable pub execute_plan : String → W → Outcome × W
  unfolding execute_read
  execute_plan id w = let (r, w') = state.get_plan id w in with_plan r w'
