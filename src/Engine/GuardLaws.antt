-- ===== src/Engine/GuardLaws.antt =====
-- What `ExecutePlan` tests before it changes anything.
use home_server_deployer.Prelude.{
  String, ◌≡◌, refl, ◌∙◌, ◌⊎◌, inl, inr, true, some, List, [], ◌∷◌, str_eq, eq_iff, ltb, ◌≤◌, arith,
  Bool-cases,
}
use home_server_deployer.Prelude.Dict.{Dict}
use home_server_deployer.Model.{Instance, Plan, ResourceState, DriftRecord}
use home_server_deployer.Error.{
  Error, plan_expired, digest_mismatch, drift_detected, drift_appeared,
}
use home_server_deployer.Act.{Result, ok, err}
use home_server_deployer.Act.Rules.{Quiet}
use home_server_deployer.Engine.{Engine}
use home_server_deployer.Engine.Support.{sorted_resource_names, plan_digest}
use home_server_deployer.Engine.Execute.{
  Outcome, check_again, execute_read, execute_plan, with_plan, is_nil, detect_drift, drift_of,
}

is_nil-eq : (ds : List DriftRecord) → is_nil ds ≡ true → ds ≡ []
is_nil-eq [] h = refl
is_nil-eq (d ∷ ds) h = cc

module _ {W V : Type 0} (e : Engine W) (view : W → V) where
  open e use {podman, platform, state}

  -- The look at drift that an update or a removal takes, in the world after the reading of the plan.
  abbrev pub CheckedAgain : Plan → W → Type 0
  CheckedAgain p w =
      (in' : Instance) × ((state.get_instance p.instance_id w).0 ≡ ok in')
      × ((detect_drift e in' (state.get_instance p.instance_id w).1).0 ≡ [])

  -- The plan may run.
  abbrev pub Cleared : Plan → W → Type 0
  Cleared p w =
      (platform.now w ≤ p.expires_at)
      × (p.digest ≡ plan_digest platform p)
      × (p.drift ≡ [])
      × ((p.operation ≡ "install") ⊎ CheckedAgain p w)

  -- An error, and the view is as before.
  abbrev pub Untouched : W → Outcome × W → Type 0
  Untouched w r = ((c : Error) × (r.0.error ≡ some c)) × (view r.1 ≡ view w)

  module _ (quiet_plan : (id : String) → Quiet view (state.get_plan id))
      (quiet_instance : (id : String) → Quiet view (state.get_instance id))
      (quiet_source : (name : String) → Quiet view (podman.get_quadlet name)) where
    drift_of-quiet :
        (resources : Dict ResourceState) (ns : List String) (w : W)
        → view (drift_of e resources ns w).1 ≡ view w
    unfolding drift_of
    drift_of-quiet resources [] w = refl
    drift_of-quiet resources (n ∷ ns) w =
        drift_of-quiet resources ns (podman.get_quadlet n w).1 ∙ quiet_source n w

    detect_drift-quiet : (in' : Instance) (w : W) → view (detect_drift e in' w).1 ≡ view w
    unfolding detect_drift
    detect_drift-quiet in' w = drift_of-quiet in'.resources (sorted_resource_names in'.resources) w

    again-guards :
        (p : Plan) (w : W) (r : Result Instance) (v : W)
        → view v ≡ view w
        → Untouched w (check_again e p r v)
          ⊎ ((in' : Instance) × (r ≡ ok in') × ((detect_drift e in' v).0 ≡ []))
    unfolding check_again
    again-guards p w (err c) v h = inl ((c, refl), h)
    again-guards p w (ok in') v h = elim (Bool-cases (is_nil (detect_drift e in' v).0)) [
      | inl clean ↦ inr (in', refl, is_nil-eq _ clean)
      | inr dirty ↦
          rw (dirty) (inl ((drift_appeared p.operation, refl), detect_drift-quiet in' v ∙ h))
    ]

    -- An update or a removal.
    later-guards :
        (p : Plan) (w v : W)
        → view v ≡ view w
        → platform.now v ≤ p.expires_at
        → p.digest ≡ plan_digest platform p
        → p.drift ≡ []
        → Untouched w (
            check_again e p
              (state.get_instance p.instance_id v).0
              (state.get_instance p.instance_id v).1)
          ⊎ Cleared p v
    later-guards p w v h in_time same clean =
        elim (again-guards p w (state.get_instance p.instance_id v).0 _
          (quiet_instance p.instance_id v ∙ h)) [
            | inl untouched ↦ inl untouched
            | inr again ↦ inr (in_time, same, clean, inr again)
          ]

    read-guards :
        (p : Plan) (w v : W) → view v ≡ view w → Untouched w (execute_read e p v) ⊎ Cleared p v
    unfolding execute_read
    read-guards p w v h = elim (Bool-cases (ltb p.expires_at (platform.now v))) [
      | inl late ↦ rw (late) (inl ((plan_expired, refl), h))
      | inr in_time ↦ elim (Bool-cases (str_eq p.digest (plan_digest platform p))) [
        | inr other ↦ rw (in_time, other) (inl ((digest_mismatch, refl), h))
        | inl same ↦ elim (Bool-cases (is_nil p.drift)) [
          | inr dirty ↦ rw (in_time, same, dirty) (inl ((drift_detected p.operation, refl), h))
          | inl clean ↦ elim (Bool-cases (str_eq p.operation "install")) [
            | inl new ↦ inr (
              ground (arith, in_time),
              (eq_iff p.digest (plan_digest platform p)).0 same,
              is_nil-eq p.drift clean,
              inl ((eq_iff p.operation "install").0 new),
            )
            | inr later ↦
                rw (in_time, same, clean, later)
                  (later-guards p w v h (ground (arith, in_time))
                    ((eq_iff p.digest (plan_digest platform p)).0 same) (is_nil-eq p.drift clean))
          ]
        ]
      ]
    ]

    -- For every view of the host that reading a plan, an instance or a source leaves alone:
    -- ExecutePlan either reports an error and leaves the view as it was, or the stored plan had
    -- not expired, its digest was the digest of its contents, it recorded no drift, and it was an
    -- install or a second look at the stored instance found no drift.
    pub execute_plan-guards :
        (id : String) (w : W)
        → Untouched w (execute_plan e id w)
          ⊎ ((p : Plan) × ((state.get_plan id w).0 ≡ ok p) × Cleared p (state.get_plan id w).1)
    unfolding execute_plan
    execute_plan-guards id w = go (state.get_plan id w).0
      where
        go :
            (r : Result Plan)
            → Untouched w (with_plan e r (state.get_plan id w).1)
              ⊎ ((p : Plan) × (r ≡ ok p) × Cleared p (state.get_plan id w).1)
        go (err c) = inl ((c, refl), quiet_plan id w)
        go (ok p) = elim (read-guards p w _ (quiet_plan id w)) [
          | inl untouched ↦ inl untouched
          | inr cleared ↦ inr (p, refl, cleared)
        ]
