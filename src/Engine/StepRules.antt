-- ===== src/Engine/StepRules.antt =====
-- Rules for the steps of a transaction that leave the sources alone.
use home_server_deployer.Prelude.{
  String, ◌≡◌, ◌∙◌, List, [], ◌∷◌, ◌++◌, Bool-cases, Option-cases, inl, inr,
}
use home_server_deployer.Prelude.Dict.{Dict}
use home_server_deployer.Model.{Instance, Catalog, Quadlet, RenderedResource, ResourceState}
use home_server_deployer.Error.{Error}
use home_server_deployer.Act.{Act, Result, raise, attempt, each}
use home_server_deployer.Act.Rules.{Quiet, attempt_rule, each_rule}
use home_server_deployer.Engine.{Engine}
use home_server_deployer.Engine.Support.{
  unit_for, quadlet_map, verify_unit_active, capture_resources,
}
use home_server_deployer.Engine.Transaction.{start_each, save_and_document}
use home_server_deployer.Engine.Sources.{Sources, LeavesSources}
use home_server_deployer.Engine.LeavesLaws.{Quiet-verify, Quiet-capture, Quiet-quadlet_map}

-- The end of an install or an update, with what both have in common as arguments.
module _ {W : Type 0} (e : Engine W) (app : Catalog) where
  open e use {podman, systemd, platform}

  abbrev pub finish :
      (List String → Error → Act W (Unit {0}))
      → List RenderedResource
      → (Dict ResourceState → W → Instance)
      → List String
      → Act W (Unit {0})
  finish fail rs instance_of started =
      attempt (capture_resources platform podman rs) (fail started)
        λ resources v. save_and_document e (instance_of resources v) app v

  abbrev pub activation :
      (String → Act W (Unit {0}))
      → (List String → Error → Act W (Unit {0}))
      → List RenderedResource
      → (Dict ResourceState → W → Instance)
      → Act W (Unit {0})
  activation launch fail rs instance_of = attempt systemd.reload (fail []) λ _.
      attempt (quadlet_map podman) (fail [])
        λ qm. start_each e launch fail (finish fail rs instance_of) qm rs []

module _ {W : Type 0} (e : Engine W) (source : W → Sources) (leaves : LeavesSources e source) where
  open e use {podman, systemd, platform}

  -- Starting and verifying the units leaves the sources alone.
  module _ (Q : Result (Unit {0}) × W → Type 0) (now : Sources) (launch : String → Act W (Unit {0}))
      (quiet : (unit : String) → Quiet source (launch unit))
      (fail : List String → Error → Act W (Unit {0})) (next : List String → Act W (Unit {0}))
      (at_fail : (started : List String) (c : Error) (w : W)
        → source w ≡ now
        → Q (fail started c w))
      (at_end : (started : List String) (w : W) → source w ≡ now → Q (next started w))
      (qm : Dict Quadlet) where
    pub start_each_rule :
        (rs : List RenderedResource) (started : List String) (w : W)
        → source w ≡ now
        → Q (start_each e launch fail next qm rs started w)
    unfolding start_each
    start_each_rule [] started w h = at_end started w h
    start_each_rule (r ∷ rs) started w h = elim (Bool-cases r.start) [
      | inl marked ↦ elim (Option-cases (unit_for qm r.name)) [
        | inl missing ↦ rw (marked, missing, start_each) (at_fail started _ w h)
        | inr (unit, found) ↦
            rw (marked, found, start_each)
              (attempt_rule Q (launch unit) _ _ w
                (λ _ _.
                  attempt_rule Q (verify_unit_active systemd unit) _ _ (launch unit w).1
                    (λ _ _.
                      start_each_rule rs (started ++ unit ∷ []) _
                        (Quiet-verify e source leaves unit _ ∙ (quiet unit w ∙ h)))
                    (λ c _.
                      at_fail (started ++ unit ∷ []) c _
                        (Quiet-verify e source leaves unit _ ∙ (quiet unit w ∙ h))))
                (λ c _. at_fail (started ++ unit ∷ []) c _ (quiet unit w ∙ h)))
      ]
      | inr unmarked ↦ rw (unmarked, start_each) (start_each_rule rs started w h)
    ]

  -- Stopping units, which comes first, leaves the sources alone; on an error nothing else is done.
  pub stop_all_rule :
      (Q : Result (Unit {0}) × W → Type 0) (before : Sources)
      (next : List String → Act W (Unit {0}))
      → ((c : Error) (w : W) → source w ≡ before → Q (raise c w))
      → ((stopped : List String) (w : W) → source w ≡ before → Q (next stopped w))
      → (units : List String) (w : W) → source w ≡ before
      → Q (each (λ (u : String). u) systemd.stop_unit (λ _. raise) next units [] w)
  stop_all_rule Q before next at_fail at_end units w h =
      each_rule Q (λ _ _ v. source v ≡ before) (λ (u : String). u) systemd.stop_unit (λ _. raise)
        next (λ _ u _ v i _ _. leaves.quiet_stop u v ∙ i)
        (λ _ u _ v i c _. at_fail c _ (leaves.quiet_stop u v ∙ i))
        (λ stopped v i. at_end stopped v i) units [] w h

  -- The end of an install or an update, for any goal: reload, look up the units, start them and
  -- record the result.
  module _ (Q : Result (Unit {0}) × W → Type 0) (after : Sources) (app : Catalog)
      (launch : String → Act W (Unit {0})) (quiet : (unit : String) → Quiet source (launch unit))
      (fail : List String → Error → Act W (Unit {0}))
      (at_fail : (started : List String) (c : Error) (w : W)
        → source w ≡ after
        → Q (fail started c w))
      (at_end : (in' : Instance) (v : W) → source v ≡ after → Q (save_and_document e in' app v))
      (rs : List RenderedResource) (instance_of : Dict ResourceState → W → Instance) where
    finish_rule :
        (started : List String) (w : W)
        → source w ≡ after
        → Q (finish e app fail rs instance_of started w)
    finish_rule started w h =
        attempt_rule Q (capture_resources platform podman rs) _ _ w
          (λ resources _. at_end _ _ (Quiet-capture e source leaves rs w ∙ h))
          (λ c _. at_fail started c _ (Quiet-capture e source leaves rs w ∙ h))

    pub activation_rule :
        (w : W) → source w ≡ after → Q (activation e app launch fail rs instance_of w)
    activation_rule w h =
        attempt_rule Q systemd.reload _ _ w
          (λ _ _.
            attempt_rule Q (quadlet_map podman) _ _ _
              (λ qm _.
                start_each_rule Q after launch quiet fail (finish e app fail rs instance_of) at_fail
                  finish_rule qm rs [] _
                  (Quiet-quadlet_map e source leaves _ ∙ (leaves.quiet_reload w ∙ h)))
              (λ c _.
                at_fail [] c _ (Quiet-quadlet_map e source leaves _ ∙ (leaves.quiet_reload w ∙ h))))
          (λ c _. at_fail [] c _ (leaves.quiet_reload w ∙ h))
