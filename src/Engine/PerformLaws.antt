-- ===== src/Engine/PerformLaws.antt =====
-- How the operation of a plan can end.
use home_server_deployer.Prelude.{
  String, ◌≡◌, refl, sym, subst, ap, ◌∙◌, ◌⊎◌, inl, inr, Bool, true, false, ◌||◌, Bool-cases, List,
  [], str_eq, arith, eq_iff, if◌then◌else◌,
}
use home_server_deployer.Model.{Instance, Catalog, Plan}
use home_server_deployer.Error.{Error}
use home_server_deployer.Act.{Result, ok, err, ◌>>=◌}
use home_server_deployer.Act.Rules.{attempt_rule}
use home_server_deployer.Engine.{Engine}
use home_server_deployer.Engine.Support.{sorted_resource_names}
use home_server_deployer.Engine.Transaction.{install, update, snapshot, ensure_dirs, upsert, remove}
use home_server_deployer.Engine.Execute.{perform}
use home_server_deployer.Engine.Sources.{Sources, IsLawful, without_all, with_all}
use home_server_deployer.Engine.Restore.{IsSnapshot, snapshot-IsSnapshot}
use home_server_deployer.Engine.RollbackLaws.{RollbackFailed}
use home_server_deployer.Engine.TransactionLaws.{Settled}
use home_server_deployer.Engine.InstallLaws.{install-settles}
use home_server_deployer.Engine.UpdateLaws.{update-settles}
use home_server_deployer.Engine.RemoveLaws.{remove_read-settles}
use home_server_deployer.Engine.LeavesLaws.{
  Quiet-ensure_dirs, Quiet-save_and_document, Quiet-snapshot,
}

-- The sources after a plan was carried out in full, from those before it. `v` is the world in which
-- it began: a removal reads the instance there, and an update does so once the directories are made.
pub data Applied {W : Type 0} (e : Engine W) (p : Plan) (v : W) (before after : Sources)
    : Type 0 where
  installed :
      p.operation ≡ "install" → after ≡ with_all p.resources before → Applied e p v before after
  updated :
      p.operation ≡ "update"
      → (previous : Instance)
      → (e.state.get_instance p.instance_id (ensure_dirs e p.directories v).1).0 ≡ ok previous
      → after ≡ with_all p.resources (without_all (sorted_resource_names previous.resources) before)
      → Applied e p v before after
  removed :
      p.operation ≡ "remove"
      → (in' : Instance) → (e.state.get_instance p.instance_id v).0 ≡ ok in'
      → after ≡ without_all (sorted_resource_names in'.resources) before
      → Applied e p v before after
  -- an operation of no case
  ignored :
      (str_eq p.operation "install" || (str_eq p.operation "update" || str_eq p.operation "remove"))
        ≡ false
      → after ≡ before
      → Applied e p v before after

module _ {W : Type 0} (e : Engine W) (source : W → Sources) (lawful : IsLawful e source) where
  open e use {podman, systemd, platform, state, catalog}

  -- A plan's operation ends with a report that the rollback failed too, with an error and every
  -- source as before, or with the plan applied in full.
  abbrev pub Ended : Plan → W → Sources → Result (Unit {0}) × W → Type 0
  Ended p v before r =
      RollbackFailed r.0
      ⊎ (((c : Error) × (r.0 ≡ err c)) × (source r.1 ≡ before))
      ⊎ Applied e p v before (source r.1)

  Ended-Settled :
      (p : Plan) (v : W) (app : Catalog) (before after : Sources) (r : Result (Unit {0}) × W)
      → ((now : Sources) → now ≡ after → Applied e p v before now)
      → Settled e source before after app r
      → Ended p v before r
  Ended-Settled p v app before after r apply (inl failed) = inl failed
  Ended-Settled p v app before after r apply (inr (inl unchanged)) = inr (inl unchanged)
  Ended-Settled p v app before after r apply (inr (inr (in', u, new, last))) = inr (
      inr (
        apply (source r.1) (
          ap (λ (x : Result (Unit {0}) × W). source x.1) last
          ∙ (Quiet-save_and_document e source lawful.leaves in' app u ∙ new))))

  install-ends :
      (p : Plan) (v : W) (app : Catalog) (before : Sources) (w : W)
      → source w ≡ before
      → p.operation ≡ "install"
      → Ended p v before (install e p app w)
  install-ends p v app before w h op =
      subst (λ b. Ended p v b (install e p app w)) h
        (Ended-Settled p v app (source w) _ _ (λ now. Applied.installed op)
          (install-settles e source lawful p app w))

  update-ends :
      (p : Plan) (v : W) (app : Catalog) (previous : Instance) (before : Sources) (w : W)
      → source w ≡ before
      → p.operation ≡ "update"
      → (state.get_instance p.instance_id (ensure_dirs e p.directories v).1).0 ≡ ok previous
      → Ended p v before (
          (snapshot e (sorted_resource_names previous.resources) [] >>= λ old.
          update e p app previous old)
            w)
  update-ends p v app previous before w h op read =
      attempt_rule (Ended p v before) (snapshot e names []) _ _ w
        (λ old copied.
          let u = (snapshot e names [] w).1 in
          let q = Quiet-snapshot e source lawful.leaves names [] w in
          subst (λ b. Ended p v b (update e p app previous old u)) (q ∙ h)
            (Ended-Settled p v app (source u) _ _ (λ now. Applied.updated op previous read)
              (update-settles e source lawful p app previous old u (
                subst (IsSnapshot names old) (sym q)
                  (snapshot-IsSnapshot e source lawful names w old copied)))))
        (λ c _. inr (inl ((c, refl), Quiet-snapshot e source lawful.leaves names [] w ∙ h)))
    where
      names : List String
      names = sorted_resource_names previous.resources

  -- What `upsert` does once the directories are made.
  upsert_body-ends :
      (p : Plan) (v : W) (app : Catalog) (before : Sources) (b : Bool)
      → source (ensure_dirs e p.directories v).1 ≡ before
      → (b ≡ true → p.operation ≡ "update")
      → (b ≡ false → p.operation ≡ "install")
      → Ended p v before (
          (if b
              then (state.get_instance p.instance_id >>= λ previous.
                  snapshot e (sorted_resource_names previous.resources) [] >>= λ old.
                  update e p app previous old)
              else install e p app)
            (ensure_dirs e p.directories v).1)
  upsert_body-ends p v app before true h op _ =
      attempt_rule (Ended p v before) (state.get_instance p.instance_id) _ _
        (ensure_dirs e p.directories v).1
        (λ previous read.
          update-ends p v app previous before _
            (lawful.leaves.quiet_get_instance p.instance_id _ ∙ h) (op refl) read)
        (λ c _. inr (inl ((c, refl), lawful.leaves.quiet_get_instance p.instance_id _ ∙ h)))
  upsert_body-ends p v app before false h _ op = install-ends p v app before _ h (op refl)

  upsert-ends :
      (p : Plan) (before : Sources) (w : W)
      → source w ≡ before
      → (str_eq p.operation "install" || str_eq p.operation "update") ≡ true
      → Ended p w before (upsert e p w)
  unfolding upsert
  upsert-ends p before w h op =
      attempt_rule (Ended p w before) (ensure_dirs e p.directories) _ _ w
        (λ _ _.
          upsert_body-ends p w _ before (str_eq p.operation "update")
            (Quiet-ensure_dirs e source lawful.leaves p.directories w ∙ h)
            (eq_iff p.operation "update").0
            (λ no_update. (eq_iff p.operation "install").0 (ground arith)))
        (λ c _. inr (inl ((c, refl), Quiet-ensure_dirs e source lawful.leaves p.directories w ∙ h)))

  remove-ends :
      (p : Plan) (before : Sources) (w : W)
      → source w ≡ before
      → p.operation ≡ "remove"
      → Ended p w before (remove e p w)
  unfolding remove
  remove-ends p before w h op =
      attempt_rule (Ended p w before) (state.get_instance p.instance_id) _ _ w
        (λ in' read.
          Ended-Settled p w _ before _ _ (λ now. Applied.removed op in' read)
            (remove_read-settles e source lawful in' _ before _
              (lawful.leaves.quiet_get_instance p.instance_id w ∙ h)))
        (λ c _. inr (inl ((c, refl), lawful.leaves.quiet_get_instance p.instance_id w ∙ h)))

  pub perform-ends :
      (p : Plan) (before : Sources) (w : W) → source w ≡ before → Ended p w before (perform e p w)
  unfolding perform
  perform-ends p before w h =
      elim (Bool-cases (str_eq p.operation "install" || str_eq p.operation "update")) [
        | inl upserts ↦ rw upserts (upsert-ends p before w h upserts)
        | inr other ↦ elim (Bool-cases (str_eq p.operation "remove")) [
          | inl removes ↦
              rw (other, removes)
                (remove-ends p before w h ((eq_iff p.operation "remove").0 removes))
          | inr unknown ↦ rw (other, unknown) (inr (inr (Applied.ignored (ground arith) h)))
        ]
      ]
