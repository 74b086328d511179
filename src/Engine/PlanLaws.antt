-- ===== src/Engine/PlanLaws.antt =====
-- What a plan of `CreatePlan` is good for.
use home_server_deployer.Prelude.{
  ◌+◌, String, ◌≡◌, refl, ap, subst, ◌⊎◌, inl, inr, Bool, true, false, not, ◌&&◌, Option, none,
  some, List, [], ◌∷◌, str_eq, contains, All, arith, Bool-cases, eq_iff,
}
use home_server_deployer.Prelude.Dict.{Dict, lookup}
use home_server_deployer.Model.{
  Catalog, PodmanCapabilities, DirectorySpec, Instance, PlanRequest, Plan, RenderedResource,
  ResolvedDirectory, DriftRecord,
}
use home_server_deployer.Error.{Error}
use home_server_deployer.Act.{ok, ok-injective, lift, gets}
use home_server_deployer.Act.Rules.{Yields, bind_rule}
use home_server_deployer.Names.{engine_safe_id}
use home_server_deployer.Paths.{Root, resolve}
use home_server_deployer.Podman.Version.{is_supported_version}
use home_server_deployer.Catalog.Parameters.{resolve_parameters}
use home_server_deployer.Catalog.Store.{get_app}
use home_server_deployer.Engine.{Engine}
use home_server_deployer.Engine.Support.{plan_digest, new_id}
use home_server_deployer.Engine.PlanParts.{
  plan_lifetime, refuse_if, refuse_foreign, require, make_plan, chosen_parameters,
}
use home_server_deployer.Engine.Planning.{
  find_instance, resolve_dirs, plan_contents, check_host, finish_plan, build_plan, create_plan,
  with_digest, plan_drift,
}

true_of_not : (b : Bool) → not b ≡ false → b ≡ true
true_of_not true h = refl
true_of_not false h = cc

module _ {W : Type 0} where
  -- What is known where a test has passed.
  refuse_if-eq :
      (b : Bool) (c : Error) (w : W) (a : Unit {0}) → (refuse_if b c w).0 ≡ ok a → b ≡ false
  refuse_if-eq true c w a h = cc
  refuse_if-eq false c w a h = refl

  require-eq :
      {A : Type 0} (o : Option A) (c : Error) (w : W) (a : A)
      → (require o c w).0 ≡ ok a
      → o ≡ some a
  require-eq none c w a h = cc
  require-eq (some b) c w a h = ap some (ok-injective h)

module _ {W : Type 0} (e : Engine W) where
  open e use {podman, catalog, roots, security, platform, state}

  -- A directory that its approved root allows, mounted the way its intent says.
  abbrev pub IsApproved : ResolvedDirectory → Type 0
  IsApproved d =
      (root : Root) × (lookup d.root_id roots ≡ some root)
      × (resolve root d.relative_path ≡ ok (d.agent_path, d.host_path))
      × (security.mount_suffix d.security_intent d.read_only ≡ ok d.mount_suffix)

  resolve_dirs-IsApproved :
      (ds : List DirectorySpec) (params : Dict String) (w : W)
      → Yields (λ out _. All IsApproved out) (resolve_dirs e ds params w)
  unfolding resolve_dirs
  resolve_dirs-IsApproved [] params w = λ out h. subst (All IsApproved) (ok-injective h) tt
  resolve_dirs-IsApproved (d ∷ ds) params w = bind_rule P _ _ w λ root known.
      bind_rule P _ _ _ λ both resolved. bind_rule P _ _ _ λ suffix mounted.
        bind_rule P _ _ _ λ rest gone out h. subst (All IsApproved) (ok-injective h) (
          (root, require-eq _ _ w root known, resolved, mounted),
          resolve_dirs-IsApproved ds params _ rest gone,
        )
    where
      P : List ResolvedDirectory → W → Type 0
      P out v = All IsApproved out

  plan_contents-IsApproved :
      (r : PlanRequest) (old : Option Instance) (app : Catalog) (params : Dict String) (w : W)
      → Yields
          (λ c _. (r.operation ≡ "remove") ⊎ All IsApproved c.0)
          (plan_contents e r old app params w)
  unfolding plan_contents
  plan_contents-IsApproved r old app params w = elim (Bool-cases (str_eq r.operation "remove")) [
    | inl last ↦ rw (last) (λ c h. inl ((eq_iff r.operation "remove").0 last))
    | inr more ↦ rw (more) (
        bind_rule P _ _ w λ directories resolved. bind_rule P _ _ _ λ resources rendered c h. inr (
          subst (λ x. All IsApproved x.0) (ok-injective h)
            (resolve_dirs-IsApproved app.spec.directories params w directories resolved)))
  ]
    where
      P : List ResolvedDirectory × List RenderedResource → W → Type 0
      P c v = (r.operation ≡ "remove") ⊎ All IsApproved c.0

  -- The plan's file was written, and `v` is the world after that.
  abbrev pub IsSaved : Plan → W → Type 0
  IsSaved p v = (u : W) × (state.save_plan p u ≡ (ok tt, v))

  -- Podman reported a version that the product supports.
  abbrev pub HostFits : Type 0
  HostFits =
      (v : W) × (caps : PodmanCapabilities) × ((podman.discover_capabilities v).0 ≡ ok caps)
      × (is_supported_version caps.version ≡ true)

  finish_plan-IsSaved :
      (r : PlanRequest) (old : Option Instance) (plan : List DriftRecord → Plan) (P : Plan → Type 0)
      → ((ds : List DriftRecord) → P (with_digest e (plan ds)))
      → (w : W)
      → Yields
          (λ p v. P p × (p.digest ≡ plan_digest platform p) × IsSaved p v)
          (finish_plan e r old plan w)
  unfolding finish_plan plan_digest
  finish_plan-IsSaved r old plan P basic w = bind_rule Q (state.save_plan p) _ u λ _ saved q h.
      subst (λ x. Q x (state.save_plan p u).1) (ok-injective h)
        (basic (plan_drift e r old w).0, refl, (u, cc))
    where
      u : W
      u = (plan_drift e r old w).1

      p : Plan
      p = with_digest e (plan (plan_drift e r old w).0)

      Q : Plan → W → Type 0
      Q p v = P p × (p.digest ≡ plan_digest platform p) × IsSaved p v

  -- What `CreatePlan` has found out once the tests on the instance have passed.
  abbrev pub Built : PlanRequest → Plan → Type 0
  Built r p =
      (p.operation ≡ r.operation)
      × (p.instance_id ≡ r.instance_id)
      × (p.expires_at ≡ p.created_at + plan_lifetime)
      × HostFits
      × ((p.operation ≡ "remove") ⊎ All IsApproved p.directories)

  abbrev pub BuiltAndSaved : PlanRequest → Plan → W → Type 0
  BuiltAndSaved r p v = Built r p × (p.digest ≡ plan_digest platform p) × IsSaved p v

  check_host-is_supported_version :
      (caps : PodmanCapabilities) (app : Catalog) (w : W)
      → Yields (λ _ _. is_supported_version caps.version ≡ true) (check_host e caps app w)
  unfolding check_host
  check_host-is_supported_version caps app w =
      bind_rule (λ _ _. is_supported_version caps.version ≡ true) (refuse_if _ _) _ w
        λ a passed b h. ground (arith, refuse_if-eq _ _ w a passed)

  build_plan-Built :
      (r : PlanRequest) (old : Option Instance) (app_id : String) (w : W)
      → Yields (BuiltAndSaved r) (build_plan e r old app_id w)
  unfolding build_plan make_plan
  build_plan-Built r old app_id w =
      bind_rule P (require (get_app catalog app_id) _) _ w λ app known.
        bind_rule P podman.discover_capabilities _ _ λ caps discovered.
          bind_rule P (check_host e caps app) _ _ λ a fits.
            bind_rule P (lift (resolve_parameters app (chosen_parameters r old))) _ _ λ params _.
              bind_rule P (gets platform.now) _ _ λ now _. bind_rule P (new_id platform) _ _ λ id _.
                bind_rule P (plan_contents e r old app params) _ _ λ contents filled.
                  finish_plan-IsSaved r old
                    (make_plan r app_id app params now id contents.0 contents.1) (Built r)
                    (λ ds. (
                      refl,
                      refl,
                      refl,
                      (_, caps, discovered, check_host-is_supported_version caps app _ a fits),
                      plan_contents-IsApproved r old app params _ contents filled,
                    ))
                    _
    where
      P : Plan → W → Type 0
      P = BuiltAndSaved r

  -- A plan that `CreatePlan` may hand out for a request, and that it has stored.
  abbrev pub Planned : PlanRequest → Plan → W → Type 0
  Planned r p v =
      (contains ("install" ∷ "update" ∷ "remove" ∷ []) p.operation ≡ true)
      × (engine_safe_id p.instance_id ≡ true)
      × BuiltAndSaved r p v

  known_operation :
      (o : String)
      → (not (str_eq o "install") && (not (str_eq o "update") && not (str_eq o "remove"))) ≡ false
      → contains ("install" ∷ "update" ∷ "remove" ∷ []) o ≡ true
  unfolding contains
  known_operation o h = ground (
    arith,
    eq_iff o "install",
    eq_iff "install" o,
    eq_iff o "update",
    eq_iff "update" o,
    eq_iff o "remove",
    eq_iff "remove" o,
  )

  -- A plan that CreatePlan returns has a known operation, a safe instance ID and the operation
  -- and instance of the request; it expires 15 minutes after its creation; Podman reported a
  -- supported version; unless it is a removal, each of its directories was resolved below the
  -- approved root that it names and has the mount options of its intent; its digest is the digest
  -- of its contents; and it has been saved.
  pub create_plan-Planned :
      (r : PlanRequest) (w v : W) (p : Plan) → create_plan e r w ≡ (ok p, v) → Planned r p v
  unfolding create_plan
  create_plan-Planned r w v p h = subst (Planned r p) (ap (λ x. x.1) h) (go p (ap (λ x. x.0) h))
    where
      P : Plan → W → Type 0
      P = Planned r

      go : Yields P (create_plan e r w)
      go = bind_rule P (refuse_if _ _) _ w λ a known. bind_rule P (refuse_if _ _) _ _ λ a' safe.
          bind_rule P (find_instance e r.instance_id) _ _ λ old _.
            bind_rule P (refuse_if _ _) _ _ λ _ _. bind_rule P (refuse_if _ _) _ _ λ _ _.
              bind_rule P (refuse_foreign _) _ _ λ _ _ q built.
                let all = build_plan-Built r old _ _ q built in
                (
                  rw (all.0.0) (known_operation r.operation (refuse_if-eq _ _ w a known)),
                  rw (all.0.1) (true_of_not _ (refuse_if-eq _ _ _ a' safe)),
                  all,
                )
