-- ===== src/Engine/ReadLaws.antt =====
-- What planning and the queries of the engine leave alone: the Quadlet sources.
use home_server_deployer.Prelude.{
  ℕ, String, ◌≡◌, refl, ◌∙◌, Bool, true, false, ◌&&◌, ◌||◌, Option, none, some, List, [], ◌∷◌,
  str_eq, Option-cases, inl, inr,
}
use home_server_deployer.Prelude.Dict.{Dict, lookup}
use home_server_deployer.Model.{
  Catalog, DirectorySpec, ResourceSpec, Instance, PlanRequest, Plan, DriftRecord,
}
use home_server_deployer.Error.{Error, unknown_application, undeclared_template}
use home_server_deployer.Act.{raise, lift, gets}
use home_server_deployer.Act.Rules.{Quiet, Quiet-bind, Quiet-if, if_rule}
use home_server_deployer.Services.{TplData}
use home_server_deployer.Paths.Filepath.{filepath_join}
use home_server_deployer.Catalog.Store.{get_app, template_of, declares}
use home_server_deployer.Engine.{Engine}
use home_server_deployer.Engine.Support.{new_id, sorted_resource_names}
use home_server_deployer.Engine.Execute.{detect_drift}
use home_server_deployer.Engine.PlanParts.{
  refuse_if, require, refuse_foreign, chosen_app, is_active, make_plan,
}
use home_server_deployer.Engine.Planning.{
  find_instance, resolve_dirs, render_all, render, plan_contents, drift_if, plan_drift, check_host,
  finish_plan, build_plan, create_plan,
}
use home_server_deployer.Engine.Sources.{Sources, IsLawful}
use home_server_deployer.Engine.LeavesLaws.{Quiet-drift_of}

-- The other calls of the engine do not touch a Quadlet source either.
pub record ReadsOnly {W : Type 0} (e : Engine W) (source : W → Sources) : Type 0 where
  pub quiet_capabilities : Quiet source e.podman.discover_capabilities
  pub quiet_containers : Quiet source e.podman.list_containers
  pub quiet_container_logs : (id : String) (n : ℕ) → Quiet source (e.podman.container_logs id n)
  pub quiet_list_instances : Quiet source e.state.list_instances
  pub quiet_save_plan : (p : Plan) → Quiet source (e.state.save_plan p)
  pub quiet_read_docs : (id name : String) → Quiet source (e.docs.read_docs id name)
  pub quiet_random_bytes : (n : ℕ) → Quiet source (e.platform.random_bytes n)
  pub quiet_read_file : (p : String) → Quiet source (e.platform.read_file p)

module _ {W : Type 0} (e : Engine W) (source : W → Sources) (lawful : IsLawful e source)
    (reads : ReadsOnly e source) where
  open e use {podman, systemd, platform, state, catalog, docs, security, roots}

  Quiet-refuse_if : (b : Bool) (c : Error) → Quiet source (refuse_if b c)
  Quiet-refuse_if true c w = refl
  Quiet-refuse_if false c w = refl

  pub Quiet-require : {A : Type 0} (o : Option A) (c : Error) → Quiet source (require o c)
  Quiet-require none c w = refl
  Quiet-require (some a) c w = refl

  Quiet-refuse_foreign : (o : Option String) → Quiet source (refuse_foreign o)
  Quiet-refuse_foreign none w = refl
  Quiet-refuse_foreign (some id) w = refl

  Quiet-resolve_dirs :
      (ds : List DirectorySpec) (params : Dict String) → Quiet source (resolve_dirs e ds params)
  unfolding resolve_dirs
  Quiet-resolve_dirs [] params = λ _. refl
  Quiet-resolve_dirs (d ∷ ds) params =
      Quiet-bind source _ _ (Quiet-require (lookup d.root_id roots) _) λ root.
        Quiet-bind source (lift _) _ (λ _. refl)
          λ paths.
            Quiet-bind source (lift _) _ (λ _. refl)
              λ suffix.
                Quiet-bind source (resolve_dirs e ds params) _ (Quiet-resolve_dirs ds params)
                  λ rest _. refl

  Quiet-template_of :
      (app_id name : String) → Quiet source (template_of platform catalog app_id name)
  unfolding template_of
  Quiet-template_of app_id name w = elim (Option-cases (get_app catalog app_id)) [
    | inl missing ↦ rw (missing, template_of) refl
    | inr (app, found) ↦
        rw (found, template_of)
          (Quiet-if source (declares app.spec.resources name)
            (platform.read_file (filepath_join (filepath_join catalog.root app_id) name))
            (raise (undeclared_template name app_id)) (reads.quiet_read_file _) (λ _. refl) w)
  ]

  Quiet-render_all :
      (app : Catalog) (tpl : TplData) (rs : List ResourceSpec)
      → Quiet source (render_all e app tpl rs)
  unfolding render_all
  Quiet-render_all app tpl [] = λ _. refl
  Quiet-render_all app tpl (r ∷ rs) =
      Quiet-bind source (template_of platform catalog app.metadata.id r.template) _
        (Quiet-template_of app.metadata.id r.template)
        λ s.
          Quiet-bind source (lift (platform.execute_template r.name s tpl)) _ (λ _. refl)
            λ body.
              Quiet-bind source (render_all e app tpl rs) _ (Quiet-render_all app tpl rs)
                λ rest _. refl

  Quiet-plan_contents :
      (r : PlanRequest) (old : Option Instance) (app : Catalog) (params : Dict String)
      → Quiet source (plan_contents e r old app params)
  unfolding plan_contents render
  Quiet-plan_contents r old app params =
      Quiet-if source (str_eq r.operation "remove") _ _ (λ _. refl)
        (Quiet-bind source (resolve_dirs e app.spec.directories params) _
          (Quiet-resolve_dirs app.spec.directories params)
          λ directories.
            Quiet-bind source (render_all e app _ app.spec.resources) _
              (Quiet-render_all app _ app.spec.resources) λ _ _. refl)

  Quiet-drift_if : (o : Option Instance) (w : W) → source (drift_if e o w).1 ≡ source w
  unfolding detect_drift
  Quiet-drift_if none w = refl
  Quiet-drift_if (some in') w =
      Quiet-drift_of e source lawful.leaves in'.resources (sorted_resource_names in'.resources) w

  Quiet-plan_drift :
      (r : PlanRequest) (old : Option Instance) (w : W) → source (plan_drift e r old w).1 ≡ source w
  unfolding plan_drift
  Quiet-plan_drift r old w =
      if_rule (λ (o : Option Instance). source (drift_if e o w).1 ≡ source w)
        (is_active old && (str_eq r.operation "update" || str_eq r.operation "remove")) old none
        (Quiet-drift_if old w) refl

  Quiet-finish_plan :
      (r : PlanRequest) (old : Option Instance) (plan : List DriftRecord → Plan)
      → Quiet source (finish_plan e r old plan)
  unfolding finish_plan
  Quiet-finish_plan r old plan w =
      Quiet-bind source (state.save_plan _) _ (reads.quiet_save_plan _) (λ _ _. refl) _
      ∙ Quiet-plan_drift r old w

  Quiet-build_plan :
      (r : PlanRequest) (old : Option Instance) (app_id : String)
      → Quiet source (build_plan e r old app_id)
  unfolding build_plan check_host new_id
  Quiet-build_plan r old app_id =
      Quiet-bind source _ _ (Quiet-require (get_app catalog app_id) (unknown_application app_id))
        λ app. Quiet-bind source podman.discover_capabilities _ reads.quiet_capabilities λ caps.
          Quiet-bind source (check_host e caps app) _
            (Quiet-bind source _ _ (Quiet-refuse_if _ _)
              λ _. Quiet-bind source _ _ (Quiet-refuse_if _ _) λ _. Quiet-refuse_if _ _)
            λ _.
              Quiet-bind source (lift _) _ (λ _. refl)
                λ params.
                  Quiet-bind source (gets platform.now) _ (λ _. refl)
                    λ now.
                      Quiet-bind source (new_id platform) _
                        (Quiet-bind source (platform.random_bytes 12) _
                          (reads.quiet_random_bytes 12) λ _ _. refl)
                        λ id.
                          Quiet-bind source (plan_contents e r old app params) _
                            (Quiet-plan_contents r old app params)
                            λ contents.
                              Quiet-finish_plan r old
                                (make_plan r app_id app params now id contents.0 contents.1)

  pub Quiet-create_plan : (r : PlanRequest) → Quiet source (create_plan e r)
  unfolding create_plan find_instance
  Quiet-create_plan r = Quiet-bind source _ _ (Quiet-refuse_if _ _) λ _.
      Quiet-bind source _ _ (Quiet-refuse_if _ _) λ _.
        Quiet-bind source (find_instance e r.instance_id) _
          (lawful.leaves.quiet_get_instance r.instance_id)
          λ old. Quiet-bind source _ _ (Quiet-refuse_if _ _) λ _.
            Quiet-bind source _ _ (Quiet-refuse_if _ _) λ _.
              Quiet-bind source _ _ (Quiet-refuse_foreign _)
                λ _. Quiet-build_plan r old (chosen_app r.app_id old)
