-- ===== src/Engine/Planning.antt =====
-- internal/engine/engine.go: `CreatePlan` with `resolveDirs` and `render`. Where `CreatePlan` returns
-- a plan beside an error, the callers do not look at the plan, and neither does the model.
use home_server_deployer.Prelude.{
  String, ◌<>◌, not, ◌&&◌, ◌||◌, Option, none, some, List, [], ◌∷◌, str_eq, if◌then◌else◌,
}
use home_server_deployer.Prelude.Dict.{Dict, lookup, is_some}
use home_server_deployer.Model.{
  Catalog, PodmanCapabilities, DirectorySpec, ResourceSpec, Instance, PlanRequest, Plan,
  RenderedResource, ResolvedDirectory, DriftRecord,
}
use home_server_deployer.Error.{
  is_not_exist, unsupported_operation, invalid_instance_id, already_exists, not_managed,
  unknown_application, below_supported_minimum, below_application_minimum, quadlet_api_unavailable,
  unapproved_root,
}
use home_server_deployer.Act.{Result, ok, err, Act, pure, lift, gets, ◌>>=◌, ◌>>◌}
use home_server_deployer.Services.{TplData}
use home_server_deployer.Names.{engine_safe_id}
use home_server_deployer.Paths.{resolve}
use home_server_deployer.Podman.Version.{is_supported_version, version_at_least}
use home_server_deployer.Catalog.Store.{get_app, template_of}
use home_server_deployer.Catalog.Parameters.{resolve_parameters, value_of}
use home_server_deployer.Engine.{Engine}
use home_server_deployer.Engine.Support.{hash, plan_digest, new_id, sorted_resource_names}
use home_server_deployer.Engine.Execute.{detect_drift}
use home_server_deployer.Engine.PlanParts.{
  is_active, chosen_app, foreign_app, directories_of, resources_of, chosen_parameters,
  removal_resources, with_all_previous, directory_map, managed_header, make_plan, refuse_if,
  require, refuse_foreign,
}

module _ {W : Type 0} (e : Engine W) where
  open e use {podman, catalog, state, security, roots, platform}

  -- The stored instance, if there is one. Another error than a missing file is passed on.
  abbrev pub found : Result Instance → Result (Option Instance)
  found (ok in') = ok (some in')
  found (err c) = if is_not_exist c then ok none else err c

  unfoldable pub find_instance : String → Act W (Option Instance)
  find_instance id w = let (r, w') = state.get_instance id w in (found r, w')

  unfoldable pub resolve_dirs : List DirectorySpec → Dict String → Act W (List ResolvedDirectory)
  unfolding lookup value_of resolve
  resolve_dirs [] params = pure []
  resolve_dirs (d ∷ ds) params = do
    root ← require (lookup d.root_id roots) (unapproved_root d.root_id)
    let rel = value_of params d.subpath_input
    (agent, host) ← lift (resolve root rel)
    suffix ← lift (security.mount_suffix d.security_intent d.read_only)
    rest ← resolve_dirs ds params
    pure (
        record {
          name = d.name;
          root_id = d.root_id;
          relative_path = rel;
          host_path = host;
          agent_path = agent;
          container_path = d.container_path;
          read_only = d.read_only;
          security_intent = d.security_intent;
          mount_suffix = suffix;
        }
        ∷ rest)

  unfoldable pub render_all : Catalog → TplData → List ResourceSpec → Act W (List RenderedResource)
  unfolding template_of hash managed_header
  render_all app tpl [] = pure []
  render_all app tpl (r ∷ rs) = do
    s ← template_of platform catalog app.metadata.id r.template
    body ← lift (platform.execute_template r.name s tpl)
    let c = managed_header tpl.instance_id app.metadata.id app.metadata.version <> body
    rest ← render_all app tpl rs
    pure (
        record {
          name = r.name;
          unit_name = "";
          content = c;
          start = r.start;
          sha256 = hash platform c;
          previous_sha256 = "";
        }
        ∷ rest)

  -- `render`, of the fields of the plan that it reads
  unfoldable pub render :
      Catalog → String → Dict String → List ResolvedDirectory → Act W (List RenderedResource)
  unfolding render_all directory_map
  render app instance_id params directories =
      render_all app
        (record {
          instance_id = instance_id;
          parameters = params;
          directories = directory_map directories [];
        })
        app.spec.resources

  -- The directories and the resources of the plan.
  unfoldable pub plan_contents :
      PlanRequest
      → Option Instance
      → Catalog
      → Dict String
      → Act W (List ResolvedDirectory × List RenderedResource)
  unfolding resolve_dirs render with_all_previous removal_resources sorted_resource_names
  plan_contents r old app params =
      if str_eq r.operation "remove"
      then pure (
        directories_of old,
        removal_resources (resources_of old) (sorted_resource_names (resources_of old)),
      )
      else (do
        directories ← resolve_dirs app.spec.directories params
        resources ← render app r.instance_id params directories
        pure (directories, with_all_previous (resources_of old) resources))

  abbrev pub drift_if : Option Instance → W → List DriftRecord × W
  drift_if none w = ([], w)
  drift_if (some in') w = detect_drift e in' w

  -- The drift that the plan records.
  unfoldable pub plan_drift : PlanRequest → Option Instance → W → List DriftRecord × W
  unfolding detect_drift is_active
  plan_drift r old w =
      drift_if
        (if is_active old && (str_eq r.operation "update" || str_eq r.operation "remove")
          then old
          else none)
        w

  -- The tests on what Podman can do.
  unfoldable pub check_host : PodmanCapabilities → Catalog → Act W (Unit {0})
  unfolding is_supported_version version_at_least
  check_host caps app = do
    refuse_if (not (is_supported_version caps.version)) (below_supported_minimum caps.version)
    refuse_if (not caps.quadlet_list || (not caps.quadlet_install || not caps.quadlet_remove))
        quadlet_api_unavailable
    refuse_if (not (version_at_least caps.version app.spec.min_podman_version))
        (below_application_minimum caps.version app.spec.min_podman_version)

  abbrev pub with_digest : Plan → Plan
  with_digest p = record p { digest = plan_digest platform p }

  -- The end of `CreatePlan`: the drift, the digest and the plan file.
  unfoldable pub finish_plan :
      PlanRequest → Option Instance → (List DriftRecord → Plan) → Act W Plan
  unfolding plan_drift plan_digest
  finish_plan r old plan w =
      let (drift, w') = plan_drift r old w in
      let p = with_digest (plan drift) in (state.save_plan p >>= λ _. pure p) w'

  -- What follows the tests on the instance.
  unfoldable pub build_plan : PlanRequest → Option Instance → String → Act W Plan
  unfolding get_app check_host resolve_parameters chosen_parameters new_id plan_contents make_plan
      finish_plan
  build_plan r old app_id = do
    app ← require (get_app catalog app_id) (unknown_application app_id)
    caps ← podman.discover_capabilities
    check_host caps app
    params ← lift (resolve_parameters app (chosen_parameters r old))
    now ← gets platform.now
    id ← new_id platform
    (directories, resources) ← plan_contents r old app params
    finish_plan r old (make_plan r app_id app params now id directories resources)

  -- `CreatePlan`. Both readings of the clock are taken to give the same time.
  unfoldable pub create_plan : PlanRequest → Act W Plan
  unfolding engine_safe_id find_instance is_active chosen_app foreign_app build_plan
  create_plan r = do
    refuse_if
        (not (str_eq r.operation "install")
          && (not (str_eq r.operation "update") && not (str_eq r.operation "remove")))
        (unsupported_operation r.operation)
    refuse_if (not (engine_safe_id r.instance_id)) invalid_instance_id
    old ← find_instance r.instance_id
    refuse_if (str_eq r.operation "install" && is_active old) (already_exists r.instance_id)
    refuse_if (not (str_eq r.operation "install") && not (is_some old)) (not_managed r.instance_id)
    refuse_foreign (foreign_app (chosen_app r.app_id old) old)
    build_plan r old (chosen_app r.app_id old)
