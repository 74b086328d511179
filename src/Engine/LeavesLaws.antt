-- ===== src/Engine/LeavesLaws.antt =====
-- What the parts of a transaction leave alone that neither write nor remove a source.
use home_server_deployer.Prelude.{ℕ, String, ◌≡◌, refl, ◌∙◌, arith, List, [], ◌∷◌}
use home_server_deployer.Prelude.Dict.{Dict, insert}
use home_server_deployer.Model.{
  Instance, Catalog, ResolvedDirectory, Quadlet, RenderedResource, ResourceState,
}
use home_server_deployer.Error.{make_dir_failed}
use home_server_deployer.Act.{pure, raise}
use home_server_deployer.Act.Rules.{Quiet, Quiet-attempt, Quiet-if, attempt_rule}
use home_server_deployer.Paths.{Root, make_dir, descend, ensure_dir}
use home_server_deployer.Engine.{Engine}
use home_server_deployer.Engine.Support.{
  sorted_resource_names, quadlet_map, verify_unit_active, capture_each, capture_resources,
}
use home_server_deployer.Engine.Transaction.{snapshot, ensure_dirs, save_and_document, root_or_zero}
use home_server_deployer.Engine.Execute.{drift_of, detect_drift}
use home_server_deployer.Engine.Sources.{Sources, LeavesSources}

module _ {W : Type 0} (e : Engine W) (source : W → Sources) (leaves : LeavesSources e source) where
  open e use {podman, systemd, platform, state}

  pub Quiet-snapshot :
      (names : List String) (old : Dict String) → Quiet source (snapshot e names old)
  unfolding snapshot
  Quiet-snapshot [] old = λ w. refl
  Quiet-snapshot (n ∷ names) old =
      Quiet-attempt source _ _ _ (leaves.writes.quiet_get n) (λ c w. refl)
        (λ s. Quiet-snapshot names (insert n s old))

  pub Quiet-verify : (unit : String) → Quiet source (verify_unit_active systemd unit)
  unfolding verify_unit_active
  Quiet-verify unit =
      Quiet-attempt source _ _ _ (leaves.quiet_status unit) (λ c w. refl) (λ s w. ground arith)

  pub Quiet-quadlet_map : Quiet source (quadlet_map podman)
  unfolding quadlet_map
  Quiet-quadlet_map =
      Quiet-attempt source _ _ _ leaves.writes.quiet_list (λ c w. refl) (λ qs w. refl)

  Quiet-capture_each :
      (qm : Dict Quadlet) (rs : List RenderedResource)
      (m : Dict home_server_deployer.Model.ResourceState)
      → Quiet source (capture_each platform podman qm rs m)
  unfolding capture_each
  Quiet-capture_each qm [] m = λ w. refl
  Quiet-capture_each qm (r ∷ rs) m =
      Quiet-attempt source _ _ _ (leaves.writes.quiet_get r.name) (λ c w. refl)
        (λ s. Quiet-capture_each qm rs _)

  pub Quiet-capture :
      (rs : List RenderedResource) → Quiet source (capture_resources platform podman rs)
  unfolding capture_resources
  Quiet-capture rs =
      Quiet-attempt source _ _ _ Quiet-quadlet_map (λ c w. refl) (λ qm. Quiet-capture_each qm rs [])

  Quiet-make_dir :
      (fd : ℕ) (part : String) (mode : ℕ) → Quiet source (make_dir platform fd part mode)
  unfolding make_dir
  Quiet-make_dir fd part mode w =
      attempt_rule (λ r. source r.1 ≡ source w) (platform.mkdirat fd part mode) _ _ w
        (λ _ _. leaves.quiet_mkdirat fd part mode w)
        (λ c _.
          Quiet-if source (platform.already_there fd part w) (pure tt)
            (raise (make_dir_failed part c)) (λ _. refl) (λ _. refl) _
          ∙ leaves.quiet_mkdirat fd part mode w)

  Quiet-descend :
      (parts : List String) (fd mode : ℕ) → Quiet source (descend platform fd parts mode)
  unfolding descend
  Quiet-descend [] fd mode = λ w. refl
  Quiet-descend (part ∷ parts) fd mode =
      Quiet-attempt source _ _ _ (Quiet-make_dir fd part mode) (λ c w. refl)
        (λ _.
          Quiet-attempt source _ _ _
            (Quiet-attempt source _ _ _ (leaves.quiet_openat2 fd part) (λ c w. refl) (λ n w. refl))
            (λ c w. refl) (λ next. Quiet-descend parts next mode))

  pub Quiet-ensure_dir :
      (root : Root) (relative : String) (mode : ℕ)
      → Quiet source (ensure_dir platform root relative mode)
  unfolding ensure_dir
  Quiet-ensure_dir root relative mode =
      Quiet-attempt source _ _ _ (λ w. refl) (λ c w. refl)
        (λ paths.
          Quiet-attempt source _ _ _
            (Quiet-attempt source _ _ _ (leaves.quiet_open_root root.agent_path) (λ c w. refl)
              (λ n w. refl))
            (λ c w. refl)
            (λ base.
              Quiet-attempt source _ _ _ (Quiet-descend _ base mode) (λ c w. refl) (λ n w. refl)))

  pub Quiet-ensure_dirs : (ds : List ResolvedDirectory) → Quiet source (ensure_dirs e ds)
  unfolding ensure_dirs
  Quiet-ensure_dirs [] = λ w. refl
  Quiet-ensure_dirs (d ∷ ds) =
      Quiet-attempt source _ _ _
        (Quiet-ensure_dir (root_or_zero e.roots d.root_id) d.relative_path 0o750) (λ c w. refl)
        (λ _. Quiet-ensure_dirs ds)

  pub Quiet-save_and_document :
      (in' : Instance) (app : Catalog) → Quiet source (save_and_document e in' app)
  unfolding save_and_document
  Quiet-save_and_document in' app =
      Quiet-attempt source _ _ _ (leaves.quiet_save_instance in') (λ c w. refl)
        (λ _. leaves.quiet_docs in' app)

  pub Quiet-drift_of :
      (resources : Dict ResourceState) (ns : List String) (w : W)
      → source (drift_of e resources ns w).1 ≡ source w
  unfolding drift_of
  Quiet-drift_of resources [] w = refl
  Quiet-drift_of resources (n ∷ ns) w =
      Quiet-drift_of resources ns (podman.get_quadlet n w).1 ∙ leaves.writes.quiet_get n w

  pub Quiet-detect_drift : (in' : Instance) (w : W) → source (detect_drift e in' w).1 ≡ source w
  unfolding detect_drift
  Quiet-detect_drift in' w = Quiet-drift_of in'.resources (sorted_resource_names in'.resources) w
