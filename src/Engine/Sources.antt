-- ===== src/Engine/Sources.antt =====
-- The Quadlet source files of the host, as a map from names to contents, and what the engine
-- relies on: how Podman's calls change them, and that nothing else does.
use home_server_deployer.Prelude.{
  ℕ, String, ◌≡◌, refl, fun_ext, Bool, Option, none, some, List, [], ◌∷◌, str_eq, eq_iff, contains,
  arith, if◌then◌else◌,
}
use home_server_deployer.Error.{Error}
use home_server_deployer.Act.{ok, err}
use home_server_deployer.Act.Rules.{Quiet}
use home_server_deployer.Model.{Instance, Catalog, RenderedResource}
use home_server_deployer.Services.{Backend}
use home_server_deployer.Engine.{Engine}

abbrev pub Sources : Type 0
Sources = String → Option String

unfoldable pub assign : String → Option String → Sources → Sources
assign name v f j = if str_eq name j then v else f j

-- Podman's documented behaviour on source files, for a host whose files nobody else changes
-- meanwhile: a call that succeeds has written or removed its file, and one that reads changes
-- none. An install without `replace` refuses a name that is taken.
pub record WritesSources {W : Type 0} (podman : Backend W) (source : W → Sources) : Type 0 where
  pub install_ok :
      (name content : String) (w : W)
      → (podman.install_quadlet name content w).0 ≡ ok tt
      → (source w name ≡ none)
        × (source (podman.install_quadlet name content w).1 ≡ assign name (some content) (source w))
  pub remove_ok :
      (name : String) (force : Bool) (w : W)
      → (podman.remove_quadlet name force w).0 ≡ ok tt
      → source (podman.remove_quadlet name force w).1 ≡ assign name none (source w)
  pub quiet_get : (name : String) → Quiet source (podman.get_quadlet name)
  pub quiet_list : Quiet source podman.list_quadlets

-- What a host promises beyond it: a call that fails has changed no file, and a source that is
-- read is read whole.
pub record KeepsSources {W : Type 0} (podman : Backend W) (source : W → Sources) : Type 0 where
  pub install_err :
      (name content : String) (w : W) {c : Error}
      → (podman.install_quadlet name content w).0 ≡ err c
      → source (podman.install_quadlet name content w).1 ≡ source w
  pub remove_err :
      (name : String) (force : Bool) (w : W) {c : Error}
      → (podman.remove_quadlet name force w).0 ≡ err c
      → source (podman.remove_quadlet name force w).1 ≡ source w
  pub get_ok :
      (name : String) (w : W) {s : String}
      → (podman.get_quadlet name w).0 ≡ ok s
      → source w name ≡ some s

-- All that the engine calls, on a host where neither systemd nor the Deployer's own files touch a
-- Quadlet source.
pub record LeavesSources {W : Type 0} (e : Engine W) (source : W → Sources) : Type 0 where
  pub writes : WritesSources e.podman source
  pub quiet_reload : Quiet source e.systemd.reload
  pub quiet_start : (unit : String) → Quiet source (e.systemd.start_unit unit)
  pub quiet_stop : (unit : String) → Quiet source (e.systemd.stop_unit unit)
  pub quiet_restart : (unit : String) → Quiet source (e.systemd.restart_unit unit)
  pub quiet_status : (unit : String) → Quiet source (e.systemd.unit_status unit)
  pub quiet_get_instance : (id : String) → Quiet source (e.state.get_instance id)
  pub quiet_save_instance : (v : Instance) → Quiet source (e.state.save_instance v)
  pub quiet_get_plan : (id : String) → Quiet source (e.state.get_plan id)
  pub quiet_delete_plan : (id : String) → Quiet source (e.state.delete_plan id)
  pub quiet_docs : (v : Instance) (app : Catalog) → Quiet source (e.docs.write_docs v app)
  pub quiet_open_root : (p : String) → Quiet source (e.platform.open_root p)
  pub quiet_mkdirat : (fd : ℕ) (p : String) (mode : ℕ) → Quiet source (e.platform.mkdirat fd p mode)
  pub quiet_openat2 : (fd : ℕ) (p : String) → Quiet source (e.platform.openat2 fd p)

pub record IsLawful {W : Type 0} (e : Engine W) (source : W → Sources) : Type 0 where
  pub leaves : LeavesSources e source
  pub keeps : KeepsSources e.podman source

-- The files after all the named ones are removed, and after all the rendered ones are written.
unfoldable pub without_all : List String → Sources → Sources
without_all [] f = f
without_all (n ∷ ns) f = without_all ns (assign n none f)

unfoldable pub with_all : List RenderedResource → Sources → Sources
with_all [] f = f
with_all (r ∷ rs) f = with_all rs (assign r.name (some r.content) f)

pub assign-assign_of_absent :
    (n : String) (v : Option String) (f : Sources) → f n ≡ none → assign n none (assign n v f) ≡ f
unfolding assign
assign-assign_of_absent n v f h = fun_ext λ j. ground (arith, eq_iff n j)

pub without_all_at :
    (ns : List String) (f : Sources) (j : String)
    → without_all ns f j ≡ (if contains ns j then none else f j)
unfolding without_all contains assign
without_all_at [] f j = refl
without_all_at (n ∷ ns) f j = ground (arith, without_all_at ns (assign n none f) j, eq_iff n j)
