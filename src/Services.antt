-- ===== src/Services.antt =====
-- What the engine calls: the Go interfaces, and the parts of the operating system and of the
-- standard library that it uses. `W` is the host: Podman, systemd and the disk.
use home_server_deployer.Prelude.{ℕ, String, Bool, List}
use home_server_deployer.Prelude.Dict.{Dict}
use home_server_deployer.Model.{
  Time, Quadlet, RuntimeContainer, PodmanCapabilities, SystemdCapabilities, SecurityCapabilities,
  Instance, Plan, Catalog, ResolvedDirectory,
}
use home_server_deployer.Act.{Result, Act}

-- internal/podman: Backend
pub record Backend (W : Type 0) : Type 0 where
  pub discover_capabilities : Act W PodmanCapabilities
  pub list_quadlets : Act W (List Quadlet)
  pub get_quadlet : String → Act W String
  pub install_quadlet : String → String → Act W (Unit {0})
  pub remove_quadlet : String → Bool → Act W (Unit {0})
  pub list_containers : Act W (List RuntimeContainer)
  pub container_logs : String → ℕ → Act W String

-- internal/systemd: Manager
pub record Manager (W : Type 0) : Type 0 where
  pub manager_capabilities : W → SystemdCapabilities
  pub reload : Act W (Unit {0})
  pub start_unit : String → Act W (Unit {0})
  pub stop_unit : String → Act W (Unit {0})
  pub restart_unit : String → Act W (Unit {0})
  pub unit_status : String → Act W String

-- internal/state: the methods of `Store` that the engine calls
pub record StateStore (W : Type 0) : Type 0 where
  pub get_instance : String → Act W Instance
  pub save_instance : Instance → Act W (Unit {0})
  pub list_instances : Act W (List Instance)
  pub get_plan : String → Act W Plan
  pub save_plan : Plan → Act W (Unit {0})
  pub delete_plan : String → Act W (Unit {0})

-- internal/docsgen: the methods of `Generator`
pub record Generator (W : Type 0) : Type 0 where
  pub write_docs : Instance → Catalog → Act W (Unit {0})
  pub read_docs : String → String → Act W String

-- internal/security: Backend
pub record SecurityBackend : Type 0 where
  pub security_capabilities : SecurityCapabilities
  pub mount_suffix : String → Bool → Result String

-- internal/engine: tplData
pub record TplData : Type 0 where
  pub instance_id : String
  pub parameters : Dict String
  pub directories : Dict ResolvedDirectory

-- The operating system and the standard library: `strconv.Quote`, the clock, random bytes, SHA-256, the JSON of a
-- plan, `text/template`, files, and the three calls of `paths.EnsureDir` on file descriptors.
pub record Platform (W : Type 0) : Type 0 where
  pub quote : String → String
  pub now : W → Time
  pub random_bytes : ℕ → Act W (List ℕ)
  pub sha256 : String → List ℕ
  pub marshal_plan : Plan → String
  pub read_file : String → Act W String
  pub execute_template : String → String → TplData → Result String
  pub open_root : String → Act W ℕ
  -- the error of `Mkdirat` is `EEXIST`
  pub already_there : ℕ → String → W → Bool
  pub mkdirat : ℕ → String → ℕ → Act W (Unit {0})
  -- with RESOLVE_BENEATH, RESOLVE_NO_SYMLINKS and RESOLVE_NO_MAGICLINKS
  pub openat2 : ℕ → String → Act W ℕ
