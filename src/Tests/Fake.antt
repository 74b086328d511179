-- ===== src/Tests/Fake.antt =====
-- A host in memory. Each call writes its name to a trace, and fails if it is marked as broken.
use home_server_deployer.Prelude.{
  ℕ, String, ◌<>◌, ◌≡◌, refl, fun_ext, Bool, true, false, Option, none, some, List, [], ◌∷◌, ◌++◌,
  contains, arith, if◌then◌else◌,
}
use home_server_deployer.Prelude.Int.{pos}
use home_server_deployer.Prelude.Dict.{Dict, lookup, insert, values}
use home_server_deployer.Model.{
  RuntimeContainer, Quadlet, Instance, Plan, PodmanCapabilities, Catalog, catalog_api_version,
}
use home_server_deployer.Error.{external, not_exist}
use home_server_deployer.Act.{Result, ok, err, Act}
use home_server_deployer.Services.{Backend, Manager, StateStore, Platform}
use home_server_deployer.Engine.{Engine}
use home_server_deployer.Engine.Sources.{
  Sources, assign, WritesSources, KeepsSources, LeavesSources, IsLawful,
}

pub record World : Type 0 where
  pub files : Sources
  -- the names that `list_quadlets` looks for
  pub names : List String
  pub broken : List String
  pub instances : Dict Instance
  pub plans : Dict Plan
  pub trace : List String

abbrev pub logged : String → World → World
logged label w = record w { trace = w.trace ++ label ∷ [] }

-- A call that may be broken.
abbrev pub call : {A : Type 0} → String → (World → A) → (World → World) → Act World A
call label answer change w =
    if contains w.broken label
    then (err (external label), logged label w)
    else (ok (answer w), change (logged label w))

abbrev pub found {ℓ} : {A : Type ℓ} → Option A → Result A
found none = err (not_exist "file")
found (some a) = ok a

abbrev same : World → World
same w = w

abbrev listing : World → List String → List Quadlet
listing w [] = []
listing w (n ∷ ns) = elim (w.files n) [
  | none ↦ listing w ns
  | some _ ↦
      record { name = n; unit_name = n <> ".service"; path = ""; status = ""; app = "" }
      ∷ listing w ns
]

abbrev installing : String → String → Option String → Act World (Unit {0})
installing n c none w = (ok tt, record w { files = assign n (some c) w.files })
installing n c (some _) w = (err (external "exists"), w)

abbrev pub capabilities : PodmanCapabilities
capabilities = record {
  version = "5.8.2";
  libpod_api_version = "5.8.2";
  min_libpod_api_version = "";
  architecture = "";
  rootless = false;
  cgroup_manager = "";
  cgroup_version = "";
  network_backend = "";
  quadlet_list = true;
  quadlet_print = true;
  quadlet_install = true;
  quadlet_remove = true;
  native_application_install = false;
}

abbrev container : String → String → RuntimeContainer
container name unit = record {
  id = name;
  name = name;
  state = "running";
  status = "";
  health = "";
  systemd_unit = unit;
  labels = [];
}

-- One container of a unit, and one that runs outside systemd.
abbrev pub fake_containers : List RuntimeContainer
fake_containers = container "b" "b.service" ∷ container "stray" "" ∷ []

abbrev pub fake_podman : Backend World
fake_podman = record {
  discover_capabilities = call "capabilities" (λ _. capabilities) same;
  list_quadlets = call "list" (λ w. listing w w.names) same;
  get_quadlet = λ n w. (found (w.files n), w);
  install_quadlet = λ n c w.
      if contains w.broken ("install " <> n)
      then (err (external n), logged ("install " <> n) w)
      else installing n c (w.files n) (logged ("install " <> n) w);
  remove_quadlet =
      λ n _. call ("remove " <> n) (λ _. tt) (λ w. record w { files = assign n none w.files });
  list_containers = call "containers" (λ _. fake_containers) same;
  container_logs = λ id _. call ("logs " <> id) (λ _. "log") same;
}

abbrev pub fake_systemd : Manager World
fake_systemd = record {
  manager_capabilities = λ _. record { available = true; version = "257" };
  reload = call "reload" (λ _. tt) same;
  start_unit = λ u. call ("start " <> u) (λ _. tt) same;
  stop_unit = λ u. call ("stop " <> u) (λ _. tt) same;
  restart_unit = λ u. call ("restart " <> u) (λ _. tt) same;
  unit_status = λ u. call ("status " <> u) (λ _. "loaded/active/running") same;
}

abbrev pub fake_state : StateStore World
fake_state = record {
  get_instance = λ id w. (found (lookup id w.instances), w);
  save_instance =
      λ v. call "save" (λ _. tt) (λ w. record w { instances = insert v.id v w.instances });
  list_instances = call "instances" (λ w. values w.instances) same;
  get_plan = λ id w. (found (lookup id w.plans), w);
  save_plan = λ p. call "save plan" (λ _. tt) (λ w. record w { plans = insert p.id p w.plans });
  delete_plan = λ id. call ("delete " <> id) (λ _. tt) same;
}

abbrev pub fake_platform : Platform World
fake_platform = record {
  quote = λ s. "\"" <> (s <> "\"");
  now = λ _. 1000;
  random_bytes = λ n. call "random" (λ _. 1 ∷ 2 ∷ []) same;
  sha256 = λ s. home_server_deployer.Prelude.codes s;
  marshal_plan = λ p. p.operation <> (p.instance_id <> p.app_id);
  read_file = λ p. call ("read " <> p) (λ _. "template") same;
  execute_template = λ name text _. ok text;
  open_root = λ p. call ("open " <> p) (λ _. 3) same;
  already_there = λ _ _ _. false;
  mkdirat = λ _ p _. call ("mkdir " <> p) (λ _. tt) same;
  openat2 = λ fd p. call ("openat2 " <> p) (λ _. 4) same;
}

-- An application with a directory below the root "data" and one container.
abbrev pub fake_app : Catalog
fake_app = record {
  api_version = catalog_api_version;
  kind = "Application";
  metadata = record { id = "app"; name = "App"; version = "2"; description = "" };
  spec = record {
    min_podman_version = "5.8.0";
    inputs =
        record {
          name = "data";
          type = "path";
          required = true;
          default = "app/data";
          description = "";
        }
        ∷ [];
    directories =
        record {
          name = "data";
          root_id = "data";
          subpath_input = "data";
          container_path = "/data";
          read_only = false;
          security_intent = "private";
        }
        ∷ [];
    resources = record { name = "app.container"; template = "app.tmpl"; start = true } ∷ [];
    update = record { mode = "manual-only"; channel = "" };
    health = record { strategy = "runtime"; primary_resource = ""; timeout_seconds = pos 0 };
    backup = record { strategy = "none"; consistency = "none"; includes = []; provider = "" };
  };
}

abbrev pub fake_engine : Engine World
fake_engine = record {
  podman = fake_podman;
  systemd = fake_systemd;
  catalog = record { root = "/catalog"; apps = ("app", fake_app) ∷ [] };
  state = fake_state;
  docs = record {
    write_docs = λ v _. call ("docs " <> v.id) (λ _. tt) same;
    read_docs = λ id n. call ("read " <> n) (λ _. "doc") same;
  };
  security = record {
    security_capabilities = record { backend = "fake"; enabled = true; enforcing = true };
    mount_suffix = λ _ _. ok "Z";
  };
  roots = ("data", record { id = "data"; host_path = "/srv"; agent_path = "/approved" }) ∷ [];
  platform = fake_platform;
}

abbrev pub files_of : World → Sources
files_of w = w.files

fake-WritesSources : WritesSources fake_podman files_of
fake-WritesSources = record {
  install_ok = λ n c w h. ground arith;
  remove_ok = λ n f w h. ground arith;
  quiet_get = λ n w. refl;
  quiet_list = λ w. ground arith;
}

fake-KeepsSources : KeepsSources fake_podman files_of
fake-KeepsSources = record {
  install_err = λ n c w h. ground arith;
  remove_err = λ n f w h. ground arith;
  get_ok = λ n w h. ground arith;
}

fake-LeavesSources : LeavesSources fake_engine files_of
fake-LeavesSources = record {
  writes = fake-WritesSources;
  quiet_reload = λ w. ground arith;
  quiet_start = λ u w. ground arith;
  quiet_stop = λ u w. ground arith;
  quiet_restart = λ u w. ground arith;
  quiet_status = λ u w. ground arith;
  quiet_get_instance = λ id w. refl;
  quiet_save_instance = λ v w. ground arith;
  quiet_get_plan = λ id w. refl;
  quiet_delete_plan = λ id w. ground arith;
  quiet_docs = λ v app w. ground arith;
  quiet_open_root = λ p w. ground arith;
  quiet_mkdirat = λ fd p m w. ground arith;
  quiet_openat2 = λ fd p w. ground arith;
}

pub fake-IsLawful : IsLawful fake_engine files_of
fake-IsLawful = record { leaves = fake-LeavesSources; keeps = fake-KeepsSources }
