-- ===== src/Commands.antt =====
-- cmd/deployer-agent/main.go: the start of the agent, up to the server that then runs.
pub mod Laws
pub mod LawfulLaws
pub mod ServingLaws
use home_server_deployer.Prelude.{
  String, true, false, Option, none, some, List, [], ◌∷◌, str_eq, if◌then◌else◌,
}
use home_server_deployer.Prelude.Dict.{Dict, insert}
use home_server_deployer.Model.{Time, Instance, Plan, Catalog}
use home_server_deployer.Error.{is_not_exist, connect_failed}
use home_server_deployer.Act.{Result, Act, pure, raise, attempt, ◌>>=◌, ◌>>◌}
use home_server_deployer.Services.{Backend, Manager, StateStore, SecurityBackend, Platform}
use home_server_deployer.Paths.{Root}
use home_server_deployer.Paths.Filepath.{dir}
use home_server_deployer.Config.{Config, default_path, load_config}
use home_server_deployer.State.{
  Disk, Json, init, save_instance, get_instance, list_instances, save_plan, get_plan, delete_plan,
}
use home_server_deployer.Security.{mount_suffix, selinux_capabilities}
use home_server_deployer.Podman.Http.{Http}
use home_server_deployer.Podman.Client.{Client, new_client, podman_base}
use home_server_deployer.Podman.Containers.{client_backend}
use home_server_deployer.Systemd.{Bus, direct_manager}
use home_server_deployer.Docsgen.{generator}
use home_server_deployer.Catalog.Store.{CatalogStore}
use home_server_deployer.Catalog.Load.{load_catalog}
use home_server_deployer.Engine.{Engine}

-- The machine that the agent runs on. Its world has the Podman client as its first part. `http_at`
-- is the connection to a socket, and `enforce` the contents of the file of SELinux.
pub record Machine (V : Type 0) : Type 0 where
  pub disk : Disk (Client × V)
  pub variable : String → V → String
  pub http_at : String → Http V
  pub connect : Act (Client × V) (Bus (Client × V))
  pub listen : String → Act (Client × V) (Unit {0})
  pub enforce : Result String
  pub platform : Platform (Client × V)
  pub decode_config : Config → String → Result Config
  pub decode_app : String → Result Catalog
  pub instance_json : Json Instance
  pub plan_json : Json Plan
  pub format : Time → String

-- `engine.New`: the roots by their IDs
unfoldable pub roots_of : List Root → Dict Root → Dict Root
unfolding insert
roots_of [] m = m
roots_of (r ∷ rs) m = roots_of rs (insert r.id r m)

-- `*state.Store` as the engine calls it
unfoldable pub state_store :
    {W : Type 0} → Disk W → String → Json Instance → Json Plan → StateStore W
unfolding save_instance get_instance list_instances save_plan get_plan delete_plan
state_store disk root instance_json plan_json = record {
  get_instance = get_instance disk root instance_json plan_json;
  save_instance = save_instance disk root instance_json plan_json;
  list_instances = list_instances disk root instance_json plan_json;
  get_plan = get_plan disk root instance_json plan_json;
  save_plan = save_plan disk root instance_json plan_json;
  delete_plan = delete_plan disk root instance_json plan_json;
}

-- `selinux.New`
unfoldable pub selinux_backend : Result String → SecurityBackend
unfolding mount_suffix selinux_capabilities
selinux_backend enforce = record {
  security_capabilities = selinux_capabilities enforce;
  mount_suffix = mount_suffix;
}

module _ {V : Type 0} (host : Machine V) where
  open host use {disk, instance_json, plan_json}

  -- `envOr`
  unfoldable pub env_or : String → String → Client × V → String
  env_or k d (client, v) = if str_eq (host.variable k v) "" then d else host.variable k v

  -- The value of the flag "config", where it is given.
  abbrev pub config_path : Option String → Client × V → String
  config_path none w = env_or "DEPLOYER_CONFIG" default_path w
  config_path (some p) w = p

  unfoldable pub new_engine : Config → CatalogStore → Bus (Client × V) → Engine (Client × V)
  unfolding client_backend direct_manager state_store generator selinux_backend roots_of
  new_engine cfg store bus = record {
    podman = client_backend (host.http_at cfg.podman_socket) podman_base;
    systemd = direct_manager bus;
    catalog = store;
    state = state_store disk cfg.state_root instance_json plan_json;
    docs = generator disk cfg.documentation_root instance_json host.format;
    security = selinux_backend host.enforce;
    roots = roots_of cfg.approved_roots [];
    platform = host.platform;
  }

  -- `podman.New` knows no version yet.
  abbrev pub renew : Act (Client × V) (Unit {0})
  renew (client, v) = pure tt (new_client, v)

  -- Removing the socket of an earlier run: there may be none.
  abbrev pub remove_stale : String → Act (Client × V) (Unit {0})
  remove_stale p =
      attempt (disk.remove_file p) (λ c. if is_not_exist c then pure tt else raise c) pure

  unfoldable pub open_socket : String → Act (Client × V) (Unit {0})
  unfolding dir
  open_socket p = do disk.mkdir_all (dir p) 0o755; remove_stale p; host.listen p; disk.chmod p 0o666

  unfoldable pub start_agent : Option String → Act (Client × V) (Engine (Client × V))
  unfolding env_or load_config init load_catalog new_engine open_socket
  start_agent flag w =
      attempt (load_config disk.read_file host.decode_config (config_path flag w)) raise
        (λ cfg. do
          init disk cfg.state_root instance_json plan_json
          store ← load_catalog disk host.decode_app cfg.catalog_root
          bus ← attempt host.connect (λ c. raise (connect_failed c)) pure
          renew
          open_socket cfg.listen_socket
          pure (new_engine cfg store bus))
        w
