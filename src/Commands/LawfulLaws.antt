-- ===== src/Commands/LawfulLaws.antt =====
-- cmd/deployer-agent/main.go: the engine that the agent is made of, against what the theorems on
-- the engine ask of its services.
use home_server_deployer.Prelude.{ℕ, String}
use home_server_deployer.Act.Rules.{Quiet}
use home_server_deployer.Config.{Config}
use home_server_deployer.State.QuietLaws.{
  QuietDisk, Quiet-save_instance, Quiet-get_instance, Quiet-get_plan, Quiet-delete_plan,
}
use home_server_deployer.Podman.Client.{Client, podman_base}
use home_server_deployer.Podman.RestLaws.{ServesQuadlets}
use home_server_deployer.Podman.ClientLaws.{client_backend-WritesSources}
use home_server_deployer.Systemd.{Bus}
use home_server_deployer.Systemd.QuietLaws.{QuietBus, Quiet-job, Quiet-direct_status}
use home_server_deployer.Docsgen.QuietLaws.{Quiet-write_documents}
use home_server_deployer.Catalog.Store.{CatalogStore}
use home_server_deployer.Engine.Sources.{Sources, LeavesSources}
use home_server_deployer.Commands.{Machine, state_store, new_engine}

-- Podman's files as a part of the world with the client.
abbrev pub podman_files : {V : Type 0} → (V → Sources) → Client × V → Sources
podman_files source s = source s.1

-- The directories of the agent and the approved roots lie apart from those of Podman's Quadlets.
pub record IsApart {V : Type 0} (host : Machine V) (source : V → Sources) : Type 0 where
  pub quiet_disk : QuietDisk host.disk (podman_files source)
  pub quiet_open : (p : String) → Quiet (podman_files source) (host.platform.open_root p)
  pub quiet_make :
      (fd : ℕ) (p : String) (mode : ℕ)
      → Quiet (podman_files source) (host.platform.mkdirat fd p mode)
  pub quiet_descend :
      (fd : ℕ) (p : String) → Quiet (podman_files source) (host.platform.openat2 fd p)

module _ {V : Type 0} (host : Machine V) (source : V → Sources) (apart : IsApart host source) where
  open host use {disk, instance_json, plan_json, format}
  open apart use {quiet_disk, quiet_open, quiet_make, quiet_descend}

  abbrev view : Client × V → Sources
  view = podman_files source

  -- The engine that `main` puts together leaves Podman's files alone, but for what it installs and
  -- removes.
  pub new_engine-LeavesSources :
      (cfg : Config) (store : CatalogStore) (bus : Bus (Client × V))
      → ServesQuadlets (host.http_at cfg.podman_socket) podman_base source
      → QuietBus bus (podman_files source)
      → LeavesSources (new_engine host cfg store bus) (podman_files source)
  unfolding new_engine state_store home_server_deployer.Docsgen.generator
      home_server_deployer.Systemd.direct_manager
  new_engine-LeavesSources cfg store bus serves quiet = record {
    writes =
        client_backend-WritesSources (host.http_at cfg.podman_socket) podman_base source serves;
    quiet_reload = quiet.quiet_reload_units;
    quiet_start = Quiet-job bus view quiet "start";
    quiet_stop = Quiet-job bus view quiet "stop";
    quiet_restart = Quiet-job bus view quiet "restart";
    quiet_status = Quiet-direct_status bus view quiet;
    quiet_get_instance =
        Quiet-get_instance disk view quiet_disk cfg.state_root instance_json plan_json;
    quiet_save_instance =
        Quiet-save_instance disk view quiet_disk cfg.state_root instance_json plan_json;
    quiet_get_plan = Quiet-get_plan disk view quiet_disk cfg.state_root instance_json plan_json;
    quiet_delete_plan =
        Quiet-delete_plan disk view quiet_disk cfg.state_root instance_json plan_json;
    quiet_docs =
        Quiet-write_documents disk view quiet_disk cfg.documentation_root instance_json format;
    quiet_open_root = quiet_open;
    quiet_mkdirat = quiet_make;
    quiet_openat2 = quiet_descend;
  }
