-- ===== src/Engine.antt =====
-- internal/engine: the engine over the services that it calls.
pub mod Support
pub mod Rollback
pub mod Transaction
pub mod Execute
pub mod Queries
pub mod PlanParts
pub mod Planning
pub mod Sources
pub mod LeavesLaws
pub mod StepRules
pub mod SuccessLaws
pub mod CompletionLaws
pub mod Restore
pub mod RollbackLaws
pub mod TransactionLaws
pub mod Settling
pub mod InstallLaws
pub mod UpdateLaws
pub mod RemoveLaws
pub mod PerformLaws
pub mod ExecuteLaws
pub mod GuardLaws
pub mod StopLaws
pub mod QueryLaws
pub mod PlanLaws
pub mod PlanUse
pub mod ReadLaws
pub mod QuietLaws
use home_server_deployer.Prelude.Dict.{Dict}
use home_server_deployer.Services.{
  Backend, Manager, StateStore, Generator, SecurityBackend, Platform,
}
use home_server_deployer.Catalog.Store.{CatalogStore}
use home_server_deployer.Paths.{Root}

pub record Engine (W : Type 0) : Type 0 where
  pub podman : Backend W
  pub systemd : Manager W
  pub catalog : CatalogStore
  pub state : StateStore W
  pub docs : Generator W
  pub security : SecurityBackend
  pub roots : Dict Root
  pub platform : Platform W
