-- ===== src/Lib.antt =====
-- A model of Home Server Deployer, an agent that installs, updates and removes applications as
-- Podman Quadlets, and the theorems about it.
--
-- A request of the web interface reaches the engine (internal/engine), which plans a change
-- (CreatePlan) and later carries it out (ExecutePlan). The engine reads the catalog
-- (internal/catalog), resolves directories below approved roots (internal/paths), asks the
-- security backend for mount options (internal/security), keeps plans and instances in the state
-- store (internal/state), talks to Podman (internal/podman) and systemd (internal/systemd), and
-- writes documents (internal/docsgen).
--
-- Files and code:
--   Model and its children: the structs of internal/model/model.go. Times are nanoseconds, maps
--     are association lists (Prelude/Dict), and Go's int is the integers (Prelude/Int).
--   Error, Error/Message: one constructor for each error of the sources, and their texts.
--   Act, Act/Rules: calls that change the host and may fail. An action takes a world to a result
--     and the world after it, so what a failing call has done stays done. `attempt` is a call
--     with its error branch, `each` a loop that returns at the first error, `collect` a loop
--     that goes on and joins the errors.
--   Services: the Go interfaces that the engine calls, and Platform, the operating system and
--     standard library behind it. They are parameters: all theorems on the engine hold for any
--     of them, under the laws that the theorems name.
--   Text, Text/Utf8, Text/SplitLaws, Text/Escape, Text/Unescape, Text/EscapeLaws, Text/Segments,
--     Strconv, Paths/Filepath: what the sources use of the Go packages strings, unicode/utf8,
--     net/url, strconv and path/filepath.
--   Paths, Paths/ContainmentLaws, Paths/CleanLaws: internal/paths/paths.go.
--   Names, Names/IdLaws, Names/QuadletLaws: the tests on identifiers and names in
--     internal/engine, internal/state, internal/catalog, internal/podman and internal/systemd.
--   Catalog/Store, Catalog/Parameters, Catalog/Validation, Catalog/Load:
--     internal/catalog/catalog.go. Catalog/LoadLaws, Catalog/ValidationLaws, Catalog/ParameterLaws, Catalog/PathLaws: what they let in,
--     against the parts that use it.
--   Security: internal/security/selinux/selinux.go. Backup: internal/backup/backup.go.
--   Config, Config/Laws: internal/config/config.go.
--   Commands, Commands/Laws: the start of the agent in cmd/deployer-agent/main.go, and engine.New.
--     Commands/LawfulLaws, Commands/ServingLaws: the parts that it puts together, up to a
--     request of the web client. State/QuietLaws, Docsgen/QuietLaws, Systemd/QuietLaws: what
--     each part leaves alone.
--   State, State/AtomicLaws: internal/state/state.go over the calls of package os.
--   Podman/Version, Podman/VersionLaws: the versions in internal/podman/podman.go. Podman/Http,
--     Podman/Client, Podman/Containers: its REST client, over requests and responses of a
--     connection. What it keeps of the version is a part of the world. Podman/RestLaws: what
--     Podman promises of its REST API. Podman/CallLaws, Podman/ClientLaws,
--     Podman/ContainerLaws: the client under that promise.
--   Systemd, Systemd/JobLaws, Systemd/StatusLaws: internal/systemd/systemd.go over the calls of
--     the D-Bus library.
--   Docsgen, Docsgen/Laws: internal/docsgen/docs.go.
--   Engine: the struct of internal/engine/engine.go. Engine/PlanParts and Engine/Planning:
--     CreatePlan, resolveDirs and render. Engine/Execute: detectDrift and ExecutePlan.
--     Engine/Transaction: upsert, install, update and remove of
--     internal/engine/transaction.go. Engine/Rollback: their rollbacks. Engine/Support: the
--     helpers at the end of that file. In these, what follows a loop or a call is a function of
--     its own, and closures are functions of the variables that they capture.
--   Engine/Queries, Engine/QueryLaws: Capabilities, Discover, Status, Lifecycle, Logs,
--     Documentation and BackupContract.
--   Engine/Sources: what Podman promises of the source files that it keeps: WritesSources for
--     calls that succeed, KeepsSources for the others. Engine/LeavesLaws, Engine/StepRules:
--     the steps that leave the sources alone. Engine/SuccessLaws, Engine/CompletionLaws: a plan
--     that is carried out without an error, from the first of these promises alone. Engine/Restore,
--     Engine/RollbackLaws, Engine/TransactionLaws, Engine/Settling, Engine/InstallLaws,
--     Engine/UpdateLaws, Engine/RemoveLaws, Engine/PerformLaws, Engine/ExecuteLaws: from the
--     single call up to ExecutePlan. Engine/GuardLaws, Engine/PlanLaws, Engine/PlanUse: the
--     tests of ExecutePlan, and the plans of CreatePlan. Engine/StopLaws: units that do
--     not stop.
--     Engine/ReadLaws, Engine/QuietLaws: planning and the queries do not touch the sources.
--   Api/Status, Api/Routes, Api/Server, Api/Laws: internal/api/server.go. A request that
--     ServeMux answers itself (not found, not allowed, redirect) has no answer in the model.
--   Web/Agent: internal/web/client.go. Web/Forms, Web/Routes, Web/Server:
--     internal/web/server.go. Web/CsrfLaws,
--     Web/RouteLaws: the token, and the client's paths against the routes of Api/Routes.
--   Tests and its children: a host in memory, runs on it, and the theorems at concrete inputs.
--
-- Every loop of the modelled code is structural recursion over a list or a text, so no fuel is
-- needed and every function is total. Two readings of the clock in one call give the same time.
-- Contexts and cancelled calls are not modelled, and a call of the engine runs alone.
--
-- Not modelled: what is below the calls of net/http, D-Bus and os, which are parameters; reading
-- YAML and JSON and the execution of templates, which are parameters too; the HTML of the page;
-- and the serving and stopping of the processes in cmd.
pub mod Prelude
pub mod Model
pub mod Error
pub mod Act
pub mod Text
pub mod Strconv
pub mod Podman
pub mod Services
pub mod Paths
pub mod Names
pub mod Catalog
pub mod Security
pub mod State
pub mod Backup
pub mod Config
pub mod Commands
pub mod Engine
mod Tests
pub mod Api
pub mod Web
pub mod Systemd
pub mod Docsgen
