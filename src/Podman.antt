-- ===== src/Podman.antt =====
-- internal/podman/podman.go.
pub mod Version
pub mod VersionLaws
pub mod Http
pub mod Client
pub mod Containers
pub mod RestLaws
pub mod ClientLaws
pub mod CallLaws
pub mod ContainerLaws
