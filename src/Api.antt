-- ===== src/Api.antt =====
-- internal/api/server.go.
pub mod Status
pub mod Routes
pub mod Server
pub mod Laws
