-- ===== src/Web.antt =====
-- internal/web: the web interface, a client of the agent.
pub mod Agent
pub mod Forms
pub mod Routes
pub mod Server
pub mod CsrfLaws
pub mod RouteLaws
