-- ===== src/Model.antt =====
-- The data that the parts exchange: internal/model/model.go, in the order of its parts.
mod Application
mod Host
mod Deployment
pub use Application.*
pub use Host.*
pub use Deployment.*
