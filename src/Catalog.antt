-- ===== src/Catalog.antt =====
-- internal/catalog/catalog.go.
pub mod Store
pub mod Load
pub mod LoadLaws
pub mod Parameters
pub mod Validation
pub mod ValidationLaws
pub mod PathLaws
pub mod ParameterLaws
