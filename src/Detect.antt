-- ===== src/Detect.antt =====
-- internal/detect: model names, the built-in catalog and the discovery of CLIs.
pub mod Types
pub mod Names
pub mod Catalog
pub mod Groups
