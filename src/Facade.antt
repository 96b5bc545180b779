-- ===== src/Facade.antt =====
-- internal/facade/facade.go
pub mod Events
pub mod Forward
pub mod History
pub mod Route
pub mod Slots
pub mod Start
