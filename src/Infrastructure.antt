-- ===== src/Infrastructure.antt =====
-- The local adapters of src/infrastructure.
pub mod Queue
pub mod StateStore
pub mod Registries
