-- ===== src/Capabilities.antt =====
-- The capability definitions of src/capabilities.
pub mod Definitions
