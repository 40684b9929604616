-- ===== src/Domain.antt =====
-- The value objects and settings that the other parts share: panel/domain/value_objects and the
-- sections of panel/config.py that the modelled code reads.
pub mod Enums
pub mod Settings
pub mod Policy
pub mod PublicHost
