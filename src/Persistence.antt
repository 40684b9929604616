-- ===== src/Persistence.antt =====
-- The database of the panel: panel/infrastructure/persistence.
pub mod Models
pub mod Configs
pub mod Shares
pub mod RateLimits
pub mod Consistency
