-- ===== src/Vpn.antt =====
-- panel/infrastructure/vpn.
pub mod PortPicker
pub mod ClientUri
pub mod ConfigBuilder
pub mod Shared443
pub mod SystemdUnit
pub mod ServiceRuntime
