-- ===== src/Application.antt =====
-- The use cases of panel/application, with the transaction handling of panel/api/routers.
pub mod Audit
pub mod Session
pub mod ConfigUseCases
pub mod ConfigData
pub mod ShareExpiration
pub mod ShareUseCases
pub mod Login
pub mod Requests
pub mod Sharing
pub mod Deletion
pub mod Keeps
pub mod RegenerateAll
pub mod ConfigStatus
