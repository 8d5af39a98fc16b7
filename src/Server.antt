-- ===== src/Server.antt =====
-- internal/server: the services behind the HTTP interface.
pub mod Validation
pub mod LoginRateLimiter
pub mod TaskContracts
pub mod ListParams
pub mod GitRefs
pub mod TaskMapper
pub mod TaskService
pub mod SessionTokens
pub mod AuthService
pub mod BlobGc
pub mod Importer
