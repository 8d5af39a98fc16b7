-- ===== src/Store.antt =====
-- internal/store: the SQLite store. Its tables, the statements of tasks.go over them, the
-- identifiers, and the texts of times.
pub mod Time
pub mod Project
pub mod Migrations
pub mod Tables
pub mod Tasks
pub mod Queries
pub mod RoundTrip
pub mod ListQuery
pub mod SpecRegex
pub mod Invariant
pub mod Lifecycle
pub mod Auth
pub mod Sessions
pub mod Blobs
pub mod GitRefs
pub mod Ready
pub mod Timed
