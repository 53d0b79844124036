-- ===== src/Sessions.antt =====
-- src/domain/session, src/infra/mongo/sessions and src/application/services/session_service.py: the
-- lobby. Ids, names and codes are strings; a datetime is its epoch in milliseconds.
mod Schema
mod Mapper
mod Repository
mod Service
pub mod Roundtrip
pub mod Lobby
pub mod Unique
pub mod Invariant
pub mod Kept
pub mod Requests
pub mod Status
pub mod Host
pub mod Steps
pub mod Refinement
unfoldable pub use Schema.*
unfoldable pub use Mapper.*
unfoldable pub use Repository.*
unfoldable pub use Service.*
