-- ===== src/Users.antt =====
-- src/domain/user/schemas.py and src/infra/mongo/users: the accounts.
mod Schema
mod Mapper
mod Repository
pub mod Roundtrip
unfoldable pub use Schema.*
unfoldable pub use Mapper.*
unfoldable pub use Repository.*
