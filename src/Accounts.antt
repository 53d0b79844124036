-- ===== src/Accounts.antt =====
-- src/application/services/user_service.py, core/security.py and infra/mongo/refresh_tokens: accounts and
-- their tokens.
mod RefreshTokens
mod Security
mod Service
pub mod Absent
pub mod Rotation
unfoldable pub use RefreshTokens.*
unfoldable pub use Security.*
unfoldable pub use Service.*
