-- ===== src/Rating.antt =====
-- src/domain/rating and src/application/services/rating_service.py: the ratings of a finished game.
mod Elo
mod Service
pub mod Bounds
pub mod Once
pub mod Order
unfoldable pub use Elo.*
unfoldable pub use Service.*
