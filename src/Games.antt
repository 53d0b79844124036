-- ===== src/Games.antt =====
-- src/infra/mongo/games and src/application/services/game_service.py, game_scheduler.py: the games in
-- progress, with optimistic locking on a version number.
mod Repository
mod Messages
mod Service
mod Scheduler
pub mod Versions
pub mod Locking
unfoldable pub use Repository.*
unfoldable pub use Messages.*
unfoldable pub use Service.*
unfoldable pub use Scheduler.*
