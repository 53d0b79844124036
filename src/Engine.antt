-- ===== src/Engine.antt =====
-- src/domain/game/engine.py: the handler of each command, and `apply`.
mod Roll
mod Handlers
mod Apply
pub mod Settled
pub mod Stuck
pub mod Purchase
unfoldable pub use Roll.*
unfoldable pub use Handlers.*
unfoldable pub use Apply.*
