-- ===== src/Board.antt =====
-- The boards (src/domain/game/board_data.py, schemas/board.py), the constants and the two game modes
-- (constants.py, modes.py).
mod Space
mod Constants
mod Normal
mod Duel
mod Config
unfoldable pub use Space.*
pub use Constants.*
unfoldable pub use Normal.{normal_board}
unfoldable pub use Duel.{duel_board}
unfoldable pub use Config.*
