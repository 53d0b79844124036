-- ===== src/Schema.antt =====
-- The data of the game (src/domain/game/enums.py and src/domain/game/schemas/): one child for the
-- enumerations, the cards, the state, the events and the commands.
mod Enums
mod Cards
mod State
mod Events
mod Commands
pub use Enums.*
pub use Cards.*
pub use State.*
unfoldable pub use Events.*
pub use Commands.*
