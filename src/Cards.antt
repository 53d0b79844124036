-- ===== src/Cards.antt =====
-- The cards: the tables of src/domain/game/cards_data.py (Data) and the decks of rules/cards.py (Deck).
-- The effects, which land the player anew, are in Landing.antt.
mod Data
mod Deck
pub mod Draw
unfoldable pub use Data.*
unfoldable pub use Deck.*
