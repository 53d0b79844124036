-- ===== src/Helpers.antt =====
-- src/domain/game/rules/helpers.py: lookups of players and spaces, net worth, colour groups. What the
-- lookups and the writes do to the lists is proved in the children.
mod Players
mod Spaces
mod Worth
mod Writes
mod Refresh
mod Records
mod Indexed
unfoldable pub use Players.*
unfoldable pub use Spaces.*
unfoldable pub use Worth.*
unfoldable pub use Writes.*
unfoldable pub use Refresh.*
unfoldable pub use Records.*
unfoldable pub use Indexed.*
