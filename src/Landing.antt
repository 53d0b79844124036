-- ===== src/Landing.antt =====
-- src/domain/game/rules/movement.py (`resolve_landing`) and src/domain/game/rules/cards.py
-- (`apply_card_effect`, `draw_and_apply`), which call one another: each function takes the landing that
-- it may make as an argument `land`, and `resolve_landing` ties the knot on fuel. Out of fuel it raises
-- what Python raises, a `RecursionError`.
mod Effects
mod Spaces
pub mod Charged
pub mod Charges
unfoldable pub use Effects.*
unfoldable pub use Spaces.*
