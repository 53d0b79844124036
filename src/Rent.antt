-- ===== src/Rent.antt =====
-- src/domain/game/rules/rent.py: the rent of a position.
use monopoly_be.Prelude.{
  ℕ, ◌*◌, min, Bool, not, ◌&&◌, Option, none, some, ◌==◌, if◌then◌else◌, sub_ℕ, subscript, Result,
  ok, ◌>>=◌, false,
}
use monopoly_be.Schema.{PropertyColor, SpaceType, SpaceOwnership, PlayerState, GameState}
use monopoly_be.Board.{
  RentTable, amount_for, railroad_rents, max_railroads_owned, utility_rent_multiplier_one,
  utility_rent_multiplier_two, monopoly_rent_multiplier, get_board_space,
}
use monopoly_be.Helpers.{
  space_at, get_player_by_id, count_owned_railroads, count_owned_utilities,
  player_has_rent_monopoly,
}

-- `color_group is not None and player_has_rent_monopoly(…)`
has_monopoly : PlayerState → Option PropertyColor → GameState → Result Bool
has_monopoly owner none state = ok false
has_monopoly owner (some color) state =
    player_has_rent_monopoly owner color state.spaces state.game_mode

-- The branch of a property with a rent table.
street_rent :
    RentTable → Option PropertyColor → SpaceOwnership → PlayerState → GameState → ℕ → Result ℕ
unfolding has_monopoly
street_rent table color ownership owner state rent_multiplier =
    let amount = amount_for table ownership.houses ownership.has_hotel in
    if ownership.houses == 0 && not ownership.has_hotel
    then (do
      monopoly ← has_monopoly owner color state
      ok (if monopoly then amount * monopoly_rent_multiplier else amount * rent_multiplier))
    else ok (amount * rent_multiplier)

rent_by_type :
    SpaceType
    → Option RentTable
    → Option PropertyColor
    → SpaceOwnership
    → PlayerState
    → GameState
    → (dice_total rent_multiplier : ℕ) → Result ℕ
unfolding street_rent
rent_by_type SpaceType.railroad table color ownership owner state dice_total rent_multiplier = do
  count ← count_owned_railroads owner state.spaces state.game_mode
  base ← subscript railroad_rents (sub_ℕ (min count max_railroads_owned) 1)
  ok (base * rent_multiplier)
rent_by_type SpaceType.utility table color ownership owner state dice_total rent_multiplier = do
  count ← count_owned_utilities owner state.spaces state.game_mode
  ok (
      (if count == 1 then utility_rent_multiplier_one else utility_rent_multiplier_two)
      * dice_total)
rent_by_type SpaceType.property (some table) color ownership owner state dice_total
      rent_multiplier =
    street_rent table color ownership owner state rent_multiplier
rent_by_type _ _ color ownership owner state dice_total rent_multiplier = ok 0

owned_rent :
    Option ℕ → SpaceOwnership → GameState → (position dice_total rent_multiplier : ℕ) → Result ℕ
unfolding rent_by_type
owned_rent none ownership state position dice_total rent_multiplier = ok 0
owned_rent (some owner_id) ownership state position dice_total rent_multiplier =
    if ownership.is_mortgaged then ok 0 else do
      owner ← get_player_by_id state.players owner_id
      space ← get_board_space position state.game_mode
      rent_by_type space.type space.rent space.color_group ownership owner state dice_total
          rent_multiplier

unfoldable pub calculate_rent : GameState → (position dice_total rent_multiplier : ℕ) → Result ℕ
unfolding owned_rent
calculate_rent state position dice_total rent_multiplier = do
  ownership ← space_at state.spaces position
  owned_rent ownership.owner_id ownership state position dice_total rent_multiplier
