-- ===== src/Building.antt =====
-- src/domain/game/rules/building.py: building and selling houses, mortgages.
pub mod Even
pub mod Supply
pub mod Worth
use monopoly_be.Prelude.{
  ℕ, zero, suc, ◌+◌, ◌-◌, ◌/◌, min, max, Bool, true, false, not, ◌&&◌, ◌||◌, Option, none, some,
  List, [], ◌∷◌, ◌==◌, ltb, leb, if◌then◌else◌, ℤ, pos, ◌+ℤ◌, ◌-ℤ◌, leb_ℤ, Error, Result, ok, err,
  illegal_move, value_error, raise_if, ◌>>=◌, ◌>>◌,
}
use monopoly_be.Schema.{
  GameMode, PropertyColor, SpaceType, is_space_type, PlayerState, SpaceOwnership, GameState,
}
use monopoly_be.Board.{BoardSpace, get_board_space, is_purchasable}
use monopoly_be.Helpers.{
  get_player_by_id_from_state, positions_in_color_group, refresh_all_net_worth, replace_space,
  space_at, update_player_net_worth, replace_player, owns_unmortgaged, owned_by, or_zero,
}
use monopoly_be.Interest.{unmortgage_cost}

abbrev is_empty : List ℕ → Bool
is_empty [] = true
is_empty (_ ∷ _) = false

unfoldable pub player_owns_monopoly :
    PlayerState → PropertyColor → List SpaceOwnership → GameMode → Result Bool
player_owns_monopoly player color spaces game_mode =
    let group_positions = positions_in_color_group color game_mode in
    if is_empty group_positions then ok false else owns_unmortgaged player.id group_positions spaces

-- `_building_level`
unfoldable pub building_level : SpaceOwnership → ℕ
building_level ownership = if ownership.has_hotel then 5 else ownership.houses

-- `[_building_level(space_at(state.spaces, p)) for p in group_positions]`
unfoldable pub levels_of : List ℕ → List SpaceOwnership → Result (List ℕ)
unfolding building_level
levels_of [] spaces = ok []
levels_of (p ∷ positions) spaces = do
  ownership ← space_at spaces p
  levels ← levels_of positions spaces
  ok (building_level ownership ∷ levels)

-- `min(levels)` and `max(levels)`, which raise on an empty list.
unfoldable pub min_of : List ℕ → Result ℕ
min_of [] = err value_error
min_of (n ∷ []) = ok n
min_of (n ∷ m ∷ ns) = do least ← min_of (m ∷ ns); ok (min n least)

unfoldable pub max_of : List ℕ → Result ℕ
max_of [] = err value_error
max_of (n ∷ []) = ok n
max_of (n ∷ m ∷ ns) = do greatest ← max_of (m ∷ ns); ok (max n greatest)

-- The colour group of a space on which houses may stand.
unfoldable pub street_color : BoardSpace → Option PropertyColor
street_color space = if is_space_type space.type SpaceType.property then space.color_group else none

-- The checks of `can_build_on` from the mortgage on, in a colour group.
build_checks :
    GameState → PlayerState → SpaceOwnership → BoardSpace → Option PropertyColor → Result Bool
unfolding player_owns_monopoly building_level levels_of min_of
build_checks state player ownership space none = ok false
build_checks state player ownership space (some color) =
    if ownership.is_mortgaged || ownership.has_hotel then ok false else do
      monopoly ← player_owns_monopoly player color state.spaces state.game_mode
      if not monopoly then ok false else do
        levels ← levels_of (positions_in_color_group color state.game_mode) state.spaces
        min_level ← min_of levels
        if ltb min_level (building_level ownership)
            then ok false
            else if (if leb 4 (building_level ownership)
                then leb_ℤ state.bank_hotels (pos 0)
                else leb_ℤ state.bank_houses (pos 0))
            then ok false
            else ok (leb_ℤ (pos (or_zero space.house_cost)) player.balance)

unfoldable pub can_build_on : GameState → ℕ → ℕ → Result Bool
unfolding build_checks street_color
can_build_on state player_id position = do
  player ← get_player_by_id_from_state state player_id
  ownership ← space_at state.spaces position
  if not (owned_by ownership.owner_id player.id) then ok false else do
    space ← get_board_space position state.game_mode
    build_checks state player ownership space (street_color space)

sell_checks : GameState → SpaceOwnership → Option PropertyColor → Result Bool
unfolding building_level levels_of max_of
sell_checks state ownership none = ok false
sell_checks state ownership (some color) =
    if ownership.houses == 0 && not ownership.has_hotel then ok false else do
      levels ← levels_of (positions_in_color_group color state.game_mode) state.spaces
      max_level ← max_of levels
      ok (building_level ownership == max_level)

unfoldable pub can_sell_on : GameState → ℕ → ℕ → Result Bool
unfolding sell_checks street_color
can_sell_on state player_id position = do
  player ← get_player_by_id_from_state state player_id
  ownership ← space_at state.spaces position
  if not (owned_by ownership.owner_id player.id) then ok false else do
    space ← get_board_space position state.game_mode
    sell_checks state ownership (street_color space)

-- The end of the four operations: the player's balance, the spaces, and all net worths.
unfoldable pub pay_and_write :
    GameState → PlayerState → ℕ → ℤ → List SpaceOwnership → Result GameState
pay_and_write state player player_id balance spaces = do
  updated ← update_player_net_worth (record player { balance = balance }) spaces state.game_mode
  players ← replace_player state.players player_id updated
  refreshed ← refresh_all_net_worth players spaces state.game_mode
  ok (record state { players = refreshed; spaces = spaces })

-- `if not test: raise e`, and what follows.
unfoldable pub guarded : {A : Type 0} → Result Bool → Error → Result A → Result A
guarded test e rest = do allowed ← test; raise_if (not allowed) e; rest

-- What the four operations do after their guard: the ownership record of the position changes, and so
-- does the player's balance. The answer has the record as it was.
unfoldable pub rewrite_space :
    GameState
    → (player_id position : ℕ) → (SpaceOwnership → SpaceOwnership)
    → (PlayerState → BoardSpace → ℤ)
    → Result (SpaceOwnership × GameState)
unfolding pay_and_write
rewrite_space state player_id position change balance = do
  player ← get_player_by_id_from_state state player_id
  ownership ← space_at state.spaces position
  space ← get_board_space position state.game_mode
  spaces ← replace_space state.spaces position (change ownership)
  paid ← pay_and_write state player player_id (balance player space) spaces
  ok (ownership, paid)

-- What the fifth building and the others do to the space, and to the bank.
built : SpaceOwnership → SpaceOwnership
built o =
    if o.houses == 4
    then record o { houses = 0; has_hotel = true }
    else record o { houses = o.houses + 1 }

take_building : SpaceOwnership → GameState → GameState
take_building o state =
    if o.houses == 4
    then record state {
      bank_houses = state.bank_houses +ℤ pos 4;
      bank_hotels = state.bank_hotels -ℤ pos 1;
    }
    else record state { bank_houses = state.bank_houses -ℤ pos 1 }

-- The balance after a building is bought.
cost_of_house : PlayerState → BoardSpace → ℤ
cost_of_house player space = player.balance -ℤ pos (or_zero space.house_cost)

unfoldable pub build_house : GameState → ℕ → ℕ → Result GameState
unfolding can_build_on guarded rewrite_space built take_building cost_of_house
build_house state player_id position =
    guarded (can_build_on state player_id position) (illegal_move "cannot build on this property")
      (do
        r ← rewrite_space state player_id position built cost_of_house
        ok (take_building (r.0) (r.1)))

sold : SpaceOwnership → SpaceOwnership
sold o =
    if o.has_hotel
    then record o { houses = 4; has_hotel = false }
    else record o { houses = o.houses - 1 }

return_building : SpaceOwnership → GameState → GameState
return_building o state =
    if o.has_hotel
    then record state {
      bank_houses = state.bank_houses -ℤ pos 4;
      bank_hotels = state.bank_hotels +ℤ pos 1;
    }
    else record state { bank_houses = state.bank_houses +ℤ pos 1 }

-- `int(house_cost * HOUSE_SELL_RATIO)`: the ratio is 0.5, which a double holds exactly.
sale_of_house : PlayerState → BoardSpace → ℤ
sale_of_house player space = player.balance +ℤ pos (or_zero space.house_cost / 2)

unfoldable pub sell_house : GameState → ℕ → ℕ → Result GameState
unfolding can_sell_on guarded rewrite_space sold return_building sale_of_house
sell_house state player_id position =
    guarded (can_sell_on state player_id position) (illegal_move "cannot sell on this property") (do
      r ← rewrite_space state player_id position sold sale_of_house
      ok (return_building (r.0) (r.1)))

-- The loop of `can_mortgage` over the colour group: no mate has a building.
no_buildings : List ℕ → List SpaceOwnership → Result Bool
no_buildings [] spaces = ok true
no_buildings (p ∷ positions) spaces = do
  mate ← space_at spaces p
  let rest = no_buildings positions spaces
  if ltb 0 mate.houses || mate.has_hotel then ok false else rest

group_is_clear : Option PropertyColor → GameState → Result Bool
unfolding no_buildings
group_is_clear none state = ok true
group_is_clear (some color) state =
    no_buildings (positions_in_color_group color state.game_mode) state.spaces

unfoldable pub can_mortgage : GameState → ℕ → ℕ → Result Bool
unfolding group_is_clear street_color
can_mortgage state player_id position = do
  player ← get_player_by_id_from_state state player_id
  ownership ← space_at state.spaces position
  if not (owned_by ownership.owner_id player.id) || ownership.is_mortgaged
      then ok false
      else if ltb 0 ownership.houses || ownership.has_hotel
      then ok false
      else do
        space ← get_board_space position state.game_mode
        clear ← group_is_clear (street_color space) state
        if not clear then ok false else is_purchasable position state.game_mode

unfoldable pub can_unmortgage : GameState → ℕ → ℕ → Result Bool
can_unmortgage state player_id position = do
  player ← get_player_by_id_from_state state player_id
  ownership ← space_at state.spaces position
  if not (owned_by ownership.owner_id player.id) || not ownership.is_mortgaged then ok false else do
    space ← get_board_space position state.game_mode
    ok (leb_ℤ (pos (unmortgage_cost (or_zero space.mortgage_value))) player.balance)

loan : PlayerState → BoardSpace → ℤ
loan player space = player.balance +ℤ pos (or_zero space.mortgage_value)

unfoldable pub mortgage_property : GameState → ℕ → ℕ → Result GameState
unfolding can_mortgage guarded rewrite_space loan
mortgage_property state player_id position =
    guarded (can_mortgage state player_id position) (illegal_move "cannot mortgage this property")
      (do
        r ← rewrite_space state player_id position (λ o. record o { is_mortgaged = true }) loan
        ok (r.1))

repayment : PlayerState → BoardSpace → ℤ
repayment player space = player.balance -ℤ pos (unmortgage_cost (or_zero space.mortgage_value))

unfoldable pub unmortgage_property : GameState → ℕ → ℕ → Result GameState
unfolding can_unmortgage guarded rewrite_space repayment
unmortgage_property state player_id position =
    guarded (can_unmortgage state player_id position)
      (illegal_move "cannot unmortgage this property")
      (do
        r ←
            rewrite_space state player_id position (λ o. record o { is_mortgaged = false })
              repayment
        ok (r.1))

-- The loops of `has_any_buildable` and its two siblings.
any_position : (ℕ → Result Bool) → List ℕ → Result Bool
any_position test [] = ok false
any_position test (p ∷ positions) = do
  found ← test p
  let rest = any_position test positions
  if found then ok true else rest

unfoldable pub has_any_buildable : GameState → ℕ → Result Bool
unfolding any_position
has_any_buildable state player_id = do
  player ← get_player_by_id_from_state state player_id
  any_position (can_build_on state player_id) player.owned_positions

unfoldable pub has_any_mortgageable : GameState → ℕ → Result Bool
unfolding any_position
has_any_mortgageable state player_id = do
  player ← get_player_by_id_from_state state player_id
  any_position (can_mortgage state player_id) player.owned_positions

unfoldable pub has_any_unmortgageable : GameState → ℕ → Result Bool
unfolding any_position
has_any_unmortgageable state player_id = do
  player ← get_player_by_id_from_state state player_id
  any_position (can_unmortgage state player_id) player.owned_positions
