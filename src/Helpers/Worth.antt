-- ===== src/Helpers/Worth.antt =====
-- src/domain/game/rules/helpers.py: net worth, colour groups and the counts of railroads and utilities.
use monopoly_be.Prelude.{
  ℕ, suc, ◌*◌, ◌+◌, Bool, true, false, not, ◌&&◌, ◌||◌, Option, none, some, List, [], ◌∷◌, ◌==◌,
  ltb, if◌then◌else◌, ℤ, pos, ◌+ℤ◌, Result, ok, ◌>>=◌,
}
use monopoly_be.Schema.{GameMode, PropertyColor, is_color, PlayerState, SpaceOwnership}
use monopoly_be.Board.{BoardSpace, hotel_house_count, get_game_config, get_board_space}
use monopoly_be.Helpers.Spaces.{space_at}

-- `x or 0`
abbrev pub or_zero : Option ℕ → ℕ
or_zero none = 0
or_zero (some n) = n

-- `owner == player_id`, on an owner that may be `None`.
abbrev pub owned_by : Option ℕ → ℕ → Bool
owned_by none player_id = false
owned_by (some o) player_id = o == player_id

-- What the loop of `compute_net_worth` adds for one position.
unfoldable pub position_worth : BoardSpace → SpaceOwnership → ℕ
position_worth space ownership =
    if ownership.is_mortgaged
    then 0
    else or_zero space.price
      + (if ownership.has_hotel
          then or_zero space.house_cost * hotel_house_count
          else or_zero space.house_cost * ownership.houses)

unfoldable pub worth_of_positions : List ℕ → List SpaceOwnership → GameMode → ℤ → Result ℤ
unfolding position_worth
worth_of_positions [] spaces game_mode total = ok total
worth_of_positions (p ∷ owned) spaces game_mode total = do
  space ← get_board_space p game_mode
  ownership ← space_at spaces p
  worth_of_positions owned spaces game_mode (total +ℤ pos (position_worth space ownership))

unfoldable pub compute_net_worth : PlayerState → List SpaceOwnership → GameMode → Result ℤ
compute_net_worth player spaces game_mode =
    worth_of_positions player.owned_positions spaces game_mode player.balance

unfoldable pub update_player_net_worth :
    PlayerState → List SpaceOwnership → GameMode → Result PlayerState
update_player_net_worth player spaces game_mode = do
  worth ← compute_net_worth player spaces game_mode
  ok (record player { net_worth = worth })

-- `refresh_all_net_worth`, on the three fields of the state that it reads.
unfoldable pub refresh_all_net_worth :
    List PlayerState → List SpaceOwnership → GameMode → Result (List PlayerState)
refresh_all_net_worth [] spaces game_mode = ok []
refresh_all_net_worth (p ∷ players) spaces game_mode = do
  q ← update_player_net_worth p spaces game_mode
  rest ← refresh_all_net_worth players spaces game_mode
  ok (q ∷ rest)

abbrev in_group : PropertyColor → Option PropertyColor → Bool
in_group color none = false
in_group color (some c) = is_color c color

unfoldable pub group_of : PropertyColor → List BoardSpace → List ℕ
group_of color [] = []
group_of color (space ∷ board) =
    if in_group color space.color_group
    then space.position ∷ group_of color board
    else group_of color board

unfoldable pub positions_in_color_group : PropertyColor → GameMode → List ℕ
unfolding group_of
positions_in_color_group color game_mode = group_of color (get_game_config game_mode).board

-- The loop that `player_has_rent_monopoly` and building.py's `player_owns_monopoly` both are.
unfoldable pub owns_unmortgaged : ℕ → List ℕ → List SpaceOwnership → Result Bool
owns_unmortgaged player_id [] spaces = ok true
owns_unmortgaged player_id (p ∷ group_positions) spaces = do
  ownership ← space_at spaces p
  let rest = owns_unmortgaged player_id group_positions spaces
  if not (owned_by ownership.owner_id player_id) || ownership.is_mortgaged then ok false else rest

abbrev is_empty : List ℕ → Bool
is_empty [] = true
is_empty (_ ∷ _) = false

unfoldable pub player_has_rent_monopoly :
    PlayerState → PropertyColor → List SpaceOwnership → GameMode → Result Bool
unfolding owns_unmortgaged positions_in_color_group
player_has_rent_monopoly player color spaces game_mode =
    let group_positions = positions_in_color_group color game_mode in
    if is_empty group_positions then ok false else owns_unmortgaged player.id group_positions spaces

unfoldable pub owns_unbuilt : ℕ → List ℕ → List SpaceOwnership → Result Bool
owns_unbuilt player_id [] spaces = ok true
owns_unbuilt player_id (p ∷ group_positions) spaces = do
  ownership ← space_at spaces p
  let rest = owns_unbuilt player_id group_positions spaces
  if not (owned_by ownership.owner_id player_id)
      then ok false
      else if ltb 0 ownership.houses || ownership.has_hotel
      then ok false
      else rest

unfoldable pub player_owns_full_color_group :
    PlayerState → PropertyColor → List SpaceOwnership → GameMode → Result Bool
unfolding owns_unbuilt positions_in_color_group
player_owns_full_color_group player color spaces game_mode =
    let group_positions = positions_in_color_group color game_mode in
    if is_empty group_positions then ok false else owns_unbuilt player.id group_positions spaces

-- `sum(1 for pos in positions if …)`
unfoldable pub count_owned : PlayerState → List ℕ → List SpaceOwnership → Result ℕ
count_owned player [] spaces = ok 0
count_owned player (p ∷ positions) spaces = do
  ownership ← space_at spaces p
  rest ← count_owned player positions spaces
  ok (
      if owned_by ownership.owner_id player.id && not ownership.is_mortgaged
      then suc rest
      else rest)

unfoldable pub count_owned_railroads : PlayerState → List SpaceOwnership → GameMode → Result ℕ
unfolding count_owned
count_owned_railroads player spaces game_mode =
    count_owned player (get_game_config game_mode).railroad_positions spaces

unfoldable pub count_owned_utilities : PlayerState → List SpaceOwnership → GameMode → Result ℕ
unfolding count_owned
count_owned_utilities player spaces game_mode =
    count_owned player (get_game_config game_mode).utility_positions spaces
