-- ===== src/Board/Config.antt =====
-- src/domain/game/modes.py, and the lookups at the end of board_data.py.
use monopoly_be.Prelude.{
  ℕ, Bool, String, Option, none, some, List, [], ◌∷◌, map, ◌==◌, ◌||◌, if◌then◌else◌, ℤ, pos,
  Result, ok, key_error, or_raise, ◌>>=◌,
}
use monopoly_be.Schema.{GameMode, SpaceType, is_space_type}
use monopoly_be.Board.Space.{BoardSpace}
use monopoly_be.Board.Normal.{normal_board}
use monopoly_be.Board.Duel.{duel_board}

pub record GameConfig : Type 0 where
  pub mode : GameMode
  pub board : List BoardSpace
  pub max_players : ℕ
  pub dice_count : ℕ
  pub start_position : ℕ
  pub jail_position : ℕ
  pub railroad_positions : List ℕ
  pub utility_positions : List ℕ
  pub starting_balance : Option ℤ
  pub chance_deck : Option (List String)
  pub chest_deck : Option (List String)
  pub sudden_death_duration_ms : Option ℤ
  pub turn_timeout_ms : Option ℤ

unfoldable pub board_for_mode : GameMode → List BoardSpace
unfolding normal_board duel_board
board_for_mode GameMode.normal = normal_board
board_for_mode GameMode.duel = duel_board

-- `_NORMAL_CONFIG` and `_DUEL_CONFIG`, by mode.
unfoldable pub get_game_config : GameMode → GameConfig
unfolding board_for_mode
get_game_config GameMode.normal = record {
  mode = GameMode.normal;
  board = board_for_mode GameMode.normal;
  max_players = 8;
  dice_count = 2;
  start_position = 1;
  jail_position = 11;
  railroad_positions = 6 ∷ 16 ∷ 26 ∷ 36 ∷ [];
  utility_positions = 13 ∷ 29 ∷ [];
  starting_balance = none;
  chance_deck = none;
  chest_deck = none;
  sudden_death_duration_ms = none;
  turn_timeout_ms = none;
}
get_game_config GameMode.duel = record {
  mode = GameMode.duel;
  board = board_for_mode GameMode.duel;
  max_players = 2;
  dice_count = 1;
  start_position = 1;
  jail_position = 7;
  railroad_positions = 6 ∷ 14 ∷ [];
  utility_positions = 10 ∷ 21 ∷ [];
  starting_balance = some (pos 1000);
  chance_deck = some (
      "duel_chance_01" ∷ "duel_chance_02" ∷ "duel_chance_03" ∷ "duel_chance_04" ∷ "duel_chance_05"
      ∷ "duel_chance_06" ∷ "duel_chance_07" ∷ "duel_chance_08" ∷ []);
  chest_deck = some [];
  sudden_death_duration_ms = some (pos 1200000);
  turn_timeout_ms = some (pos 30000);
}

-- `GameConfig.board_positions`
unfoldable pub board_positions : GameMode → List ℕ
unfolding get_game_config
board_positions mode = map (λ (space : BoardSpace). space.position) (get_game_config mode).board

find_space : ℕ → List BoardSpace → Option BoardSpace
find_space position [] = none
find_space position (space ∷ board) =
    if space.position == position then some space else find_space position board

unfoldable pub get_board_space : ℕ → GameMode → Result BoardSpace
unfolding find_space board_for_mode
get_board_space position mode = or_raise (find_space position (board_for_mode mode)) key_error

abbrev pub purchasable_type : SpaceType → Bool
purchasable_type t =
    is_space_type t SpaceType.property
    || is_space_type t SpaceType.railroad
    || is_space_type t SpaceType.utility

unfoldable pub is_purchasable : ℕ → GameMode → Result Bool
unfolding get_board_space
is_purchasable position mode = do
  space ← get_board_space position mode
  ok (purchasable_type space.type)
