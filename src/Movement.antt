-- ===== src/Movement.antt =====
-- src/domain/game/rules/movement.py: positions on the board, jail, the salary. Landing is in
-- Landing.antt.
pub mod Board
use monopoly_be.Prelude.{
  ℕ, zero, suc, ◌+◌, ◌-◌, ◌*◌, ◌%◌, Bool, Option, none, some, List, [], ◌∷◌, ◌==◌, leb,
  if◌then◌else◌, length, get_elem?, ℤ, ◌+ℤ◌, Result, ok, err, value_error, index_error, or_raise,
  ◌>>=◌, ◌>>◌,
}
use monopoly_be.Schema.{
  GameMode, PlayerState, SpaceOwnership, TurnState, GameState, GameEvent, passed_go,
}
use monopoly_be.Board.{board_positions, get_game_config, jail_turns_initial}
use monopoly_be.Helpers.{put_player, refresh_all_net_worth, update_player_net_worth}

unfoldable pub find_position : ℕ → List ℕ → Option ℕ
find_position n [] = none
find_position n (p ∷ positions) =
    if p == n
    then some 0
    else elim (find_position n positions) [ none ↦ none | some i ↦ some (suc i) ]

-- `positions.index(n)`
unfoldable pub index_of : List ℕ → ℕ → Result ℕ
unfolding find_position
index_of positions n = or_raise (find_position n positions) value_error

-- `positions[i]`
unfoldable pub position_at : List ℕ → ℕ → Result ℕ
position_at positions i = or_raise (get_elem? positions i) index_error

-- The new position, and whether GO was passed.
unfoldable pub advance_position : ℕ → ℕ → GameMode → Result (ℕ × Bool)
unfolding index_of position_at
advance_position from_pos steps game_mode = do
  let positions = board_positions game_mode
  current_index ← index_of positions from_pos
  new_pos ← position_at positions ((current_index + steps) % length positions)
  ok (new_pos, leb (length positions) (current_index + steps))

-- `(a - b) % n`, whose result Python takes in [0, n).
abbrev pub sub_mod : ℕ → ℕ → ℕ → ℕ
sub_mod a b n = (a + n * b - b) % n

unfoldable pub send_to_jail : PlayerState → GameMode → PlayerState
send_to_jail player game_mode = record player {
  position = (get_game_config game_mode).jail_position;
  jail_status = some (record { turns_remaining = jail_turns_initial });
}

unfoldable pub apply_go_salary : GameState → PlayerState → ℤ → Result (GameState × GameEvent)
apply_go_salary state player amount = do
  updated ←
      update_player_net_worth (record player { balance = player.balance +ℤ amount }) state.spaces
        state.game_mode
  players ← put_player state.players player.id updated
  ok (record state { players = players }, passed_go player.id player.display_name amount)

-- `_finalize`, less its unused `events`.
unfoldable pub finalize :
    GameState → List PlayerState → List SpaceOwnership → TurnState → Result GameState
finalize state players spaces turn = do
  refreshed ← refresh_all_net_worth players spaces state.game_mode
  ok (record state { players = refreshed; spaces = spaces; turn = turn })
