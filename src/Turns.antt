-- ===== src/Turns.antt =====
-- src/domain/game/rules/bankruptcy.py: the turn moves off a player who is out, and the win condition.
pub mod Frame
pub mod Rotation
pub mod Winner
use monopoly_be.Prelude.{
  ℕ, zero, suc, ◌+◌, ◌%◌, Bool, not, ◌&&◌, Option, none, some, List, [], ◌∷◌, ◌==◌, leb,
  if◌then◌else◌, is_some, length, get_elem?, filterb, Result, ok, err, index_error, or_raise, ◌>>=◌,
  ◌>>◌,
}
use monopoly_be.Schema.{
  TurnPhase, GameStatus, is_in_progress, JailStatus, PlayerState, TurnState, GameState,
}
use monopoly_be.Helpers.{next_index}

-- The loop over the offsets: `rounds` of them are left, from `offset` on. The answer is the first
-- player who is not bankrupt, and whether the index passed the end.
unfoldable pub scan_players :
    (rounds : ℕ) → List PlayerState → (start offset : ℕ) → Result (Option (PlayerState × Bool))
scan_players zero players start offset = ok none
scan_players (suc rounds) players start offset =
    let rest = scan_players rounds players start (offset + 1) in
    do
      candidate ← or_raise (get_elem? players ((start + offset) % length players)) index_error
      if not candidate.is_bankrupt
          then ok (some (candidate, leb (length players) (start + offset)))
          else rest

-- The phase in which a player's turn begins.
unfoldable pub opening_phase : PlayerState → TurnPhase
opening_phase player =
    if is_some player.jail_status then TurnPhase.jail_decision else TurnPhase.pre_roll

-- The turn of the next player: `rounds` is 1 where the order wrapped.
unfoldable pub turn_of : TurnState → PlayerState → ℕ → TurnState
unfolding opening_phase
turn_of turn next_player rounds = record turn {
  phase = opening_phase next_player;
  current_player_id = next_player.id;
  turn_number = turn.turn_number + 1;
  round_number = turn.round_number + rounds;
  dice_roll = none;
  doubles_streak = 0;
  trade_offers_made = 0;
  pending_buy_position = none;
}

hand_over : GameState → Option (PlayerState × Bool) → GameState
unfolding turn_of
hand_over state none = state
hand_over state (some (next_player, wrapped)) = record state {
  turn = turn_of state.turn next_player (if wrapped then 1 else 0);
}

unfoldable pub advance_turn_off_player : GameState → ℕ → Result GameState
unfolding scan_players hand_over
advance_turn_off_player state eliminated_id = do
  start ← next_index state.players eliminated_id
  found ← scan_players (length state.players) state.players start 1
  ok (hand_over state found)

-- `[p for p in players if not p.is_bankrupt]`
unfoldable pub survivors : List PlayerState → List PlayerState
survivors players = filterb (λ (p : PlayerState). not p.is_bankrupt) players

-- The winner, where exactly one player is left.
sole : List PlayerState → Option PlayerState
sole (p ∷ []) = some p
sole _ = none

declare_winner : GameState → Option PlayerState → GameState
declare_winner state none = state
declare_winner state (some winner) =
    if is_in_progress state.status
    then record state {
      status = GameStatus.finished;
      winner_id = some winner.id;
      turn = record (state.turn) { phase = TurnPhase.game_over };
    }
    else state

unfoldable pub check_win_condition : GameState → GameState
unfolding survivors sole declare_winner
check_win_condition state = declare_winner state (sole (survivors state.players))
