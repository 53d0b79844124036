-- ===== src/Tests/Turns.antt =====
-- The order of turns, the winner, the board and the interest on the small games.
use monopoly_be.Prelude.{
  is_some, ℕ, ◌+◌, ◌%◌, ◌≤◌, ◌≡◌, ◌≢◌, refl, ◌⊎◌, true, false, none, some, List, [], ◌∷◌, leb,
  if◌then◌else◌, arith, length, pos, ok,
}
use monopoly_be.Schema.{GameState, GameStatus, PlayerState, TurnPhase}
use monopoly_be.Helpers.{find_index}
use monopoly_be.Turns.{check_win_condition, advance_turn_off_player}
use monopoly_be.Turns.Rotation.{IsNext, advance_turn_off_player-IsNext}
use monopoly_be.Turns.Winner.{OnlyActive, check_win_condition_lem}
use monopoly_be.Interest.{unmortgage_cost, mortgage_interest}
use monopoly_be.Interest.Exact.{exact_cost, exact_interest, unmortgage_cost-exact}
use monopoly_be.Tests.Fixture.{player_with, board, game, opening_turn}

-- Player 30 is out.
abbrev one_out : List PlayerState
one_out =
    player_with 10 (pos 100) [] false
    ∷ player_with 20 (pos 100) [] false
    ∷ player_with 30 (pos 0) [] true
    ∷ []

abbrev second_moves : GameState
second_moves = game one_out board (opening_turn TurnPhase.post_roll 20 none)

advance_turn_off_player-IsNext_example :
    (k : ℕ) × (p : PlayerState) × IsNext one_out 1 1 k p
    × (advance_turn_off_player second_moves 20
        ≡ ok (record second_moves {
          turn = record (second_moves.turn) {
            phase = (if is_some p.jail_status then TurnPhase.jail_decision else TurnPhase.pre_roll);
            current_player_id = p.id;
            turn_number = second_moves.turn.turn_number + 1;
            round_number =
                second_moves.turn.round_number + (if leb (length one_out) (1 + k) then 1 else 0);
            dice_roll = none;
            doubles_streak = 0;
            trade_offers_made = 0;
            pending_buy_position = none;
          };
        }))
unfolding find_index
advance_turn_off_player-IsNext_example =
    advance_turn_off_player-IsNext second_moves 20 1 2 refl (omega arith) (omega arith) refl refl

check_win_condition_lem_example :
    ((w : PlayerState)
      → OnlyActive one_out w
      → check_win_condition second_moves ≡ record second_moves {
        status = GameStatus.finished;
        winner_id = some w.id;
        turn = record (second_moves.turn) { phase = TurnPhase.game_over };
      })
    × ((check_win_condition second_moves ≡ second_moves)
        ⊎ ((w : PlayerState) × OnlyActive one_out w))
check_win_condition_lem_example = check_win_condition_lem second_moves refl

unmortgage_cost-exact_example :
    (mortgage_interest 100 ≡ exact_interest 100)
    × (exact_cost 100 ≤ unmortgage_cost 100)
    × (unmortgage_cost 100 ≤ exact_cost 100 + 1)
    × (100 % 10 ≢ 0 → unmortgage_cost 100 ≡ exact_cost 100)
unmortgage_cost-exact_example = unmortgage_cost-exact 100 (omega arith)
