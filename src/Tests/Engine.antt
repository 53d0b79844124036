-- ===== src/Tests/Engine.antt =====
-- Commands, dice and cards with a generator that counts.
use monopoly_be.Prelude.{
  List, ℕ, ◌+◌, ◌≡◌, refl, ◌⊎◌, none, arith, pos, Result, ok, err, illegal_move,
}
use mathlib.Core.List.{Perm}
use mathlib.Core.List.Perm
use monopoly_be.Turns.{survivors, turn_of, check_win_condition}
use monopoly_be.Timer.{with_turn_deadline}
use monopoly_be.Actions.{with_actions}
use monopoly_be.Building.{has_any_buildable, has_any_mortgageable, has_any_unmortgageable}
use monopoly_be.Payments.{try_settle_debt}
use monopoly_be.Helpers.{next_index, find_index, get_player_by_id_from_state, find_player}
use monopoly_be.Schema.{
  surrender, CardEffect, go_to_jail, TurnPhase, GameState, CardKind, CardDef, player, end_turn,
}
use monopoly_be.Random.{Random, IsRandom}
use monopoly_be.Cards.{draw_card}
use monopoly_be.Engine.{
  is_reply, assert_current_player, handle_end_turn, finish, reset_actor_strikes, Call, Handled,
  apply,
}
use monopoly_be.Engine.Settled.{IsAnswer, IsSettled, apply-IsSettled, apply-out_of_turn}
use monopoly_be.Tests.Fixture.{start, board, three, game, opening_turn}

-- The lower bound, and the list as it is; the state counts the calls.
abbrev pub counting : Random
counting = record { State = ℕ; randint = λ a b n. (a, n + 1); shuffle = λ xs n. (xs, n + 1) }

pub counting-IsRandom : IsRandom counting
counting-IsRandom = record {
  randint_bounds = λ a b n h. (omega arith, h);
  shuffle_perm = λ A xs n. Perm.refl xs;
}

abbrev pub call : Call
call = record {
  now = pos 1000;
  go_salary = pos 200;
  jail_fine = pos 50;
  trade_id = 1;
  entry_id = λ n. "entry";
}

abbrev pub ending : GameState
ending = game three board (opening_turn TurnPhase.post_roll 10 none)

abbrev state_of : Result (Handled ℕ) → GameState
state_of (ok h) = h.state
state_of (err e) = start

apply-IsSettled_example : IsSettled (state_of (apply counting ending (player 10 end_turn) call 0))
unfolding apply is_reply assert_current_player handle_end_turn next_index find_index survivors
    get_player_by_id_from_state find_player finish try_settle_debt reset_actor_strikes with_actions
    with_turn_deadline check_win_condition turn_of has_any_buildable has_any_mortgageable
    has_any_unmortgageable
apply-IsSettled_example = apply-IsSettled counting ending (player 10 end_turn) call 0 refl refl

apply-out_of_turn_example :
    (ending.turn.current_player_id ≡ 20)
    ⊎ IsAnswer surrender
    ⊎ (apply counting ending (player 20 surrender) call 0 ≡ err (illegal_move "not your turn"))
apply-out_of_turn_example = apply-out_of_turn counting ending 20 surrender call 0

abbrev drawn_state : Result (GameState × CardDef × ℕ) → GameState
drawn_state (ok r) = r.0
drawn_state (err e) = start

abbrev drawn_effect : Result (GameState × CardDef × ℕ) → CardEffect
drawn_effect (ok r) = (r.1).effect
drawn_effect (err e) = go_to_jail

abbrev draw : Result (GameState × CardDef × ℕ)
draw = draw_card counting start CardKind.chance 0
