-- ===== src/Engine/Roll.antt =====
-- src/domain/game/engine.py: `_handle_roll_dice` and `_execute_move`, with rng.py's
-- `roll_dice_count`.
use monopoly_be.Prelude.{
  ℕ, ◌+◌, ◌-◌, Bool, true, false, not, ◌&&◌, ◌||◌, Option, none, some, List, [], ◌∷◌, ◌++◌, ◌==◌,
  ltb, leb, if◌then◌else◌, is_some, ℤ, ◌-ℤ◌, Result, ok, illegal_move, raise_if, ◌>>=◌, ◌>>◌,
}
use monopoly_be.Schema.{
  TurnPhase, is_phase, phase_in, DiceRoll, JailStatus, PlayerState, TurnState, GameState,
  MoveReason, GameEvent, player_moved, rolled_doubles, sent_to_jail,
}
use monopoly_be.Board.{dice_min, dice_max, doubles_jail_threshold, get_game_config}
use monopoly_be.Helpers.{get_player_by_id_from_state, replace_player, update_player_net_worth}
use monopoly_be.Movement.{advance_position, apply_go_salary, send_to_jail}
use monopoly_be.Random.{Random}
use monopoly_be.Landing.{resolve_landing}

-- Python's default recursion limit is 1000 frames, and a landing that lands anew takes three.
abbrev pub landing_fuel : ℕ
landing_fuel = 333

-- `_execute_move`'s `PlayerMoved`.
dice_move_event : PlayerState → ℕ → ℕ → GameEvent
dice_move_event player new_pos steps = player_moved (record {
  player_id = player.id;
  player_name = player.display_name;
  player_token = player.token;
  from_position = player.position;
  to_position = new_pos;
  dice_total = steps;
  reason = MoveReason.dice;
})

-- `if passed_go: …`: the state, the event, and the player as it then stands.
roll_salary : Bool → GameState → PlayerState → ℤ → Result (GameState × List GameEvent × PlayerState)
roll_salary false working moved_player go_salary = ok (working, [], moved_player)
roll_salary true working moved_player go_salary = do
  paid ← apply_go_salary working moved_player go_salary
  latest ← get_player_by_id_from_state (paid.0) moved_player.id
  ok (paid.0, paid.1 ∷ [], latest)

-- The turn at the end of `_execute_move`, from the turn that the landing left.
unfoldable pub turn_after_move :
    TurnState → DiceRoll → (stopped jailed extra_roll : Bool) → (new_streak : ℕ) → TurnState
turn_after_move turn dice_roll stopped jailed extra_roll new_streak =
    if stopped
    then record turn {
      dice_roll = some dice_roll;
      doubles_streak = 0;
      phase = if jailed then TurnPhase.post_roll else turn.phase;
    }
    else if extra_roll
    then record turn {
      dice_roll = some dice_roll;
      doubles_streak = new_streak;
      phase = if is_some turn.pending_buy_position then TurnPhase.post_roll else TurnPhase.pre_roll;
    }
    else record turn { dice_roll = some dice_roll; doubles_streak = 0 }

-- The turn of a roll that moves nobody.
unfoldable pub turn_without_move : TurnState → DiceRoll → TurnState
turn_without_move turn dice_roll = record turn {
  dice_roll = some dice_roll;
  doubles_streak = 0;
  phase = TurnPhase.post_roll;
  pending_buy_position = none;
}

-- The state, the events and the generator that a handler returns.
pub record Handled (S : Type 0) : Type 0 where
  pub state : GameState
  pub events : List GameEvent
  pub rng : S

module _ (R : Random) (go_salary : ℤ) where
  open R use {State, randint}

  -- The two dice and the generator.
  unfoldable pub roll_dice_count : State → ℕ → ℕ × ℕ × State
  roll_dice_count rng dice_count =
      let (die1, rng1) = randint dice_min dice_max rng in
      if dice_count == 1
      then (die1, 0, rng1)
      else let (die2, rng2) = randint dice_min dice_max rng1 in (die1, die2, rng2)

  unfoldable pub execute_move :
      GameState
      → PlayerState
      → (steps : ℕ) → DiceRoll
      → (is_doubles extra_roll_allowed : Bool) → State
      → Result (Handled State)
  unfolding dice_move_event roll_salary turn_after_move
  execute_move state player steps dice_roll is_doubles extra_roll_allowed rng = do
    arrived ← advance_position player.position steps state.game_mode
    let moved_player = record player { position = arrived.0 }
    players ← replace_player state.players player.id moved_player
    salary ← roll_salary (arrived.1) (record state { players = players }) moved_player go_salary
    let new_streak = if is_doubles then state.turn.doubles_streak + 1 else 0
    let extra_roll = is_doubles && extra_roll_allowed
    landed ← resolve_landing R go_salary landing_fuel (salary.0) (salary.2) dice_roll 0 1 rng
    let working = landed.state
    ok (record {
      state = record working {
        turn =
            turn_after_move working.turn dice_roll
              (landed.sent_to_jail || is_some working.bankruptcy) landed.sent_to_jail extra_roll
              new_streak;
      };
      events =
          dice_move_event player (arrived.0) steps ∷ salary.1
          ++ ((if extra_roll
                then rolled_doubles player.id player.display_name new_streak ∷ []
                else [])
              ++ landed.events);
      rng = landed.rng;
    })

  -- The roll of a player in jail.
  unfoldable pub roll_in_jail :
      GameState
      → PlayerState
      → JailStatus
      → DiceRoll
      → (jail_fine : ℤ) → State
      → Result (Handled State)
  unfolding execute_move turn_without_move
  roll_in_jail state player jail_status dice_roll jail_fine rng =
      let total = dice_roll.die1 + dice_roll.die2 in
      if dice_roll.is_doubles
      then execute_move state (record player { jail_status = none }) total dice_roll true false rng
      else if ltb 0 (jail_status.turns_remaining - 1)
      then (do
        updated ←
            update_player_net_worth
              (record player {
                jail_status =
                    some (record jail_status { turns_remaining = jail_status.turns_remaining - 1 });
              })
              state.spaces state.game_mode
        players ← replace_player state.players player.id updated
        ok (record {
          state = record state { players = players; turn = turn_without_move state.turn dice_roll };
          events = [];
          rng = rng;
        }))
      else (do
        let freed = record player { jail_status = none; balance = player.balance -ℤ jail_fine }
        updated ← update_player_net_worth freed state.spaces state.game_mode
        players ← replace_player state.players player.id updated
        execute_move (record state { players = players }) freed total dice_roll false false rng)

  -- The roll of a player who is free: a third double sends to jail.
  unfoldable pub roll_free : GameState → PlayerState → DiceRoll → State → Result (Handled State)
  unfolding execute_move turn_without_move
  roll_free state player dice_roll rng =
      let new_streak = if dice_roll.is_doubles then state.turn.doubles_streak + 1 else 0 in
      if dice_roll.is_doubles && leb doubles_jail_threshold new_streak
      then (do
        updated ←
            update_player_net_worth (send_to_jail player state.game_mode) state.spaces
              state.game_mode
        players ← replace_player state.players player.id updated
        ok (record {
          state = record state { players = players; turn = turn_without_move state.turn dice_roll };
          events = sent_to_jail player.id player.display_name "doubles" ∷ [];
          rng = rng;
        }))
      else execute_move state player (dice_roll.die1 + dice_roll.die2) dice_roll
          dice_roll.is_doubles dice_roll.is_doubles rng

  unfoldable pub roll_by_jail :
      Option JailStatus
      → GameState
      → PlayerState
      → DiceRoll
      → (jail_fine : ℤ) → State
      → Result (Handled State)
  unfolding roll_in_jail roll_free
  roll_by_jail none state player dice_roll jail_fine rng = roll_free state player dice_roll rng
  roll_by_jail (some jail_status) state player dice_roll jail_fine rng =
      roll_in_jail state player jail_status dice_roll jail_fine rng

  unfoldable pub handle_roll_dice :
      GameState → (player_id : ℕ) → (jail_fine : ℤ) → State → Result (Handled State)
  unfolding roll_dice_count roll_by_jail
  handle_roll_dice state player_id jail_fine rng = do
    raise_if (not (phase_in (TurnPhase.pre_roll ∷ TurnPhase.jail_decision ∷ []) state.turn.phase))
        (illegal_move "cannot roll dice in current phase")
    player ← get_player_by_id_from_state state player_id
    raise_if (is_some player.jail_status && is_phase state.turn.phase TurnPhase.pre_roll)
        (illegal_move "must resolve jail decision before rolling")
    let rolled = roll_dice_count rng (get_game_config state.game_mode).dice_count
    roll_by_jail player.jail_status state player
        (record { die1 = rolled.0; die2 = rolled.1; is_doubles = rolled.0 == rolled.1 }) jail_fine
        (rolled.2)
