-- ===== src/Landing/Effects.antt =====
-- src/domain/game/rules/cards.py: `apply_card_effect` and `draw_and_apply`.
use monopoly_be.Prelude.{
  ℕ, suc, ◌+◌, Bool, true, false, ◌&&◌, ◌||◌, String, none, List, [], ◌∷◌, ◌++◌, ◌==◌, leb,
  if◌then◌else◌, length, ℤ, pos, ◌+ℤ◌, ◌-ℤ◌, ◌*ℤ◌, min_ℤ, Result, ok, ◌>>=◌,
}
use monopoly_be.Schema.{
  GameMode, CardKind, NearestType, CardEffect, advance_to, advance_to_nearest, go_to_jail, go_back,
  collect, pay, collect_from_each_player, pay_each_player, get_out_of_jail_free, repairs,
  ActiveCard, DiceRoll, PlayerState, SpaceOwnership, GameState, MoveReason, GameEvent, player_moved,
  sent_to_jail, card_drawn,
}
use monopoly_be.Board.{GameConfig, get_game_config, board_positions, card_landing_recursion_limit}
use monopoly_be.Helpers.{
  get_player_by_id, get_player_by_id_from_state, put_player, refresh_all_net_worth, space_at,
  update_player_net_worth,
}
use monopoly_be.Movement.{
  index_of, position_at, advance_position, sub_mod, send_to_jail, apply_go_salary,
}
use monopoly_be.Payments.{attempt_payment}
use monopoly_be.Random.{Random}
use monopoly_be.Cards.{draw_card, nearest_position, steps_to, set_player}

-- What a landing or an effect returns, with the generator that it leaves. `S` is the generator's state.
pub record Landed (S : Type 0) : Type 0 where
  pub state : GameState
  pub events : List GameEvent
  pub sent_to_jail : Bool
  pub rng : S

-- `resolve_landing(state, player, dice_roll, recursion_depth, rent_multiplier, rng)`
abbrev pub Landing : Type 0 → Type 0
Landing S = GameState → PlayerState → DiceRoll → ℕ → ℕ → S → Result (Landed S)

-- `_card_move_event`
card_move_event : PlayerState → ℕ → GameEvent
card_move_event player to_pos = player_moved (record {
  player_id = player.id;
  player_name = player.display_name;
  player_token = player.token;
  from_position = player.position;
  to_position = to_pos;
  dice_total = 0;
  reason = MoveReason.card;
})

-- `if passed_go and collect_go_bonus: …`: the state, the event, and the player as it then stands.
unfoldable pub card_salary :
    Bool → GameState → PlayerState → ℤ → Result (GameState × List GameEvent × PlayerState)
card_salary false state moved go_salary = ok (state, [], moved)
card_salary true state moved go_salary = do
  paid ← apply_go_salary state moved go_salary
  latest ← get_player_by_id_from_state (paid.0) moved.id
  ok (paid.0, paid.1 ∷ [], latest)

unfoldable pub nearest_targets : NearestType → GameConfig → List ℕ
nearest_targets NearestType.railroad config = config.railroad_positions
nearest_targets NearestType.utility config = config.utility_positions

-- The loop of `CollectFromEachPlayerEffect`: what the others pay, and the total.
collect_from :
    List PlayerState → ℕ → ℤ → List SpaceOwnership → GameMode → Result (List PlayerState × ℤ)
collect_from [] player_id amount spaces game_mode = ok ([], pos 0)
collect_from (other ∷ players) player_id amount spaces game_mode =
    let rest = collect_from players player_id amount spaces game_mode in
    if other.id == player_id || other.is_bankrupt then (do r ← rest; ok (other ∷ r.0, r.1)) else (do
      let paid = min_ℤ amount other.balance
      updated ←
          update_player_net_worth (record other { balance = other.balance -ℤ paid }) spaces
            game_mode
      r ← rest
      ok (updated ∷ r.0, paid +ℤ r.1))

-- The two loops of `PayEachPlayerEffect`.
count_others : List PlayerState → ℕ → ℕ
count_others [] player_id = 0
count_others (other ∷ players) player_id =
    if other.id == player_id || other.is_bankrupt
    then count_others players player_id
    else suc (count_others players player_id)

pay_to : List PlayerState → ℕ → ℤ → List SpaceOwnership → GameMode → Result (List PlayerState)
pay_to [] player_id amount spaces game_mode = ok []
pay_to (other ∷ players) player_id amount spaces game_mode =
    let rest = pay_to players player_id amount spaces game_mode in
    if other.id == player_id || other.is_bankrupt then (do r ← rest; ok (other ∷ r)) else (do
      updated ←
          update_player_net_worth (record other { balance = other.balance +ℤ amount }) spaces
            game_mode
      r ← rest
      ok (updated ∷ r))

-- The loop of `RepairsEffect`.
repair_cost : List ℕ → List SpaceOwnership → (per_house per_hotel cost : ℤ) → Result ℤ
repair_cost [] spaces per_house per_hotel cost = ok cost
repair_cost (p ∷ positions) spaces per_house per_hotel cost = do
  ownership ← space_at spaces p
  repair_cost positions spaces per_house per_hotel
      (cost +ℤ (if ownership.has_hotel then per_hotel else per_house *ℤ pos ownership.houses))

kind_value : CardKind → String
kind_value CardKind.chance = "chance"
kind_value CardKind.community_chest = "community_chest"

-- An effect that moves nobody returns the state alone.
stay : {S : Type 0} → S → Result GameState → Result (Landed S)
stay rng m = do s ← m; ok (record { state = s; events = []; sent_to_jail = false; rng = rng })

collect_from_each : GameState → PlayerState → ℤ → Result GameState
unfolding collect_from
collect_from_each state player amount = do
  others ← collect_from state.players player.id amount state.spaces state.game_mode
  receiver ← get_player_by_id (others.0) player.id
  updated ←
      update_player_net_worth (record receiver { balance = receiver.balance +ℤ others.1 })
        state.spaces state.game_mode
  players ← put_player (others.0) player.id updated
  ok (record state { players = players })

pay_each : GameState → PlayerState → ℤ → Result GameState
unfolding count_others pay_to
pay_each state player amount = do
  let total = amount *ℤ pos (count_others state.players player.id)
  updated ←
      update_player_net_worth (record player { balance = player.balance -ℤ total }) state.spaces
        state.game_mode
  payer_paid ← put_player state.players player.id updated
  players ← pay_to payer_paid player.id amount state.spaces state.game_mode
  refreshed ← refresh_all_net_worth players state.spaces state.game_mode
  ok (record state { players = refreshed })

module _ (R : Random) (go_salary : ℤ) (land : Landing R.State) (dice_roll : DiceRoll) where
  open R use {State}

  -- The move of `AdvanceToEffect` and `AdvanceToNearestEffect`, and its landing.
  unfoldable pub move_to :
      GameState
      → PlayerState
      → (target : ℕ) → (bonus : Bool) → (recursion_depth rent_multiplier : ℕ) → State
      → Result (Landed State)
  unfolding card_move_event card_salary
  move_to state player target bonus recursion_depth rent_multiplier rng = do
    steps ← steps_to player.position target state.game_mode
    arrived ← advance_position player.position steps state.game_mode
    let moved = record player { position = arrived.0 }
    placed ← set_player state moved
    salary ← card_salary (arrived.1 && bonus) placed moved go_salary
    landed ← land (salary.0) (salary.2) dice_roll recursion_depth rent_multiplier rng
    ok (record landed { events = card_move_event player (arrived.0) ∷ salary.1 ++ landed.events })

  unfoldable pub move_back :
      GameState → PlayerState → ℕ → (recursion_depth : ℕ) → State → Result (Landed State)
  unfolding card_move_event
  move_back state player spaces recursion_depth rng = do
    let positions = board_positions state.game_mode
    current_index ← index_of positions player.position
    new_pos ← position_at positions (sub_mod current_index spaces (length positions))
    let moved = record player { position = new_pos }
    placed ← set_player state moved
    if leb card_landing_recursion_limit recursion_depth
        then ok (record {
          state = placed;
          events = card_move_event player new_pos ∷ [];
          sent_to_jail = false;
          rng = rng;
        })
        else (do
          landed ← land placed moved dice_roll (recursion_depth + 1) 1 rng
          ok (record landed { events = card_move_event player new_pos ∷ landed.events }))

  unfoldable pub apply_effect :
      CardEffect → GameState → PlayerState → (recursion_depth : ℕ) → State → Result (Landed State)
  unfolding move_to move_back stay collect_from_each pay_each nearest_targets repair_cost
  apply_effect (advance_to target bonus) state player recursion_depth rng =
      move_to state player target bonus recursion_depth 1 rng
  apply_effect (advance_to_nearest kind pay_double) state player recursion_depth rng = do
    target ←
        nearest_position player.position (nearest_targets kind (get_game_config state.game_mode))
          state.game_mode
    move_to state player target true recursion_depth (if pay_double then 2 else 1) rng
  apply_effect go_to_jail state player recursion_depth rng = do
    jailed ← set_player state (send_to_jail player state.game_mode)
    ok (record {
      state = jailed;
      events = sent_to_jail player.id player.display_name "card" ∷ [];
      sent_to_jail = true;
      rng = rng;
    })
  apply_effect (go_back spaces) state player recursion_depth rng =
      move_back state player spaces recursion_depth rng
  apply_effect (collect amount) state player recursion_depth rng =
      stay rng (set_player state (record player { balance = player.balance +ℤ amount }))
  apply_effect (pay amount) state player recursion_depth rng =
      stay rng (attempt_payment state player.id amount none)
  apply_effect (collect_from_each_player amount) state player recursion_depth rng =
      stay rng (collect_from_each state player amount)
  apply_effect (pay_each_player amount) state player recursion_depth rng =
      stay rng (pay_each state player amount)
  apply_effect get_out_of_jail_free state player recursion_depth rng = stay rng (
      set_player state
        (record player { get_out_of_jail_cards = player.get_out_of_jail_cards +ℤ pos 1 }))
  apply_effect (repairs per_house per_hotel) state player recursion_depth rng = stay rng (do
    cost ← repair_cost player.owned_positions state.spaces per_house per_hotel (pos 0)
    attempt_payment state player.id cost none)

  -- The landed state and the active card.
  unfoldable pub draw_and_apply :
      GameState
      → PlayerState
      → CardKind
      → (recursion_depth : ℕ) → State
      → Result (Landed State × ActiveCard)
  unfolding apply_effect kind_value
  draw_and_apply state player kind recursion_depth rng = do
    drawn ← draw_card R state kind rng
    let card = drawn.1
    latest ← get_player_by_id_from_state (drawn.0) player.id
    landed ← apply_effect card.effect (drawn.0) latest recursion_depth (drawn.2)
    ok (
      record landed {
        events =
            card_drawn player.id player.display_name card.id (kind_value card.kind) ∷ landed.events;
      },
      record { id = card.id; kind = card.kind; effect = card.effect; drawer_id = player.id },
    )
