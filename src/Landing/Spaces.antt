-- ===== src/Landing/Spaces.antt =====
-- src/domain/game/rules/movement.py: `resolve_landing`, a function for each of its branches.
use monopoly_be.Prelude.{
  ℕ, zero, suc, ◌+◌, Bool, true, false, not, ◌&&◌, Option, none, some, List, [], ◌∷◌, ◌==◌,
  if◌then◌else◌, is_some, ℤ, pos, Result, ok, err, recursion_error, ◌>>=◌,
}
use monopoly_be.Schema.{
  CardKind, CornerVariant, SpaceType, TurnPhase, DiceRoll, PlayerState, SpaceOwnership, TurnState,
  GameState, GameEvent, sent_to_jail, tax_paid, rent_paid,
}
use monopoly_be.Board.{BoardSpace, get_board_space, is_purchasable}
use monopoly_be.Helpers.{get_player_by_id_from_state, put_player, space_at, update_player_net_worth}
use monopoly_be.Movement.{send_to_jail, finalize}
use monopoly_be.Payments.{attempt_payment}
use monopoly_be.Rent.{calculate_rent}
use monopoly_be.Random.{Random}
use monopoly_be.Landing.Effects.{Landed, Landing, draw_and_apply}

abbrev pub is_goto_jail : Option CornerVariant → Bool
is_goto_jail (some CornerVariant.goto_jail) = true
is_goto_jail _ = false

-- The turn after a landing.
unfoldable pub landed_turn : TurnState → TurnPhase → Option ℕ → TurnState
landed_turn turn phase pending_buy = record turn {
  phase = phase;
  pending_buy_position = pending_buy;
}

-- `state_tmp.bankruptcy is not None`: the phase is set, and the landing returns.
unfoldable pub in_debt : {S : Type 0} → GameState → S → Landed S
in_debt state rng = record {
  state = record state { turn = record (state.turn) { phase = TurnPhase.bankrupt_resolution } };
  events = [];
  sent_to_jail = false;
  rng = rng;
}

unfoldable pub landed_at : {S : Type 0} → GameState → List GameEvent → S → Landed S
landed_at state events rng = record {
  state = state;
  events = events;
  sent_to_jail = false;
  rng = rng;
}

land_in_jail : {S : Type 0} → GameState → PlayerState → S → Result (Landed S)
unfolding landed_turn
land_in_jail state player rng = do
  updated ←
      update_player_net_worth (send_to_jail player state.game_mode) state.spaces state.game_mode
  players ← put_player state.players player.id updated
  final ← finalize state players state.spaces (landed_turn state.turn TurnPhase.post_roll none)
  ok (record {
    state = final;
    events = sent_to_jail player.id player.display_name "go_to_jail_space" ∷ [];
    sent_to_jail = true;
    rng = rng;
  })

unfoldable pub land_on_tax : {S : Type 0} → GameState → PlayerState → ℕ → S → Result (Landed S)
unfolding landed_turn in_debt landed_at
land_on_tax state player tax_amount rng = do
  start ← finalize state state.players state.spaces state.turn
  paid ← attempt_payment start player.id (pos tax_amount) none
  if is_some paid.bankruptcy then ok (in_debt paid rng) else do
    final ← finalize paid paid.players paid.spaces (landed_turn state.turn TurnPhase.post_roll none)
    ok (
        landed_at final
          (tax_paid player.id player.display_name player.position (pos tax_amount) ∷ []) rng)

-- The branch of an owned space, whose owner is another player and which is not mortgaged.
unfoldable pub pay_rent :
    {S : Type 0}
    → GameState
    → PlayerState
    → DiceRoll
    → BoardSpace
    → ℕ
    → (rent_multiplier : ℕ) → S
    → Result (Landed S)
unfolding landed_turn in_debt landed_at
pay_rent state player dice_roll space owner_id rent_multiplier rng = do
  owner ← get_player_by_id_from_state state owner_id
  rent ← calculate_rent state player.position (dice_roll.die1 + dice_roll.die2) rent_multiplier
  start ← finalize state state.players state.spaces state.turn
  paid ← attempt_payment start player.id (pos rent) (some owner.id)
  if is_some paid.bankruptcy
      then ok (in_debt paid rng)
      else ok (
          landed_at (record paid { turn = landed_turn paid.turn TurnPhase.must_pay_rent none })
            (rent_paid (record {
              payer_id = player.id;
              payer_name = player.display_name;
              owner_id = owner.id;
              owner_name = owner.display_name;
              position = player.position;
              property_name = space.name;
              amount = pos rent;
            })
              ∷ [])
            rng)

-- The last statements: the landing ends, perhaps with a purchase pending.
unfoldable pub come_to_rest : {S : Type 0} → GameState → Option ℕ → S → Result (Landed S)
unfolding landed_turn landed_at
come_to_rest state pending_buy rng = do
  final ←
      finalize state state.players state.spaces
        (landed_turn state.turn TurnPhase.post_roll pending_buy)
  ok (landed_at final [] rng)

unfoldable pub by_owner :
    {S : Type 0}
    → Option ℕ
    → SpaceOwnership
    → Bool
    → GameState
    → PlayerState
    → DiceRoll
    → BoardSpace
    → (rent_multiplier : ℕ) → S
    → Result (Landed S)
unfolding pay_rent come_to_rest
by_owner none ownership purchasable state player dice_roll space rent_multiplier rng =
    come_to_rest state (if purchasable then some player.position else none) rng
by_owner (some owner_id) ownership purchasable state player dice_roll space rent_multiplier rng =
    if purchasable && not (owner_id == player.id) && not ownership.is_mortgaged
    then pay_rent state player dice_roll space owner_id rent_multiplier rng
    else come_to_rest state none rng

unfoldable pub land_on_space :
    {S : Type 0}
    → GameState
    → PlayerState
    → DiceRoll
    → BoardSpace
    → (rent_multiplier : ℕ) → S
    → Result (Landed S)
unfolding by_owner
land_on_space state player dice_roll space rent_multiplier rng = do
  ownership ← space_at state.spaces player.position
  purchasable ← is_purchasable player.position state.game_mode
  by_owner ownership.owner_id ownership purchasable state player dice_roll space rent_multiplier rng

module _ (R : Random) (go_salary : ℤ) where
  open R use {State}

  unfoldable pub land_on_cards :
      Landing State
      → CardKind
      → GameState
      → PlayerState
      → DiceRoll
      → (recursion_depth : ℕ) → State
      → Result (Landed State)
  land_on_cards land kind state player dice_roll recursion_depth rng = do
    start ← finalize state state.players state.spaces state.turn
    latest ← get_player_by_id_from_state start player.id
    drawn ← draw_and_apply R go_salary land dice_roll start latest kind recursion_depth rng
    let s = (drawn.0).state
    if (drawn.0).sent_to_jail
        then ok (record (drawn.0) {
          state = record s {
            active_card = some (drawn.1);
            turn = record (s.turn) { phase = TurnPhase.post_roll; doubles_streak = 0 };
          };
        })
        else ok (record (drawn.0) { state = record s { active_card = some (drawn.1) } })

  -- The branches by the type of the space.
  unfoldable pub land_by_type :
      SpaceType
      → Option ℕ
      → Landing State
      → BoardSpace
      → GameState
      → PlayerState
      → DiceRoll
      → (recursion_depth rent_multiplier : ℕ) → State
      → Result (Landed State)
  unfolding land_on_tax land_on_cards land_on_space
  land_by_type SpaceType.tax (some amount) land space state player dice_roll depth multiplier rng =
      land_on_tax state player amount rng
  land_by_type SpaceType.chance _ land space state player dice_roll depth multiplier rng =
      land_on_cards land CardKind.chance state player dice_roll depth rng
  land_by_type SpaceType.chest _ land space state player dice_roll depth multiplier rng =
      land_on_cards land CardKind.community_chest state player dice_roll depth rng
  land_by_type _ _ land space state player dice_roll depth multiplier rng =
      land_on_space state player dice_roll space multiplier rng

  -- The body of `resolve_landing`, with the landing that a card may make.
  unfoldable pub landing_step : Landing State → Landing State
  unfolding land_in_jail land_by_type
  landing_step land state player dice_roll recursion_depth rent_multiplier rng = do
    space ← get_board_space player.position state.game_mode
    if is_goto_jail space.corner
        then land_in_jail state player rng
        else land_by_type space.type space.tax_amount land space state player dice_roll
            recursion_depth rent_multiplier rng

  -- `fuel` bounds the depth of the calls.
  unfoldable pub resolve_landing : (fuel : ℕ) → Landing State
  unfolding landing_step
  resolve_landing zero state player dice_roll recursion_depth rent_multiplier rng =
      err recursion_error
  resolve_landing (suc fuel) state player dice_roll recursion_depth rent_multiplier rng =
      landing_step (resolve_landing fuel) state player dice_roll recursion_depth rent_multiplier rng
