-- ===== src/Animation.antt =====
-- src/domain/game/animation.py: the timeline that the clients replay, from the events of a command. An
-- interaction id, the text "turn:card", is the pair of the two.
pub mod Moves
use monopoly_be.Prelude.{
  ℕ, Bool, true, false, String, Option, none, some, List, [], ◌∷◌, ◌++◌, any, ◌==◌, contains,
  if◌then◌else◌,
}
use monopoly_be.Schema.{
  ActiveCard, CardDef, GameState, DiceRoll, GameEvent, PlayerMoved, MoveReason, player_moved,
  sent_to_jail, card_drawn, GameCommand, player, roll_dice,
}
use monopoly_be.Cards.{all_cards, find_card}

pub data Speed : Type 0 where
  normal fast : Speed

pub record RollDiceAnimation : Type 0 where
  pub player_id : ℕ
  pub die1 : ℕ
  pub die2 : ℕ
  pub is_doubles : Bool

pub record MoveAnimation : Type 0 where
  pub player_id : ℕ
  pub from_position : ℕ
  pub to_position : ℕ
  pub speed : Speed
  pub reason : MoveReason

pub data AnimationInstruction : Type 0 where
  show_roll : RollDiceAnimation → AnimationInstruction
  show_move : MoveAnimation → AnimationInstruction
  show_card : ActiveCard → AnimationInstruction
  wait_for_player : (interaction_id : ℕ × String) → AnimationInstruction

unfoldable pub card_interaction_id : ℕ → String → ℕ × String
card_interaction_id turn_number card_id = (turn_number, card_id)

-- `{e.player_id for e in events if isinstance(e, SentToJail)}`
unfoldable pub jailed_players : List GameEvent → List ℕ
jailed_players [] = []
jailed_players (sent_to_jail player_id player_name reason ∷ events) =
    player_id ∷ jailed_players events
jailed_players (_ ∷ events) = jailed_players events

unfoldable pub speed_of : MoveReason → Speed
speed_of MoveReason.card = Speed.fast
speed_of _ = Speed.normal

unfoldable pub move_animation : PlayerMoved → MoveAnimation
move_animation event = record {
  player_id = event.player_id;
  from_position = event.from_position;
  to_position = event.to_position;
  speed = speed_of event.reason;
  reason = event.reason;
}

-- The two instructions of a card that was drawn.
unfoldable pub card_instructions : Option CardDef → ℕ → String → ℕ → List AnimationInstruction
card_instructions none player_id card_id turn_number = []
card_instructions (some card_def) player_id card_id turn_number =
    show_card (record {
      id = card_def.id;
      kind = card_def.kind;
      effect = card_def.effect;
      drawer_id = player_id;
    })
    ∷ wait_for_player (card_interaction_id turn_number card_id)
    ∷ []

-- The loop over the events.
unfoldable pub event_instructions : List ℕ → ℕ → GameEvent → List AnimationInstruction
event_instructions jailed turn_number (player_moved event) =
    if contains jailed event.player_id then [] else show_move (move_animation event) ∷ []
event_instructions jailed turn_number (card_drawn player_id player_name card_id kind) =
    card_instructions (find_card card_id all_cards) player_id card_id turn_number
event_instructions jailed turn_number _ = []

unfoldable pub instructions_of : List ℕ → ℕ → List GameEvent → List AnimationInstruction
instructions_of jailed turn_number [] = []
instructions_of jailed turn_number (event ∷ events) =
    event_instructions jailed turn_number event ++ instructions_of jailed turn_number events

unfoldable pub roll_instructions : GameCommand → Option DiceRoll → List AnimationInstruction
roll_instructions (player player_id roll_dice) (some d) =
    show_roll
      (record { player_id = player_id; die1 = d.die1; die2 = d.die2; is_doubles = d.is_doubles })
    ∷ []
roll_instructions _ _ = []

unfoldable pub build_timeline : GameCommand → GameState → List GameEvent → List AnimationInstruction
build_timeline command state_after events =
    roll_instructions command state_after.turn.dice_roll
    ++ instructions_of (jailed_players events) state_after.turn.turn_number events
