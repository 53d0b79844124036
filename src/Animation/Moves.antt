-- ===== src/Animation/Moves.antt =====
-- src/domain/game/animation.py: which moves are shown, and in which order.
use monopoly_be.Prelude.{
  any, ◌==◌, ◌||◌, String, ℕ, contains, ◌≡◌, refl, ap, ◌∙◌, inl, inr, Bool, true, false, not,
  Option, none, some, List, [], ◌∷◌, ◌++◌, map, Bool-cases, filterb,
}
use monopoly_be.Schema.{
  MoveReason, CardDef, GameState, GameEvent, DiceRoll, PlayerMoved, player_moved, card_drawn,
  GameCommand, passed_go, rent_paid, property_bought, buy_declined, rolled_doubles, sent_to_jail,
  tax_paid, turn_ended, player_surrendered, turn_timed_out, player, roll_dice,
}
use monopoly_be.Cards.{find_card, all_cards}
use monopoly_be.Animation.{
  Speed, speed_of, AnimationInstruction, MoveAnimation, show_roll, show_move, show_card,
  wait_for_player, jailed_players, move_animation, card_instructions, event_instructions,
  instructions_of, roll_instructions, build_timeline,
}

-- The moves among the instructions, and among the events.
pub moves_shown : List AnimationInstruction → List MoveAnimation
moves_shown [] = []
moves_shown (show_move m ∷ instructions) = m ∷ moves_shown instructions
moves_shown (_ ∷ instructions) = moves_shown instructions

pub moves_made : List GameEvent → List PlayerMoved
moves_made [] = []
moves_made (player_moved event ∷ events) = event ∷ moves_made events
moves_made (_ ∷ events) = moves_made events

-- Whether an event sends the player to jail.
abbrev pub jails : ℕ → GameEvent → Bool
jails player_id (sent_to_jail p name reason) = p == player_id
jails player_id _ = false

-- A move as it was made: a card makes the token go fast.
abbrev pub as_made : PlayerMoved → MoveAnimation
as_made event = record {
  player_id = event.player_id;
  from_position = event.from_position;
  to_position = event.to_position;
  speed = elim event.reason [ MoveReason.card ↦ Speed.fast | _ ↦ Speed.normal ];
  reason = event.reason;
}

-- Every card that is shown is followed by a pause, and nothing else pauses.
pub is_paced : List AnimationInstruction → Bool
is_paced [] = true
is_paced (show_card card ∷ wait_for_player interaction_id ∷ instructions) = is_paced instructions
is_paced (show_roll roll ∷ instructions) = is_paced instructions
is_paced (show_move move ∷ instructions) = is_paced instructions
is_paced (_ ∷ instructions) = false

moves_shown-append :
    (xs ys : List AnimationInstruction) → moves_shown (xs ++ ys) ≡ moves_shown xs ++ moves_shown ys
unfolding moves_shown
moves_shown-append [] ys = refl
moves_shown-append (show_roll r ∷ xs) ys = moves_shown-append xs ys
moves_shown-append (show_move m ∷ xs) ys = ap (λ rest. m ∷ rest) (moves_shown-append xs ys)
moves_shown-append (show_card c ∷ xs) ys = moves_shown-append xs ys
moves_shown-append (wait_for_player i ∷ xs) ys = moves_shown-append xs ys

moves_shown-card :
    (card : Option CardDef) (player_id : ℕ) (card_id : String) (turn_number : ℕ)
    → moves_shown (card_instructions card player_id card_id turn_number) ≡ []
unfolding moves_shown card_instructions
moves_shown-card none player_id card_id turn_number = refl
moves_shown-card (some c) player_id card_id turn_number = refl

is_free : List ℕ → PlayerMoved → Bool
is_free jailed event = not (contains jailed event.player_id)

moves_shown-instructions :
    (jailed : List ℕ) (turn_number : ℕ) (events : List GameEvent)
    → moves_shown (instructions_of jailed turn_number events)
      ≡ map move_animation (filterb (is_free jailed) (moves_made events))
unfolding moves_shown moves_made instructions_of event_instructions is_free
moves_shown-instructions jailed turn [] = refl
moves_shown-instructions jailed turn (player_moved event ∷ events) =
    elim (Bool-cases (contains jailed event.player_id)) [
      | inl e ↦ rw e (moves_shown-instructions jailed turn events)
      | inr e ↦
          rw e
            (ap (λ rest. move_animation event ∷ rest) (moves_shown-instructions jailed turn events))
    ]
moves_shown-instructions jailed turn (card_drawn player_id name card_id kind ∷ events) =
    moves_shown-append (card_instructions (find_card card_id all_cards) player_id card_id turn)
      (instructions_of jailed turn events)
    ∙ ap (λ shown. shown ++ moves_shown (instructions_of jailed turn events))
        (moves_shown-card (find_card card_id all_cards) player_id card_id turn)
    ∙ moves_shown-instructions jailed turn events
moves_shown-instructions jailed turn (passed_go p n a ∷ events) =
    moves_shown-instructions jailed turn events
moves_shown-instructions jailed turn (rent_paid r ∷ events) =
    moves_shown-instructions jailed turn events
moves_shown-instructions jailed turn (property_bought p n at pn pr ∷ events) =
    moves_shown-instructions jailed turn events
moves_shown-instructions jailed turn (buy_declined p n at pn ∷ events) =
    moves_shown-instructions jailed turn events
moves_shown-instructions jailed turn (rolled_doubles p n st ∷ events) =
    moves_shown-instructions jailed turn events
moves_shown-instructions jailed turn (sent_to_jail p n r ∷ events) =
    moves_shown-instructions jailed turn events
moves_shown-instructions jailed turn (tax_paid p n at a ∷ events) =
    moves_shown-instructions jailed turn events
moves_shown-instructions jailed turn (turn_ended p n q m ∷ events) =
    moves_shown-instructions jailed turn events
moves_shown-instructions jailed turn (player_surrendered p n r ∷ events) =
    moves_shown-instructions jailed turn events
moves_shown-instructions jailed turn (turn_timed_out p n st ∷ events) =
    moves_shown-instructions jailed turn events

is_paced-card :
    (card : Option CardDef) (player_id : ℕ) (card_id : String) (turn_number : ℕ)
    (rest : List AnimationInstruction)
    → is_paced (card_instructions card player_id card_id turn_number ++ rest) ≡ is_paced rest
unfolding is_paced card_instructions
is_paced-card none player_id card_id turn_number rest = refl
is_paced-card (some c) player_id card_id turn_number rest = refl

is_paced-instructions :
    (jailed : List ℕ) (turn_number : ℕ) (events : List GameEvent)
    → is_paced (instructions_of jailed turn_number events) ≡ true
unfolding is_paced instructions_of event_instructions
is_paced-instructions jailed turn [] = refl
is_paced-instructions jailed turn (player_moved event ∷ events) =
    elim (Bool-cases (contains jailed event.player_id)) [
      | inl e ↦ rw e (is_paced-instructions jailed turn events)
      | inr e ↦ rw e (is_paced-instructions jailed turn events)
    ]
is_paced-instructions jailed turn (card_drawn player_id name card_id kind ∷ events) =
    is_paced-card (find_card card_id all_cards) player_id card_id turn
      (instructions_of jailed turn events)
    ∙ is_paced-instructions jailed turn events
is_paced-instructions jailed turn (passed_go p n a ∷ events) =
    is_paced-instructions jailed turn events
is_paced-instructions jailed turn (rent_paid r ∷ events) = is_paced-instructions jailed turn events
is_paced-instructions jailed turn (property_bought p n at pn pr ∷ events) =
    is_paced-instructions jailed turn events
is_paced-instructions jailed turn (buy_declined p n at pn ∷ events) =
    is_paced-instructions jailed turn events
is_paced-instructions jailed turn (rolled_doubles p n st ∷ events) =
    is_paced-instructions jailed turn events
is_paced-instructions jailed turn (sent_to_jail p n r ∷ events) =
    is_paced-instructions jailed turn events
is_paced-instructions jailed turn (tax_paid p n at a ∷ events) =
    is_paced-instructions jailed turn events
is_paced-instructions jailed turn (turn_ended p n q m ∷ events) =
    is_paced-instructions jailed turn events
is_paced-instructions jailed turn (player_surrendered p n r ∷ events) =
    is_paced-instructions jailed turn events
is_paced-instructions jailed turn (turn_timed_out p n st ∷ events) =
    is_paced-instructions jailed turn events

with_roll :
    (command : GameCommand) (roll : Option DiceRoll) (rest : List AnimationInstruction)
    → (moves_shown (roll_instructions command roll ++ rest) ≡ moves_shown rest)
      × (is_paced (roll_instructions command roll ++ rest) ≡ is_paced rest)
unfolding roll_instructions moves_shown is_paced
with_roll (player player_id roll_dice) (some d) rest = (refl, refl)
with_roll command roll rest = (refl, refl)

contains-jailed :
    (player_id : ℕ) (events : List GameEvent)
    → contains (jailed_players events) player_id ≡ any (jails player_id) events
unfolding jailed_players
contains-jailed player_id [] = refl
contains-jailed player_id (sent_to_jail p name reason ∷ events) =
    ap (λ b. (p == player_id) || b) (contains-jailed player_id events)
contains-jailed player_id (_ ∷ events) = contains-jailed player_id events

move_animation-made : (event : PlayerMoved) → move_animation event ≡ as_made event
unfolding move_animation speed_of
move_animation-made event = refl

shown_as_made :
    (events : List GameEvent) (moves : List PlayerMoved)
    → map move_animation (filterb (is_free (jailed_players events)) moves)
      ≡ map as_made (filterb (λ event. not (any (jails event.player_id) events)) moves)
unfolding is_free
shown_as_made events [] = refl
shown_as_made events (event ∷ moves) =
    let same = contains-jailed event.player_id events in
    elim (Bool-cases (any (jails event.player_id) events)) [
      | inl e ↦ rw (same, e) (shown_as_made events moves)
      | inr e ↦
          rw (same, e)
            (ap (λ m. m ∷ map move_animation (filterb (is_free (jailed_players events)) moves))
                (move_animation-made event)
              ∙ ap (λ rest. as_made event ∷ rest) (shown_as_made events moves))
    ]

-- The timeline shows the moves of the events in their order, each as it was made, except the moves of
-- players who were sent to jail, none of which is shown. Each card that it shows is followed at once
-- by a pause, and it pauses nowhere else.
pub build_timeline-moves :
    (command : GameCommand) (state_after : GameState) (events : List GameEvent)
    → (moves_shown (build_timeline command state_after events)
        ≡ map as_made
            (filterb (λ event. not (any (jails event.player_id) events)) (moves_made events)))
      × (is_paced (build_timeline command state_after events) ≡ true)
unfolding build_timeline is_free
build_timeline-moves command state_after events =
    let jailed = jailed_players events in
    let turn_number = state_after.turn.turn_number in
    let (moves, paced) =
      with_roll command state_after.turn.dice_roll (instructions_of jailed turn_number events) in
    (
      moves
          ∙ moves_shown-instructions jailed turn_number events
          ∙ shown_as_made events (moves_made events),
      paced ∙ is_paced-instructions jailed turn_number events,
    )
