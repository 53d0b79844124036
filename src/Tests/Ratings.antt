-- ===== src/Tests/Ratings.antt =====
-- A finished game of two, its ratings, and two intents on one version.
use mathlib.Core.Option
use monopoly_be.Prelude.{
  Error, ℕ, String, ◌≡◌, ◌≢◌, refl, true, false, not, List, [], ◌∷◌, map, All, ◌==◌, if◌then◌else◌,
  arith, filterb, ℤ, pos, negsuc, Result, ok, err,
}
use monopoly_be.Prelude.{any}
use monopoly_be.Schema.{
  GameState, GameStatus, player, end_turn, roll_dice, player_moved, card_drawn, sent_to_jail,
  PlayerMoved, MoveReason, TokenColor, GameEvent,
}
use monopoly_be.Store.{Collection}
use monopoly_be.Animation.{AnimationInstruction, build_timeline}
use monopoly_be.Animation.Moves.{
  as_made, jails, moves_shown, moves_made, is_paced, build_timeline-moves,
}
use monopoly_be.Users.{UserDocument, user_conflicts, to_document}
use monopoly_be.Games.{engine_step, GameDocument, StoredGame, game_conflicts, commit, stored_game}
use monopoly_be.Games.Locking.{Committed, commit-version, commit-once}
use monopoly_be.Rating.{Participant, apply_for_finished_game, compute_rating_changes}
use monopoly_be.Rating.Bounds.{IsBounded, compute_rating_changes-IsBounded}
use monopoly_be.Rating.Once.{apply_for_finished_game-once}
use monopoly_be.Games.{engine_step, update_with_version, put_state}
use monopoly_be.Turns.{survivors, turn_of, check_win_condition}
use monopoly_be.Timer.{with_turn_deadline}
use monopoly_be.Actions.{with_actions}
use monopoly_be.Building.{has_any_buildable, has_any_mortgageable, has_any_unmortgageable}
use monopoly_be.Payments.{try_settle_debt}
use monopoly_be.Helpers.{next_index, find_index, get_player_by_id_from_state, find_player}
use monopoly_be.Engine.{
  is_reply, assert_current_player, handle_end_turn, finish, reset_actor_strikes, apply,
}
use monopoly_be.Tests.Stores.{listed, listed-IsCollection}
use monopoly_be.Tests.Fixture.{start}
use monopoly_be.Tests.Engine.{counting, call, ending}

abbrev pub user : String → UserDocument
user id = to_document id (pos 5) "ann@example.com" "Ann" "hash"

-- A gain that is too large for any cap.
abbrev huge : ℤ → ℕ → ℕ → ℤ → List ℤ → ℤ
huge k n placement rating opponents = if placement == 1 then pos 500 else negsuc 499

abbrev two_players : List Participant
two_players =
    record { user_id = "ann"; rating = pos 800; games_played = pos 0; placement = 1 }
    ∷ record { user_id = "bob"; rating = pos 110; games_played = pos 7; placement = 2 }
    ∷ []

compute_rating_changes-IsBounded_example : All IsBounded (compute_rating_changes huge two_players)
compute_rating_changes-IsBounded_example =
    compute_rating_changes-IsBounded huge two_players (omega arith, (omega arith, tt))

abbrev stored_document : GameState → GameDocument ℕ
stored_document state = record {
  id = "g1";
  session_id = "s1";
  seed = 7;
  rng_state = 0;
  version = 3;
  state = state;
  created_at = pos 0;
  updated_at = pos 0;
  rated = false;
}

abbrev games : Collection (GameDocument ℕ)
games = listed game_conflicts

abbrev users : Collection UserDocument
users = listed user_conflicts

abbrev over : GameState
over = record start { status = GameStatus.finished }

apply_for_finished_game-once_example :
    (apply_for_finished_game games users huge "s1" over (
      apply_for_finished_game games users huge "s1" over
        (stored_document over ∷ [], user "ann" ∷ []))).1
    ≡ (apply_for_finished_game games users huge "s1" over
        (stored_document over ∷ [], user "ann" ∷ [])).1
apply_for_finished_game-once_example =
    apply_for_finished_game-once games (listed-IsCollection game_conflicts) users huge "s1" over
      over (stored_document over ∷ []) (user "ann" ∷ []) (tt, tt) refl

abbrev read : StoredGame ℕ
read = record {
  game_id = "g1";
  session_id = "s1";
  seed = 7;
  rng_state = 0;
  version = 3;
  state = ending;
}

abbrev shown_of :
    Result (GameState × List AnimationInstruction) → GameState × List AnimationInstruction
shown_of (ok shown) = shown
shown_of (err e) = (start, [])

abbrev store : List (GameDocument ℕ)
store = stored_document ending ∷ []

commit-version_example :
    ((shown : GameState × List AnimationInstruction)
      → (commit counting games "s1" read (player 10 end_turn) call store).0 ≡ ok shown
      → Committed counting games
          (listed-IsCollection game_conflicts)
          read
          (player 10 end_turn)
          call
          store
          (commit counting games "s1" read (player 10 end_turn) call store).1
          shown)
    × ((e : Error)
        → (commit counting games "s1" read (player 10 end_turn) call store).0 ≡ err e
        → (commit counting games "s1" read (player 10 end_turn) call store).1 ≡ store)
commit-version_example =
    commit-version counting games (listed-IsCollection game_conflicts) "s1" read
      (player 10 end_turn) call store (tt, tt)

commit-once_example :
    (commit counting games "s1" read
      (player 10 roll_dice)
      call
      (commit counting games "s1" read (player 10 end_turn) call store).1).0
    ≢ ok (start, [])
unfolding commit engine_step update_with_version put_state stored_game apply is_reply
    assert_current_player handle_end_turn next_index find_index survivors
    get_player_by_id_from_state find_player finish try_settle_debt reset_actor_strikes with_actions
    with_turn_deadline check_win_condition turn_of has_any_buildable has_any_mortgageable
    has_any_unmortgageable
commit-once_example =
    commit-once counting games (listed-IsCollection game_conflicts) "s1" read (player 10 end_turn)
      (player 10 roll_dice) call call store
      (shown_of (commit counting games "s1" read (player 10 end_turn) call store).0) (tt, tt) refl
      (start, [])

-- One walks and draws a card, another is sent to jail.
abbrev events : List GameEvent
events =
    player_moved (record {
      player_id = 10;
      player_name = "Ann";
      player_token = TokenColor.red;
      from_position = 0;
      to_position = 7;
      dice_total = 7;
      reason = MoveReason.dice;
    })
    ∷ card_drawn 10 "Ann" "chance_01" "chance"
    ∷ sent_to_jail 20 "Bob" "card"
    ∷ []

build_timeline-moves_example :
    (moves_shown (build_timeline (player 10 roll_dice) start events)
      ≡ map as_made (
          filterb
            (λ (event : PlayerMoved). not (any (jails event.player_id) events))
            (moves_made events)))
    × (is_paced (build_timeline (player 10 roll_dice) start events) ≡ true)
build_timeline-moves_example = build_timeline-moves (player 10 roll_dice) start events
