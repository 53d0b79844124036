-- ===== src/Games/Messages.antt =====
-- src/application/services/game_service.py: the command that a sender's intent stands for, and what a
-- client is shown of a state.
use monopoly_be.Prelude.{
  ℕ, String, str_eq, AppError, app_error, Option, none, some, List, [], ◌∷◌, if◌then◌else◌, Result,
  ok, err, ◌>>=◌,
}
use monopoly_be.Schema.{GameState, PlayerState, GameCommand, player, system}
use monopoly_be.Actions.{with_actions}
use monopoly_be.Animation.{AnimationInstruction}

-- `_resolve_player_id`
unfoldable pub find_user_player : List PlayerState → String → Option PlayerState
find_user_player [] user_id = none
find_user_player (p ∷ players) user_id =
    if str_eq p.user_id user_id then some p else find_user_player players user_id

-- The error carries the id of the game where the class has a session's.
unfoldable pub resolve_player_id : GameState → String → Result ℕ
unfolding find_user_player
resolve_player_id state user_id = elim (find_user_player state.players user_id) [
  | none ↦ err (app_error (AppError.not_member state.game_id user_id))
  | some p ↦ ok p.id
]

-- `_with_player_id`: the fields of each command are kept.
unfoldable pub with_player_id : GameCommand → ℕ → GameCommand
with_player_id (player sender command) player_id = player player_id command
with_player_id (system command) player_id = system command

-- A command of the scheduler is taken as it is; a player's gets the id of the sender.
unfoldable pub resolve_command : GameState → String → GameCommand → Result GameCommand
resolve_command state user_id (system command) = ok (system command)
resolve_command state user_id (player sender command) = do
  player_id ← resolve_player_id state user_id
  ok (with_player_id (player sender command) player_id)

-- What a client is shown: the state without its decks, the viewer's player and the timeline.
pub record GameStateMessage : Type 0 where
  pub snapshot : GameState
  pub viewer_id : Option ℕ
  pub animation_timeline : List AnimationInstruction

-- `payload.pop` of the server's own fields
unfoldable pub without_decks : GameState → GameState
without_decks state = record state { chance_deck = []; chest_deck = [] }

unfoldable pub viewer_player : GameState → Option String → Option ℕ
viewer_player state none = none
viewer_player state (some user_id) = elim (find_user_player state.players user_id) [
  | none ↦ none
  | some p ↦ some p.id
]

unfoldable pub build_game_state_message :
    GameState → Option String → List AnimationInstruction → Result GameStateMessage
build_game_state_message state viewer_user_id timeline = do
  snapshot ← with_actions state (viewer_player state viewer_user_id)
  ok (record {
    snapshot = without_decks snapshot;
    viewer_id = viewer_player state viewer_user_id;
    animation_timeline = timeline;
  })

unfoldable pub snapshot_message : GameState → Option String → Result GameStateMessage
snapshot_message state viewer_user_id = build_game_state_message state viewer_user_id []
