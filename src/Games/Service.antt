-- ===== src/Games/Service.antt =====
-- src/application/services/game_service.py: `GameService`. What the clock and `uuid4` hand out comes
-- with each call, and `seeded` makes the generator that `random.Random(seed)` is.
use monopoly_be.Prelude.{
  ℕ, String, AppError, app_error, Bool, false, ◌&&◌, Option, none, some, List, map, ◌==◌, is_some,
  ℤ, Result, ok, err, or_raise,
}
use monopoly_be.Schema.{GameState, GameCommand}
use monopoly_be.Actions.{with_actions}
use monopoly_be.Animation.{AnimationInstruction, build_timeline}
use monopoly_be.Random.{Random}
use monopoly_be.Engine.{Call, Handled, apply}
use monopoly_be.Setup.{GameMember, NewGame, new_game}
use monopoly_be.Sessions.{Session, SessionMember}
use monopoly_be.Users.{User, initial_rating, lookup_user}
use monopoly_be.Store.{Collection, Step, give, lift, reading, ◌>>=◌}
use monopoly_be.Games.Repository.{
  GameDocument, StoredGame, build_document, insert_game, find_by_session_id, update_with_version,
}
use monopoly_be.Games.Messages.{resolve_player_id, resolve_command}

-- What `start_game` draws and reads beside the session.
pub record Start : Type 0 where
  pub game_id : String
  pub seed : ℕ
  pub now : ℤ
  pub starting_balance : ℤ
  pub player_id : ℕ → ℕ

-- `ratings[m.user_id].rating if m.user_id in ratings else INITIAL_RATING`
unfoldable pub rating_of : Option User → ℤ
rating_of none = initial_rating
rating_of (some user) = user.rating

unfoldable pub game_member : List User → SessionMember → GameMember
unfolding rating_of
game_member ratings m = record {
  user_id = m.user_id;
  display_name = m.display_name;
  rating = rating_of (lookup_user ratings m.user_id);
}

unfoldable pub game_of_session : Session → List User → Start → NewGame
unfolding game_member
game_of_session session ratings begin = record {
  game_id = begin.game_id;
  session_code = session.invite_code;
  members = map (game_member ratings) session.members;
  now = begin.now;
  starting_balance = begin.starting_balance;
  game_mode = session.game_mode;
  player_id = begin.player_id;
}

module _ (R : Random) (G : Collection (GameDocument R.State)) where
  open R use {State}

  -- The document of a new game.
  unfoldable pub new_document : Session → List User → Start → State → Result (GameDocument State)
  new_document session ratings begin rng =
      elim (new_game R (game_of_session session ratings begin) rng) [
        | err e ↦ err e
        | ok (state, rng_after) ↦ elim (with_actions state none) [
          | err e ↦ err e
          | ok shown ↦
              ok (build_document begin.game_id session.id begin.seed rng_after shown begin.now)
        ]
      ]

  -- The ratings are those of `find_by_ids`.
  unfoldable pub start_game :
      Session → List User → Start → (seeded : ℕ → State) → Step G.State GameState
  start_game session ratings begin seeded = do
    existing ← reading (find_by_session_id G session.id)
    elim existing [
      | some game ↦ lift (with_actions game.state none)
      | none ↦ do
        doc ← lift (new_document session ratings begin (seeded begin.seed))
        stored ← insert_game G doc
        give stored.state
    ]

  unfoldable pub get_active_game : String → Step G.State (Option GameState)
  get_active_game session_id = do
    found ← reading (find_by_session_id G session_id)
    elim found [
      | none ↦ give none
      | some stored ↦ do state ← lift (with_actions stored.state none); give (some state)
    ]

  -- What the engine makes of a stored game and a command.
  unfoldable pub engine_step : StoredGame State → GameCommand → Call → Result (Handled State)
  engine_step stored command call = apply R stored.state command call stored.rng_state

  -- The end of `apply_intent`, after the read of the game: the engine, and the write under the
  -- version that was read.
  unfoldable pub commit :
      String
      → StoredGame State
      → GameCommand
      → Call
      → Step G.State (GameState × List AnimationInstruction)
  unfolding engine_step
  commit session_id stored resolved call = do
    handled ← lift (engine_step stored resolved call)
    written ← update_with_version G stored.game_id handled.state stored.version handled.rng call.now
    updated ← lift (or_raise written (app_error (AppError.game_version_conflict session_id)))
    give (updated.state, build_timeline resolved updated.state handled.events)

  unfoldable pub apply_intent :
      String → String → GameCommand → Call → Step G.State (GameState × List AnimationInstruction)
  apply_intent session_id user_id command call = do
    found ← reading (find_by_session_id G session_id)
    stored ← lift (or_raise found (app_error (AppError.game_not_found session_id)))
    resolved ← lift (resolve_command stored.state user_id command)
    commit session_id stored resolved call

  -- The last test of `authorize_continue`; a sender who is no player is not allowed.
  unfoldable pub may_continue : Result ℕ → ℕ → Bool
  may_continue (err e) current_player_id = false
  may_continue (ok player_id) current_player_id = player_id == current_player_id

  unfoldable pub authorize_continue : String → String → G.State → Bool
  authorize_continue session_id user_id s = elim (find_by_session_id G session_id s) [
    | none ↦ false
    | some stored ↦
        is_some stored.state.active_card
        && may_continue (resolve_player_id stored.state user_id) stored.state.turn.current_player_id
  ]
