-- ===== src/Gateway/Refused.antt =====
-- src/gateway/handlers/game.py: a command that is refused, and a session that is not ranked.
use monopoly_be.Prelude.{
  AppError, app_error, illegal_move, key_error, illegal_move, ℕ, String, Error, Option-cases, ◌≡◌,
  refl, sym, subst, inl, inr, Option, none, some, List, [], ◌∷◌, ℤ, Result, ok, err,
}
use monopoly_be.Schema.{GameState, PlayerCommand, GameCommand, player}
use monopoly_be.Random.{Random}
use monopoly_be.Engine.{Call}
use monopoly_be.Animation.{AnimationInstruction}
use monopoly_be.Store.{Collection, IsCollection}
use monopoly_be.Users.{UserDocument}
use monopoly_be.Sessions.{SessionDocument}
use monopoly_be.Games.{
  GameDocument, game_conflicts, find_by_session_id, resolve_command, apply_intent,
}
use monopoly_be.Games.Versions.{IsApart}
use monopoly_be.Games.Locking.{Result-cases, commit-version}
use monopoly_be.Gateway.{
  WsErrorCode, send_error, Connection, Effect, error_reply, World, Handling, answer_error,
  publish_result, apply_and_publish,
}

module _ (R : Random) (G : Collection (GameDocument R.State)) (law : IsCollection game_conflicts G)
    (C : Collection SessionDocument) (U : Collection UserDocument)
    (gain : ℤ → ℕ → ℕ → ℤ → List ℤ → ℤ) where
  apply_intent-refused :
      (session_id user_id : String) (command : GameCommand) (call : Call) (s : G.State) (e : Error)
      → IsApart (law.documents s)
      → (apply_intent R G session_id user_id command call s).0 ≡ err e
      → law.documents (apply_intent R G session_id user_id command call s).1 ≡ law.documents s
  unfolding apply_intent
  apply_intent-refused session_id user_id command call s e apart h =
      elim (Option-cases (find_by_session_id G session_id s)) [
        | inl none_found ↦ rw none_found
        | inr (stored, found) ↦ elim (Result-cases (resolve_command stored.state user_id command)) [
          | inl (e', unresolved) ↦ rw (found, unresolved)
          | inr (resolved, is) ↦
              rw (found, is)
                ((commit-version R G law session_id stored resolved call s apart).1 e
                  (rw (found, is) at h))
        ]
      ]

  -- The answer to an exception: one frame, or none and the exception is passed on.
  unfoldable pub answer_to : Error → Option Effect → Result (List Effect)
  answer_to e none = err e
  answer_to e (some effect) = ok (effect ∷ [])

  -- What the sender is told of an exception: one error frame and nothing else, or the exception is passed on.
  abbrev pub IsAnswered : Error → Result (List Effect) → Type 0
  IsAnswered (illegal_move message) r = r ≡ ok (send_error WsErrorCode.illegal_action message ∷ [])
  IsAnswered (app_error (AppError.game_not_found session_id)) r =
      r ≡ ok (send_error WsErrorCode.illegal_action "no active game" ∷ [])
  IsAnswered (app_error (AppError.game_version_conflict session_id)) r =
      r
      ≡ ok
          (send_error WsErrorCode.illegal_action "state conflict; resync from latest snapshot" ∷ [])
  IsAnswered key_error r =
      r ≡ ok (send_error WsErrorCode.malformed "Invalid payload for message type" ∷ [])
  IsAnswered e r = r ≡ err e

  answer_to-IsAnswered : (e : Error) → IsAnswered e (answer_to e (error_reply e))
  unfolding answer_to error_reply
  answer_to-IsAnswered (illegal_move message) = refl
  answer_to-IsAnswered (app_error (AppError.game_not_found session_id)) = refl
  answer_to-IsAnswered (app_error (AppError.game_version_conflict session_id)) = refl
  answer_to-IsAnswered key_error = refl
  answer_to-IsAnswered e = refl

  -- What is left of a command that was refused.
  pub record IsRefused (e : Error) (world : World R G C U gain) (r : Handling R G C U gain)
      : Type 0 where
    pub games : law.documents r.1.games ≡ law.documents world.games
    pub sessions : r.1.sessions ≡ world.sessions
    pub users : r.1.users ≡ world.users
    pub answer : IsAnswered e r.0

  answer_error-eq :
      (e : Error) (o : Option Effect) (world : World R G C U gain)
      → answer_error R G C U gain e o world ≡ (answer_to e o, world)
  unfolding answer_error answer_to
  answer_error-eq e none world = refl
  answer_error-eq e (some effect) world = refl

  publish_result-err :
      (session_id : String) (now : ℤ) (e : Error)
      (r : Result (GameState × List AnimationInstruction)) (world : World R G C U gain)
      → r ≡ err e
      → publish_result R G C U gain session_id now r world ≡ (answer_to e (error_reply e), world)
  unfolding publish_result
  publish_result-err session_id now e r world h = rw h (answer_error-eq e (error_reply e) world)

  -- A command that the service refuses changes no game, no session and no user. Its sender gets exactly
  -- one error frame, and nothing is published, if the exception is an `IllegalMove`, whose message the
  -- frame has, a game that is not found, a version conflict or a `KeyError`; any other is passed on. No two games share an id or a session.
  pub apply_and_publish-IsRefused :
      (conn : Connection) (command : PlayerCommand) (call : Call) (world : World R G C U gain)
      (e : Error)
      → IsApart (law.documents world.games)
      → (apply_intent R G conn.session_id conn.user_id (player 0 command) call world.games).0
        ≡ err e
      → IsRefused e world (apply_and_publish R G C U gain conn command call world)
  unfolding apply_and_publish
  apply_and_publish-IsRefused conn command call world e apart h =
      let applied =
        apply_intent R G conn.session_id conn.user_id (player 0 command) call world.games in
      let after : World R G C U gain = record world { games = applied.1 } in
      subst (IsRefused e world)
        (sym (publish_result-err conn.session_id call.now e applied.0 after h))
        (record {
          games =
              apply_intent-refused conn.session_id conn.user_id (player 0 command) call world.games
                e apart h;
          sessions = refl;
          users = refl;
          answer = answer_to-IsAnswered e;
        })
