-- ===== src/Endpoints/Lobby.antt =====
-- src/api/sessions/router.py: the endpoints of the sessions.
use monopoly_be.Prelude.{
  ℕ, String, Bool, Option, none, some, List, [], ◌∷◌, ◌++◌, ℤ, Result, ok, err,
}
use monopoly_be.Schema.{GameMode, GameState}
use monopoly_be.Random.{Random}
use monopoly_be.Store.{Collection}
use monopoly_be.Users.{User}
use monopoly_be.Sessions.{
  Session, SessionVisibility, SessionDocument, Draws, create, list_public_lobby, get, get_by_code,
  join, join_by_code, leave, kick, start,
}
use monopoly_be.Games.{GameDocument, GameStateMessage, Start, start_game, snapshot_message}
use monopoly_be.Endpoints.Details.{SessionDetail, SessionSummary, to_detail, to_summaries}

-- What is published to the members of a session, in the order of the calls.
pub data Announcement : Type 0 where
  session_updated : (session_id : String) → SessionDetail → Announcement
  game_state : (session_id : String) → GameStateMessage → Announcement

-- What an endpoint returns or raises, what it has published until then, and the stores after it.
abbrev pub Reply : Type 0 → Type 0 → Type 0
Reply A S = Result A × List Announcement × S

unfoldable pub broadcast_session_updated : Session → Result (List Announcement)
broadcast_session_updated session = elim (to_detail session none) [
  | err e ↦ err e
  | ok detail ↦ ok (session_updated session.id detail ∷ [])
]

-- A session that a service returns: it is shown to the user, after a broadcast or without.
unfoldable pub shown : {S : Type 0} → String → Result Session × S → Reply SessionDetail S
shown user_id (err e, s) = (err e, [], s)
shown user_id (ok session, s) = (to_detail session (some user_id), [], s)

abbrev after_broadcast :
    {A : Type 0} {S : Type 0} → Result (List Announcement) → Result A → S → Reply A S
after_broadcast (err e) a s = (err e, [], s)
after_broadcast (ok announcements) a s = (a, announcements, s)

unfoldable pub announced : {S : Type 0} → String → Result Session × S → Reply SessionDetail S
announced user_id (err e, s) = (err e, [], s)
announced user_id (ok session, s) =
    after_broadcast (broadcast_session_updated session) (to_detail session (some user_id)) s

unfoldable pub announced_left : {S : Type 0} → Result (Option Session) × S → Reply (Unit {0}) S
announced_left (err e, s) = (err e, [], s)
announced_left (ok none, s) = (ok tt, [], s)
announced_left (ok (some session), s) =
    after_broadcast (broadcast_session_updated session) (ok tt) s

module _ (C : Collection SessionDocument) (find_user : String → Option User)
    (normalize : String → String) where
  unfoldable pub create_session :
      String
      → SessionVisibility
      → (ranked : Bool) → GameMode
      → Draws
      → ℤ
      → C.State
      → Reply SessionDetail C.State
  create_session user_id visibility ranked game_mode draws now s =
      shown user_id (create C find_user normalize user_id visibility ranked game_mode draws now s)

  unfoldable pub list_sessions :
      ℕ → Option (ℤ × String) → C.State → Result (List SessionSummary × Option (ℤ × String))
  list_sessions limit cursor s =
      let (sessions, next_cursor) = list_public_lobby C find_user normalize limit cursor s in
      elim (to_summaries sessions) [ err e ↦ err e | ok items ↦ ok (items, next_cursor) ]

  unfoldable pub get_session_by_code : String → String → C.State → Reply SessionDetail C.State
  get_session_by_code invite_code user_id s =
      shown user_id (get_by_code C find_user normalize invite_code user_id s)

  unfoldable pub join_by_code_endpoint : String → String → ℤ → C.State → Reply SessionDetail C.State
  join_by_code_endpoint invite_code user_id now s =
      announced user_id (join_by_code C find_user normalize invite_code user_id now s)

  unfoldable pub get_session : String → String → C.State → Reply SessionDetail C.State
  get_session session_id user_id s = shown user_id (get C find_user normalize session_id user_id s)

  unfoldable pub join_session_endpoint : String → String → ℤ → C.State → Reply SessionDetail C.State
  join_session_endpoint session_id user_id now s =
      announced user_id (join C find_user normalize session_id user_id now s)

  unfoldable pub leave_session_endpoint : String → String → ℤ → C.State → Reply (Unit {0}) C.State
  leave_session_endpoint session_id user_id now s =
      announced_left (leave C find_user normalize session_id user_id now s)

  unfoldable pub kick_member_endpoint :
      String → String → String → ℤ → C.State → Reply SessionDetail C.State
  kick_member_endpoint session_id target_user_id user_id now s =
      announced user_id (kick C find_user normalize session_id user_id target_user_id now s)

  module _ (R : Random) (G : Collection (GameDocument R.State)) where
    -- What follows `start_game`.
    unfoldable pub started_game :
        {S : Type 0}
        → String
        → String
        → Session
        → List Announcement
        → Result GameState
        → S
        → Reply SessionDetail S
    started_game session_id user_id session before (err e) s = (err e, before, s)
    started_game session_id user_id session before (ok state) s =
        elim (snapshot_message state none) [
          | err e ↦ (err e, before, s)
          | ok message ↦
              (to_detail session (some user_id), before ++ (game_state session_id message ∷ []), s)
        ]

    -- What follows the broadcast.
    unfoldable pub start_broadcast :
        String
        → String
        → Session
        → List User
        → Start
        → (ℕ → R.State)
        → Result (List Announcement)
        → C.State × G.State
        → Reply SessionDetail (C.State × G.State)
    start_broadcast session_id user_id session ratings begin seeded (err e) s = (err e, [], s)
    start_broadcast session_id user_id session ratings begin seeded (ok before) (c, g) =
        let game = start_game R G session ratings begin seeded g in
        started_game session_id user_id session before game.0 (c, game.1)

    unfoldable pub start_session_endpoint :
        String
        → String
        → List User
        → Start
        → (ℕ → R.State)
        → ℤ
        → C.State × G.State
        → Reply SessionDetail (C.State × G.State)
    start_session_endpoint session_id user_id ratings begin seeded now (c, g) =
        let started = start C find_user normalize session_id user_id now c in
        elim started.0 [
          | err e ↦ (err e, [], (started.1, g))
          | ok session ↦
              start_broadcast session_id user_id session ratings begin seeded
                (broadcast_session_updated session) (started.1, g)
        ]
