-- ===== src/Sessions/Requests.antt =====
-- src/application/services/session_service.py: the requests that change sessions, one after another.
use monopoly_be.Prelude.{String, Bool, ℤ, List, [], ◌∷◌, Option}
use monopoly_be.Schema.{GameMode}
use monopoly_be.Users.{User}
use monopoly_be.Store.{Collection, IsCollection}
use monopoly_be.Sessions.{
  SessionVisibility, SessionDocument, session_conflicts, Draws, create, join, join_by_code, leave,
  kick, start, mark_finished,
}
use monopoly_be.Sessions.Lobby.{IsLobbies}
use monopoly_be.Sessions.Kept.{
  create-InLobbies, join-InLobbies, join_by_code-InLobbies, leave-InLobbies, kick-InLobbies,
  start-InLobbies, mark_finished-InLobbies,
}

pub data Request : Type 0 where
  create_session :
      (user_id : String) → SessionVisibility → (ranked : Bool) → GameMode → Draws → Request
  join_session_by_id : (session_id user_id : String) → Request
  join_session_by_code : (invite_code user_id : String) → Request
  leave_session : (session_id user_id : String) → Request
  kick_member : (session_id host_user_id target_user_id : String) → Request
  start_session : (session_id host_user_id : String) → Request
  finish_session : (session_id : String) → Request

module _ (C : Collection SessionDocument) (find_user : String → Option User)
    (normalize : String → String) where
  -- The store after a request that is served at a time; what it returns or raises goes to its sender.
  unfoldable pub served : Request × ℤ → C.State → C.State
  served (create_session user_id visibility ranked mode draws, now) s =
      (create C find_user normalize user_id visibility ranked mode draws now s).1
  served (join_session_by_id session_id user_id, now) s =
      (join C find_user normalize session_id user_id now s).1
  served (join_session_by_code invite_code user_id, now) s =
      (join_by_code C find_user normalize invite_code user_id now s).1
  served (leave_session session_id user_id, now) s =
      (leave C find_user normalize session_id user_id now s).1
  served (kick_member session_id host_user_id target_user_id, now) s =
      (kick C find_user normalize session_id host_user_id target_user_id now s).1
  served (start_session session_id host_user_id, now) s =
      (start C find_user normalize session_id host_user_id now s).1
  served (finish_session session_id, now) s =
      (mark_finished C find_user normalize session_id now s).1

  unfoldable pub served_all : List (Request × ℤ) → C.State → C.State
  unfolding served
  served_all [] s = s
  served_all (request ∷ requests) s = served_all requests (served request s)

  served-IsLobbies :
      (law : IsCollection session_conflicts C) (request : Request × ℤ) (s : C.State)
      → IsLobbies (law.documents s)
      → IsLobbies (law.documents (served request s))
  unfolding served
  served-IsLobbies law (create_session user_id visibility ranked mode draws, now) s h =
      create-InLobbies C law find_user normalize user_id visibility ranked mode draws now s h
  served-IsLobbies law (join_session_by_id session_id user_id, now) s h =
      join-InLobbies C law find_user normalize session_id user_id now s h
  served-IsLobbies law (join_session_by_code invite_code user_id, now) s h =
      join_by_code-InLobbies C law find_user normalize invite_code user_id now s h
  served-IsLobbies law (leave_session session_id user_id, now) s h =
      leave-InLobbies C law find_user normalize session_id user_id now s h
  served-IsLobbies law (kick_member session_id host_user_id target_user_id, now) s h =
      kick-InLobbies C law find_user normalize session_id host_user_id target_user_id now s h
  served-IsLobbies law (start_session session_id host_user_id, now) s h =
      start-InLobbies C law find_user normalize session_id host_user_id now s h
  served-IsLobbies law (finish_session session_id, now) s h =
      mark_finished-InLobbies C law find_user normalize session_id now s h

  -- After any number of requests, created, joined, left, kicked from, started and finished in any
  -- order and by anyone, each session has no member twice and no more members than its mode takes,
  -- and no two sessions have an id or an invite code in common, if that held before.
  pub served_all-IsLobbies :
      (law : IsCollection session_conflicts C) (requests : List (Request × ℤ)) (s : C.State)
      → IsLobbies (law.documents s)
      → IsLobbies (law.documents (served_all requests s))
  unfolding served_all
  served_all-IsLobbies law [] s h = h
  served_all-IsLobbies law (request ∷ requests) s h =
      served_all-IsLobbies law requests (served request s) (served-IsLobbies law request s h)
