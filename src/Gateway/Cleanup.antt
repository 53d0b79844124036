-- ===== src/Gateway/Cleanup.antt =====
-- src/gateway/router.py: what the removal of an absent member leaves alone.
use monopoly_be.Prelude.{
  refl, inr, inl, ◌⊎◌, ◌≡◌, String, true, false, Bool-cases, Option-cases, Option, some, ℤ,
}
use monopoly_be.Users.{User}
use monopoly_be.Store.{Collection, IsCollection}
use monopoly_be.Sessions.{
  Session, SessionDocument, session_conflicts, is_waiting, has_member, find_by_id, assert_member,
}
use monopoly_be.Sessions.Lobby.{IsLobbies}
use monopoly_be.Sessions.Kept.{leave-InLobbies}
use monopoly_be.Gateway.{
  Buckets, Pending, is_live, remove_member_found, remove_if_still_gone, grace_then_remove,
}

module _ (C : Collection SessionDocument) (law : IsCollection session_conflicts C)
    (find_user : String → Option User) (normalize : String → String) (sessions : Buckets)
    (session_id user_id : String) where
  -- The user is gone, and a member of the session, which waits.
  pub record IsAbsent (s : C.State) : Type 0 where
    pub session : Session
    pub gone : is_live sessions session_id user_id ≡ false
    pub found : find_by_id C session_id s ≡ some session
    pub listed : has_member session user_id ≡ true
    pub waiting : is_waiting session.status ≡ true

  -- Lobbies that are well formed stay so after the grace time of a member, and the store of the sessions is
  -- left as it is, unless the session still waits and the user is a member of it with no connection.
  pub grace_then_remove-IsAbsent :
      (now : ℤ) (pending : Pending) (s : C.State)
      → IsLobbies (law.documents s)
      → IsLobbies (
          law.documents
            (grace_then_remove C find_user normalize sessions session_id user_id now
              (pending, s)).1)
        × ((grace_then_remove C find_user normalize sessions session_id user_id now (pending, s)).1
              ≡ s
            ⊎ IsAbsent s)
  unfolding grace_then_remove remove_if_still_gone remove_member_found assert_member
  grace_then_remove-IsAbsent now pending s h =
      elim (Bool-cases (is_live sessions session_id user_id)) [
        | inl live ↦ rw live (h, inl refl)
        | inr gone ↦ rw gone (elim (Option-cases (find_by_id C session_id s)) [
          | inl missing ↦ rw missing (h, inl refl)
          | inr (session, found) ↦ rw found (elim (Bool-cases (has_member session user_id)) [
            | inr stranger ↦ rw stranger (h, inl refl)
            | inl listed ↦ rw listed (elim (Bool-cases (is_waiting session.status)) [
              | inr started ↦ rw started (h, inl refl)
              | inl waiting ↦ rw waiting (
                leave-InLobbies C law find_user normalize session_id user_id now s h,
                inr record {
                  session = session;
                  gone = gone;
                  found = found;
                  listed = listed;
                  waiting = waiting;
                },
              )
            ])
          ])
        ])
      ]
