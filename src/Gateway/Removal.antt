-- ===== src/Gateway/Removal.antt =====
-- src/gateway/router.py: a member who has stayed away is removed from a waiting session.
use monopoly_be.Prelude.{String, Option, none, Result, ok, err, if◌then◌else◌, ℤ}
use monopoly_be.Users.{User}
use monopoly_be.Store.{Collection}
use monopoly_be.Sessions.{Session, SessionDocument, is_waiting, assert_member, leave}
use monopoly_be.Gateway.Connections.{Buckets}
use monopoly_be.Gateway.Router.{Pending, is_live, cancel_pending_removal}

module _ (C : Collection SessionDocument) (find_user : String → Option User)
    (normalize : String → String) where
  -- What follows `assert_member`, which raises nothing but a `NotMemberError`.
  unfoldable pub remove_member_found :
      String → String → ℤ → Result Session × C.State → Result (Option Session) × C.State
  remove_member_found session_id user_id now (err e, s) = (ok none, s)
  remove_member_found session_id user_id now (ok session, s) =
      if is_waiting session.status
      then leave C find_user normalize session_id user_id now s
      else (ok none, s)

  -- It returns the session that is left, which is then announced.
  unfoldable pub remove_if_still_gone :
      Buckets → String → String → ℤ → C.State → Result (Option Session) × C.State
  remove_if_still_gone sessions session_id user_id now s =
      if is_live sessions session_id user_id
      then (ok none, s)
      else remove_member_found session_id user_id now
          (assert_member C find_user normalize session_id user_id s)

  -- After the grace time; an exception is logged, and the key is popped.
  unfoldable pub grace_then_remove :
      Buckets → String → String → ℤ → Pending × C.State → Pending × C.State
  grace_then_remove sessions session_id user_id now (pending, s) = (
    cancel_pending_removal session_id user_id pending,
    (remove_if_still_gone sessions session_id user_id now s).1,
  )
