-- ===== src/Sessions/Refinement.antt =====
-- src/application/services/session_service.py: to each session, a request is one step of its life.
use monopoly_be.Prelude.{
  str_eq, or_raise, ℕ, String, zero, suc, ◌+◌, ◌≡◌, refl, sym, subst, inl, inr, Bool, not, Option,
  none, some, List, [], ◌∷◌, Bool-cases, ℤ, or_raise,
}
use monopoly_be.Schema.{GameMode}
use monopoly_be.Users.{User}
use monopoly_be.Store.{
  Collection, IsCollection, or_raise-after, raise_if-after, resume-after, lift, resume,
}
use monopoly_be.Sessions.Kept.{join_refused-store}
use monopoly_be.Sessions.{
  SessionStatus, SessionVisibility, MemberRole, Session, SessionMember, SessionDocument,
  session_conflicts, takes_member, push_member, insert, find_by_id, find_by_invite_code, delete,
  add_member, remove_member, update_host_and_member_role, set_status, Draws, new_member,
  get_session_or_404, create_rounds, create, join_session, join, join_by_code, after_leave,
  after_leave_of, leave, kick, start, mark_finished, max_players, to_document, earliest, give_or,
  added_or_refused, join_as, has_member, is_waiting, is_full, is_host, kick_checks, user_not_found,
  session_invite_code_max_retries,
}
use monopoly_be.Sessions.Lobby.{IsLobbies}
use monopoly_be.Sessions.Invariant.{InLobbies, remove_member-InLobbies}
use monopoly_be.Sessions.Requests.{
  Request, served, create_session, join_session_by_id, join_session_by_code, leave_session,
  kick_member, start_session, finish_session,
}
use monopoly_be.Sessions.Status.{Moves, status_at, begins, ends}
use monopoly_be.Sessions.Steps.{
  Moved, Stayed, moved, change_one-Stayed, set_status-Moved, delete-Moved, remove_member-Stayed,
  update_host-Stayed, insert-Moved,
}

module _ (C : Collection SessionDocument) (law : IsCollection session_conflicts C) (id : String)
    (from : Option SessionStatus) where
  module _ (find_user : String → Option User) (normalize : String → String) where
    added_or_refused-Stayed :
        (session : Session) (user_id : String) (updated : Option Session) (s : C.State)
        → Stayed C law id from s
        → Stayed C law id from (added_or_refused C find_user normalize session user_id updated s).1
    unfolding added_or_refused
    added_or_refused-Stayed session user_id none s h =
        subst (Stayed C law id from)
          (sym (join_refused-store C law find_user normalize session user_id s)) h
    added_or_refused-Stayed session user_id (some joined) s h = h

    join_as-Stayed :
        (session : Session) (user_id : String) (now : ℤ) (user : User) (s : C.State)
        → Stayed C law id from s
        → Stayed C law id from (join_as C find_user normalize session user_id now user s).1
    unfolding join_as add_member push_member
    join_as-Stayed session user_id now user s h =
        let member = new_member user MemberRole.player now in
        let query = takes_member session.id member (max_players session) in
        let added =
          change_one-Stayed C law id from query (push_member member now) (λ d. (refl, refl)) s h in
        resume-after (Stayed C law id from)
          (add_member C session.id member (max_players session) now s)
          (added_or_refused C find_user normalize session user_id) added
          (λ updated. added_or_refused-Stayed session user_id updated _ added)

    join_session-Stayed :
        (session : Session) (user_id : String) (now : ℤ) (s : C.State)
        → Stayed C law id from s
        → Stayed C law id from (join_session C find_user normalize session user_id now s).1
    unfolding join_session
    join_session-Stayed session user_id now s h = elim (Bool-cases (has_member session user_id)) [
      | inl e ↦ rw e h
      | inr e ↦ rw e (elim (Bool-cases (is_waiting session.status)) [
        | inl e ↦
            rw e (elim (Bool-cases (is_full session)) [ inl e ↦ rw e h | inr e ↦ rw e joining ])
        | inr e ↦ rw e h
      ])
    ]
      where
        joining :
            Stayed C law id from
              (resume
                (or_raise (find_user user_id) user_not_found, s)
                (join_as C find_user normalize session user_id now)).1
        joining =
            or_raise-after (Stayed C law id from) (find_user user_id) user_not_found s
              (join_as C find_user normalize session user_id now) h
              (λ user found. join_as-Stayed session user_id now user s h)

    give_or-Stayed :
        (updated : Session) (answer : Option Session) (s : C.State)
        → Stayed C law id from s
        → Stayed C law id from (give_or updated answer s).1
    give_or-Stayed updated none s h = h
    give_or-Stayed updated (some again) s h = h

    after_leave_of-Moved :
        (session_id user_id : String) (updated : Session) (now : ℤ) (members : List SessionMember)
        (s : C.State)
        → InLobbies C law s
        → Stayed C law id from s
        → Moved C law id from
            (after_leave_of C find_user normalize session_id user_id updated now members s).1
    unfolding after_leave_of
    after_leave_of-Moved session_id user_id updated now [] s h e =
        resume-after (Moved C law id from) (delete C session_id s) _
          (delete-Moved C law id from session_id s h e)
          (λ gone. delete-Moved C law id from session_id s h e)
    after_leave_of-Moved session_id user_id updated now (m ∷ members) s h e =
        elim (Bool-cases (str_eq updated.host_user_id user_id)) [
          | inr f ↦ rw f (moved C law id from s e)
          | inl f ↦
              let new = (earliest m members).user_id in
              let kept = update_host-Stayed C law id from session_id new now s e in
              rw f (
                moved C law id from _ (
                  resume-after (Stayed C law id from)
                    (update_host_and_member_role C session_id new now s) (give_or updated) kept
                    (λ answer. give_or-Stayed updated answer _ kept)))
        ]

    leave-Moved :
        (session_id user_id : String) (now : ℤ) (s : C.State)
        → InLobbies C law s
        → Stayed C law id from s
        → Moved C law id from (leave C find_user normalize session_id user_id now s).1
    unfolding leave get_session_or_404 after_leave
    leave-Moved session_id user_id now s h e =
        or_raise-after (Moved C law id from) (find_by_id C session_id s) _ s _
          (moved C law id from s e)
          λ session found.
            raise_if-after (Moved C law id from) (not (has_member session user_id)) _ s _
              (moved C law id from s e)
              λ member.
                let kept = remove_member-InLobbies C law session_id user_id now s h in
                let removed = remove_member-Stayed C law id from session_id user_id now s e in
                resume-after (Moved C law id from) (remove_member C session_id user_id now s) _
                  (moved C law id from _ removed)
                  λ answer.
                    or_raise-after (Moved C law id from) answer _ _ _
                      (moved C law id from _ removed)
                      λ updated f.
                        after_leave_of-Moved session_id user_id updated now updated.members _ kept
                          removed

    kick-Stayed :
        (session_id host_user_id target_user_id : String) (now : ℤ) (s : C.State)
        → Stayed C law id from s
        → Stayed C law id from
            (kick C find_user normalize session_id host_user_id target_user_id now s).1
    unfolding kick get_session_or_404
    kick-Stayed session_id host_user_id target_user_id now s h =
        or_raise-after (Stayed C law id from) (find_by_id C session_id s) _ s _ h λ session found.
          resume-after (Stayed C law id from)
            (lift (kick_checks C find_user normalize session session_id host_user_id target_user_id)
              s)
            _ h
            λ u.
              let removed = remove_member-Stayed C law id from session_id target_user_id now s h in
              resume-after (Stayed C law id from) (remove_member C session_id target_user_id now s)
                _ removed λ answer. removed

    start-Moved :
        (session_id host_user_id : String) (now : ℤ) (s : C.State)
        → Stayed C law id from s
        → Moved C law id from (start C find_user normalize session_id host_user_id now s).1
    unfolding start get_session_or_404
    start-Moved session_id host_user_id now s h =
        let status = SessionStatus.in_progress in
        let set =
          set_status-Moved C law id from session_id SessionStatus.waiting status now begins s h in
        or_raise-after (Moved C law id from) (find_by_id C session_id s) _ s _
          (moved C law id from s h)
          λ session found.
            raise_if-after (Moved C law id from) (not (is_host session host_user_id)) _ s _
              (moved C law id from s h)
              λ host.
                raise_if-after (Moved C law id from) (not (is_waiting session.status)) _ s _
                  (moved C law id from s h)
                  λ waiting.
                    resume-after (Moved C law id from)
                      (set_status C session_id status (some SessionStatus.waiting) now s) _ set
                      λ answer. set

    mark_finished-Moved :
        (session_id : String) (now : ℤ) (s : C.State)
        → Stayed C law id from s
        → Moved C law id from (mark_finished C find_user normalize session_id now s).1
    unfolding mark_finished
    mark_finished-Moved session_id now s h =
        set_status-Moved C law id from session_id SessionStatus.in_progress SessionStatus.finished
          now ends s h

    join-Stayed :
        (session_id user_id : String) (now : ℤ) (s : C.State)
        → Stayed C law id from s
        → Stayed C law id from (join C find_user normalize session_id user_id now s).1
    unfolding join get_session_or_404
    join-Stayed session_id user_id now s h =
        or_raise-after (Stayed C law id from) (find_by_id C session_id s) _ s _ h
          λ session found. join_session-Stayed session user_id now s h

    join_by_code-Stayed :
        (invite_code user_id : String) (now : ℤ) (s : C.State)
        → Stayed C law id from s
        → Stayed C law id from (join_by_code C find_user normalize invite_code user_id now s).1
    unfolding join_by_code
    join_by_code-Stayed invite_code user_id now s h =
        or_raise-after (Stayed C law id from) (find_by_invite_code C (normalize invite_code) s) _ s
          _ h λ session found. join_session-Stayed session user_id now s h

    create_rounds-Moved :
        (left n : ℕ) (draws : Draws) (doc : Draws → ℕ → SessionDocument) (s : C.State)
        → ((k : ℕ) → (doc draws k).status ≡ SessionStatus.waiting)
        → Stayed C law id from s
        → Moved C law id from (create_rounds C find_user normalize left n draws doc s).1
    unfolding create_rounds insert
    create_rounds-Moved zero n draws doc s waiting h = moved C law id from s h
    create_rounds-Moved (suc left) n draws doc s waiting h =
        let inserted = insert-Moved C law id from (doc draws n) s (waiting n) h in
        elim (Bool-cases (C.insert_one (doc draws n) s).0) [
          | inl e ↦ rw e (inserted.0 e)
          | inr e ↦ rw e (create_rounds-Moved left (n + 1) draws doc _ waiting (inserted.1 e))
        ]

    create-Moved :
        (user_id : String) (visibility : SessionVisibility) (ranked : Bool) (mode : GameMode)
        (draws : Draws) (now : ℤ) (s : C.State)
        → Stayed C law id from s
        → Moved C law id from
            (create C find_user normalize user_id visibility ranked mode draws now s).1
    unfolding create to_document
    create-Moved user_id visibility ranked mode draws now s h =
        or_raise-after (Moved C law id from) (find_user user_id) _ s _ (moved C law id from s h)
          λ user found.
            create_rounds-Moved session_invite_code_max_retries 0 draws _ s (λ k. refl) h

module _ (C : Collection SessionDocument) (find_user : String → Option User)
    (normalize : String → String) where
  -- Whatever is requested, and of whatever session, every session makes at most one step of its life:
  -- an absent one opens and waits, a waiting one begins, one in progress ends, or it is closed. No
  -- request takes a session back. The stored lobbies are well formed, and no two sessions share an
  -- id or an invite code.
  pub served-Moves :
      (law : IsCollection session_conflicts C) (request : Request × ℤ) (id : String) (s : C.State)
      → IsLobbies (law.documents s)
      → Moves
          (status_at id (law.documents s))
          (status_at id (law.documents (served C find_user normalize request s)))
  unfolding served
  served-Moves law (create_session user_id visibility ranked mode draws, now) id s h =
      create-Moved C law id _ find_user normalize user_id visibility ranked mode draws now s refl
  served-Moves law (join_session_by_id session_id user_id, now) id s h =
      moved C law id _ _ (join-Stayed C law id _ find_user normalize session_id user_id now s refl)
  served-Moves law (join_session_by_code invite_code user_id, now) id s h =
      moved C law id _ _
        (join_by_code-Stayed C law id _ find_user normalize invite_code user_id now s refl)
  served-Moves law (leave_session session_id user_id, now) id s h =
      leave-Moved C law id _ find_user normalize session_id user_id now s h refl
  served-Moves law (kick_member session_id host_user_id target_user_id, now) id s h =
      moved C law id _ _ (
        kick-Stayed C law id _ find_user normalize session_id host_user_id target_user_id now s
          refl)
  served-Moves law (start_session session_id host_user_id, now) id s h =
      start-Moved C law id _ find_user normalize session_id host_user_id now s refl
  served-Moves law (finish_session session_id, now) id s h =
      mark_finished-Moved C law id _ find_user normalize session_id now s refl
