-- ===== src/Sessions/Kept.antt =====
-- src/application/services/session_service.py: every operation keeps the lobbies well formed.
use monopoly_be.Prelude.{
  Option-cases, str_eq, All-map, str_eq, All-map, Option-cases, ℕ, String, zero, suc, ◌+◌, ◌≤◌, ◌≡◌,
  refl, ap, sym, subst, inl, inr, Bool, true, not, Option, none, some, List, [], ◌∷◌, All,
  Bool-cases, arith, ℤ, or_raise,
}
use monopoly_be.Schema.{GameMode}
use monopoly_be.Board.{get_game_config}
use monopoly_be.Users.{User}
use monopoly_be.Store.{
  resume, Collection, IsCollection, or_raise-after, raise_if-after, resume-after, resume, lift,
}
use monopoly_be.Sessions.{
  give_or, has_member, is_waiting, is_full, SessionStatus, SessionVisibility, MemberRole, Session,
  SessionMember, SessionDocument, to_domain, session_conflicts, has_id, insert, find_by_id,
  find_by_invite_code, delete, add_member, remove_member, update_host_and_member_role, set_status,
  Draws, give_or, kick_checks, is_host, session_invite_code_max_retries, new_member,
  get_session_or_404, create_rounds, join_as, added_or_refused, after_leave_of, user_not_found,
  create, join_refused, join_session, join, join_by_code, after_leave, leave, kick, start,
  mark_finished, max_players, to_document, earliest,
}
use monopoly_be.Sessions.Lobby.{IsLobby}
use monopoly_be.Sessions.Invariant.{
  InLobbies, set_status-InLobbies, remove_member-InLobbies, found_by_unique, add_member-InLobbies,
  delete-InLobbies, update_host-InLobbies, insert-InLobbies,
}

module _ (C : Collection SessionDocument) (law : IsCollection session_conflicts C) where
  module _ (find_user : String → Option User) (normalize : String → String) where
    -- A refused join changes nothing.
    pub join_refused-store :
        (session : Session) (user_id : String) (s : C.State)
        → (join_refused C find_user normalize session user_id s).1 ≡ s
    unfolding join_refused
    join_refused-store session user_id s =
        or_raise-after (λ t. t ≡ s) (find_by_id C session.id s) _ s _ refl
          λ current found. elim (Bool-cases (has_member current user_id)) [
            | inl e ↦ rw e
            | inr e ↦ rw e (elim (Bool-cases (is_waiting current.status)) [
              | inl e ↦ rw e (elim (Bool-cases (is_full current)) [ inl e ↦ rw e | inr e ↦ rw e ])
              | inr e ↦ rw e
            ])
          ]

    added_or_refused-InLobbies :
        (session : Session) (user_id : String) (updated : Option Session) (s : C.State)
        → InLobbies C law s
        → InLobbies C law (added_or_refused C find_user normalize session user_id updated s).1
    unfolding added_or_refused
    added_or_refused-InLobbies session user_id none s h =
        subst (InLobbies C law) (sym (join_refused-store session user_id s)) h
    added_or_refused-InLobbies session user_id (some joined) s h = h

    join_as-InLobbies :
        (session : Session) (user_id : String) (now : ℤ) (user : User) (s : C.State)
        → All (λ e. has_id session.id e ≡ true → e.game_mode ≡ session.game_mode) (law.documents s)
        → InLobbies C law s
        → InLobbies C law (join_as C find_user normalize session user_id now user s).1
    unfolding join_as
    join_as-InLobbies session user_id now user s modes h =
        let member = new_member user MemberRole.player now in
        let added = add_member-InLobbies C law session member now s modes h in
        resume-after (InLobbies C law) (add_member C session.id member (max_players session) now s)
          (added_or_refused C find_user normalize session user_id) added
          (λ updated. added_or_refused-InLobbies session user_id updated _ added)

    -- The session may have been read at any earlier time: what counts is that its mode is the store's.
    join_session-InLobbies :
        (session : Session) (user_id : String) (now : ℤ) (s : C.State)
        → All (λ e. has_id session.id e ≡ true → e.game_mode ≡ session.game_mode) (law.documents s)
        → InLobbies C law s
        → InLobbies C law (join_session C find_user normalize session user_id now s).1
    unfolding join_session
    join_session-InLobbies session user_id now s modes h =
        elim (Bool-cases (has_member session user_id)) [
          | inl e ↦ rw e (h)
          | inr e ↦ rw e (elim (Bool-cases (is_waiting session.status)) [
            | inl e ↦
                rw e (elim (Bool-cases (is_full session)) [
                  | inl e ↦ rw e (h)
                  | inr e ↦ rw e (joining)
                ])
            | inr e ↦ rw e (h)
          ])
        ]
      where
        joining :
            InLobbies C law
              (resume
                (or_raise (find_user user_id) user_not_found, s)
                (join_as C find_user normalize session user_id now)).1
        joining =
            or_raise-after (InLobbies C law) (find_user user_id) user_not_found s
              (join_as C find_user normalize session user_id now) h
              (λ user found. join_as-InLobbies session user_id now user s modes h)

    modes_of :
        (d : SessionDocument) (docs : List SessionDocument)
        → All (λ e. has_id d.id e ≡ true → e ≡ d) docs
        → All (λ e. has_id (to_domain d).id e ≡ true → e.game_mode ≡ (to_domain d).game_mode) docs
    unfolding to_domain
    modes_of d docs h =
        All-map _ _ docs (λ e same q. ap (λ (x : SessionDocument). x.game_mode) (same q)) h

    pub join-InLobbies :
        (session_id user_id : String) (now : ℤ) (s : C.State)
        → InLobbies C law s
        → InLobbies C law (join C find_user normalize session_id user_id now s).1
    unfolding join get_session_or_404 find_by_id
    join-InLobbies session_id user_id now s h =
        elim (Option-cases (C.find_one (has_id session_id) s)) [
          | inl e ↦ rw e h
          | inr (d, e) ↦ rw e (
              join_session-InLobbies (to_domain d) user_id now s
                (modes_of d _ (found_by_unique C law (has_id session_id) s d e h)) h)
        ]

    pub join_by_code-InLobbies :
        (invite_code user_id : String) (now : ℤ) (s : C.State)
        → InLobbies C law s
        → InLobbies C law (join_by_code C find_user normalize invite_code user_id now s).1
    unfolding join_by_code find_by_invite_code
    join_by_code-InLobbies invite_code user_id now s h =
        let query : SessionDocument → Bool =
          λ doc. str_eq doc.invite_code (normalize invite_code) in
        elim (Option-cases (C.find_one query s)) [
          | inl e ↦ rw e h
          | inr (d, e) ↦ rw e (
              join_session-InLobbies (to_domain d) user_id now s
                (modes_of d _ (found_by_unique C law query s d e h)) h)
        ]

    give_or-InLobbies :
        (updated : Session) (answer : Option Session) (s : C.State)
        → InLobbies C law s
        → InLobbies C law (give_or updated answer s).1
    give_or-InLobbies updated none s h = h
    give_or-InLobbies updated (some again) s h = h

    after_leave_of-InLobbies :
        (session_id user_id : String) (updated : Session) (now : ℤ) (members : List SessionMember)
        (s : C.State)
        → InLobbies C law s
        → InLobbies C law
            (after_leave_of C find_user normalize session_id user_id updated now members s).1
    unfolding after_leave_of
    after_leave_of-InLobbies session_id user_id updated now [] s h =
        resume-after (InLobbies C law) (delete C session_id s) _
          (delete-InLobbies C law session_id s h) (λ gone. delete-InLobbies C law session_id s h)
    after_leave_of-InLobbies session_id user_id updated now (m ∷ members) s h =
        elim (Bool-cases (str_eq updated.host_user_id user_id)) [
          | inr e ↦ rw e h
          | inl e ↦
              let new = (earliest m members).user_id in
              let kept = update_host-InLobbies C law session_id new now s h in
              rw e (
                resume-after (InLobbies C law) (update_host_and_member_role C session_id new now s)
                  (give_or updated) kept (λ answer. give_or-InLobbies updated answer _ kept))
        ]

    pub leave-InLobbies :
        (session_id user_id : String) (now : ℤ) (s : C.State)
        → InLobbies C law s
        → InLobbies C law (leave C find_user normalize session_id user_id now s).1
    unfolding leave get_session_or_404 after_leave
    leave-InLobbies session_id user_id now s h =
        or_raise-after (InLobbies C law) (find_by_id C session_id s) _ s _ h λ session found.
          raise_if-after (InLobbies C law) (not (has_member session user_id)) _ s _ h λ member.
            let removed = remove_member-InLobbies C law session_id user_id now s h in
            resume-after (InLobbies C law) (remove_member C session_id user_id now s) _ removed
              λ answer. or_raise-after (InLobbies C law) answer _ _ _ removed λ updated e.
                after_leave_of-InLobbies session_id user_id updated now updated.members _ removed

    pub kick-InLobbies :
        (session_id host_user_id target_user_id : String) (now : ℤ) (s : C.State)
        → InLobbies C law s
        → InLobbies C law
            (kick C find_user normalize session_id host_user_id target_user_id now s).1
    unfolding kick get_session_or_404
    kick-InLobbies session_id host_user_id target_user_id now s h =
        or_raise-after (InLobbies C law) (find_by_id C session_id s) _ s _ h λ session found.
          resume-after (InLobbies C law)
            (lift (kick_checks C find_user normalize session session_id host_user_id target_user_id)
              s)
            _ h
            λ u.
              let removed = remove_member-InLobbies C law session_id target_user_id now s h in
              resume-after (InLobbies C law) (remove_member C session_id target_user_id now s) _
                removed λ answer. removed

    pub start-InLobbies :
        (session_id host_user_id : String) (now : ℤ) (s : C.State)
        → InLobbies C law s
        → InLobbies C law (start C find_user normalize session_id host_user_id now s).1
    unfolding start get_session_or_404
    start-InLobbies session_id host_user_id now s h =
        let status = SessionStatus.in_progress in
        let set =
          set_status-InLobbies C law session_id status (some SessionStatus.waiting) now s h in
        or_raise-after (InLobbies C law) (find_by_id C session_id s) _ s _ h λ session found.
          raise_if-after (InLobbies C law) (not (is_host session host_user_id)) _ s _ h λ host.
            raise_if-after (InLobbies C law) (not (is_waiting session.status)) _ s _ h λ waiting.
              resume-after (InLobbies C law)
                (set_status C session_id status (some SessionStatus.waiting) now s) _ set
                λ answer. set

    pub mark_finished-InLobbies :
        (session_id : String) (now : ℤ) (s : C.State)
        → InLobbies C law s
        → InLobbies C law (mark_finished C find_user normalize session_id now s).1
    unfolding mark_finished
    mark_finished-InLobbies session_id now s h =
        set_status-InLobbies C law session_id SessionStatus.finished
          (some SessionStatus.in_progress) now s h

    create_rounds-InLobbies :
        (left n : ℕ) (draws : Draws) (doc : Draws → ℕ → SessionDocument) (s : C.State)
        → ((k : ℕ) → IsLobby (doc draws k))
        → InLobbies C law s
        → InLobbies C law (create_rounds C find_user normalize left n draws doc s).1
    unfolding create_rounds insert
    create_rounds-InLobbies zero n draws doc s lobby h = h
    create_rounds-InLobbies (suc left) n draws doc s lobby h =
        let inserted = insert-InLobbies C law (doc draws n) s (lobby n) h in
        elim (Bool-cases (C.insert_one (doc draws n) s).0) [
          | inl e ↦ rw e inserted
          | inr e ↦ rw e (create_rounds-InLobbies left (n + 1) draws doc _ lobby inserted)
        ]

    players_positive : (mode : GameMode) → 1 ≤ (get_game_config mode).max_players
    unfolding get_game_config
    players_positive GameMode.normal = omega arith
    players_positive GameMode.duel = omega arith

    pub create-InLobbies :
        (user_id : String) (visibility : SessionVisibility) (ranked : Bool) (mode : GameMode)
        (draws : Draws) (now : ℤ) (s : C.State)
        → InLobbies C law s
        → InLobbies C law
            (create C find_user normalize user_id visibility ranked mode draws now s).1
    unfolding create to_document
    create-InLobbies user_id visibility ranked mode draws now s h =
        or_raise-after (InLobbies C law) (find_user user_id) _ s _ h λ user found.
          create_rounds-InLobbies session_invite_code_max_retries 0 draws _ s
            (λ k. record { bounded = players_positive mode; distinct = (tt, tt) }) h
