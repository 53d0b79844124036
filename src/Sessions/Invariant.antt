-- ===== src/Sessions/Invariant.antt =====
-- src/infra/mongo/sessions/repository.py: every call keeps the lobbies well formed.
use monopoly_be.Prelude.{
  Option-cases, eq_of_str_eq, Option-cases, any, String, ◌≡◌, refl, ap, ◌∙◌, sym, subst, inl, inr,
  Bool, true, Option, none, some, [], ◌∷◌, ◌++◌, map, All, if◌then◌else◌, Bool-cases, arith, ℤ,
}
use monopoly_be.Board.{get_game_config}
use monopoly_be.Store.{find_first-All, Collection, IsCollection}
use monopoly_be.Sessions.{
  SessionStatus, Session, SessionMemberDocument, SessionDocument, to_domain, session_conflicts,
  has_id, takes_member, push_member, pull_member, put_status, put_host, rehosted, find_by_id,
  delete, change_one, add_member, remove_member, update_host_and_member_role, set_status,
  max_players,
}
use monopoly_be.Sessions.Lobby.{
  IsLobby, IsLobbies, push_member-IsLobby, pull_member-IsLobby, put_status-IsLobby,
  put_host-IsLobby,
}
use monopoly_be.Sessions.Unique.{
  KeepsKeys, update_first-IsLobbies, All-true, remove_first-IsLobbies, insert-IsLobbies,
  find_first_unique,
}

module _ (C : Collection SessionDocument) (law : IsCollection session_conflicts C) where
  -- The sessions of the store.
  abbrev pub InLobbies : C.State → Type 0
  InLobbies s = IsLobbies (law.documents s)

  pub change_one-InLobbies {ℓ} :
      (R : SessionDocument → Type ℓ) (query : SessionDocument → Bool)
      (change : SessionDocument → SessionDocument)
      → KeepsKeys change
      → ((d : SessionDocument) → R d → query d ≡ true → IsLobby d → IsLobby (change d))
      → (s : C.State) → All R (law.documents s)
      → InLobbies s
      → InLobbies (change_one C query change s).1
  unfolding change_one
  change_one-InLobbies R query change keys keep s r h =
      subst IsLobbies (sym (law.update_documents query change s))
        (update_first-IsLobbies R query change (law.documents s) keys keep r h)

  change_one-kept :
      (query : SessionDocument → Bool) (change : SessionDocument → SessionDocument)
      → KeepsKeys change
      → ((d : SessionDocument) → IsLobby d → IsLobby (change d))
      → (s : C.State) → InLobbies s
      → InLobbies (change_one C query change s).1
  change_one-kept query change keys keep s h =
      change_one-InLobbies (λ d. Unit {0}) query change keys (λ d r q. keep d) s
        (All-true (law.documents s)) h

  pub set_status-InLobbies :
      (session_id : String) (status : SessionStatus) (expected : Option SessionStatus) (now : ℤ)
      → (s : C.State) → InLobbies s
      → InLobbies (set_status C session_id status expected now s).1
  unfolding set_status put_status
  set_status-InLobbies session_id status none now =
      change_one-kept _ (put_status status now) (λ d. (refl, refl)) (put_status-IsLobby status now)
  set_status-InLobbies session_id status (some expected) now =
      change_one-kept _ (put_status status now) (λ d. (refl, refl)) (put_status-IsLobby status now)

  pub remove_member-InLobbies :
      (session_id user_id : String) (now : ℤ)
      → (s : C.State) → InLobbies s
      → InLobbies (remove_member C session_id user_id now s).1
  unfolding remove_member pull_member
  remove_member-InLobbies session_id user_id now =
      change_one-kept _ (pull_member user_id now) (λ d. (refl, refl))
        (pull_member-IsLobby user_id now)

  -- A session that was read has the mode and the members that the store has under its id.
  pub found_by_unique :
      (query : SessionDocument → Bool) (s : C.State) (d : SessionDocument)
      → C.find_one query s ≡ some d
      → InLobbies s
      → All (λ e. has_id d.id e ≡ true → e ≡ d) (law.documents s)
  found_by_unique query s d found h =
      find_first_unique query (law.documents s) d h (sym (law.find_one_lem query s) ∙ found)

  pub add_member-InLobbies :
      (session : Session) (member : SessionMemberDocument) (now : ℤ) (s : C.State)
      → All (λ e. has_id session.id e ≡ true → e.game_mode ≡ session.game_mode) (law.documents s)
      → InLobbies s
      → InLobbies (add_member C session.id member (max_players session) now s).1
  unfolding add_member push_member max_players takes_member
  add_member-InLobbies session member now s modes h =
      change_one-InLobbies (λ e. has_id session.id e ≡ true → e.game_mode ≡ session.game_mode)
        (takes_member session.id member (max_players session)) (push_member member now)
        (λ d. (refl, refl))
        (λ d mode q lobby.
          let same : has_id session.id d ≡ true = ground arith in
          push_member-IsLobby session.id member (max_players session) now d
            (ap (λ m. (get_game_config m).max_players) (mode same)) q lobby)
        s modes h

  pub delete-InLobbies :
      (session_id : String) (s : C.State) → InLobbies s → InLobbies (delete C session_id s).1
  unfolding delete
  delete-InLobbies session_id s h =
      subst IsLobbies (sym (law.delete_one_documents (has_id session_id) s))
        (remove_first-IsLobbies (has_id session_id) (law.documents s) h)

  found_id :
      (session_id : String) (s : C.State) (d : SessionDocument)
      → C.find_one (has_id session_id) s ≡ some d
      → d.id ≡ session_id
  found_id session_id s d e =
      eq_of_str_eq d.id session_id
        (find_first-All (λ x. Unit {0}) (has_id session_id) (law.documents s) d
          (All-true (law.documents s)) (sym (law.find_one_lem (has_id session_id) s) ∙ e)).1

  pub update_host-InLobbies :
      (session_id new : String) (now : ℤ) (s : C.State)
      → InLobbies s
      → InLobbies (update_host_and_member_role C session_id new now s).1
  unfolding update_host_and_member_role find_by_id put_host
  update_host-InLobbies session_id new now s h =
      elim (Option-cases (C.find_one (has_id session_id) s)) [
        | inl e ↦ rw e h
        | inr (d, e) ↦ rw e (
            change_one-InLobbies (λ x. has_id session_id x ≡ true → x ≡ d) (has_id session_id)
              (put_host new (map (rehosted new) (to_domain d).members) now) (λ x. (refl, refl))
              (λ x same q lobby.
                subst (λ y. IsLobby (put_host new (map (rehosted new) (to_domain y).members) now x))
                  (same q) (put_host-IsLobby new now x lobby))
              s
              (subst (λ i. All (λ x. has_id i x ≡ true → x ≡ d) (law.documents s))
                (found_id session_id s d e) (found_by_unique (has_id session_id) s d e h))
              h)
      ]

  pub insert-InLobbies :
      (doc : SessionDocument) (s : C.State)
      → IsLobby doc
      → InLobbies s
      → InLobbies (C.insert_one doc s).1
  insert-InLobbies doc s lobby h = subst IsLobbies (sym (law.insert_one_documents doc s)) inserted
    where
      inserted : IsLobbies (
          if any (session_conflicts doc) (law.documents s)
          then law.documents s
          else law.documents s ++ (doc ∷ []))
      inserted = elim (Bool-cases (any (session_conflicts doc) (law.documents s))) [
        | inl e ↦ rw e h
        | inr e ↦ rw e (insert-IsLobbies (law.documents s) doc e lobby h)
      ]
