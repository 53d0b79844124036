-- ===== src/Sessions/Steps.antt =====
-- src/infra/mongo/sessions/repository.py: what each call does to the status of one session.
use monopoly_be.Prelude.{
  Option-cases, Option-cases, String, any, ◌≡◌, refl, ap, ◌∙◌, sym, inl, inr, Bool, true, false,
  not, Option, some, map, Bool-cases, ℤ,
}
use monopoly_be.Store.{Collection, IsCollection}
use monopoly_be.Sessions.{
  SessionStatus, SessionDocument, to_domain, session_conflicts, has_id, pull_member, put_status,
  put_host, rehosted, find_by_id, delete, change_one, remove_member, update_host_and_member_role,
  set_status,
}
use monopoly_be.Sessions.Invariant.{InLobbies}
use monopoly_be.Sessions.Status.{
  Moves, stays, status_at, KeepsStatus, status_at-update, put_status-Moves, remove_first-Moves,
  insert-Moves,
}

module _ (C : Collection SessionDocument) (law : IsCollection session_conflicts C) (id : String)
    (from : Option SessionStatus) where
  -- The store has the session in a status that `from` moves to, or in `from` itself.
  abbrev pub Moved : C.State → Type 0
  Moved t = Moves from (status_at id (law.documents t))

  abbrev pub Stayed : C.State → Type 0
  Stayed t = status_at id (law.documents t) ≡ from

  pub moved : (t : C.State) → Stayed t → Moved t
  moved t e = rw e (stays from)

  pub change_one-Stayed :
      (query : SessionDocument → Bool) (change : SessionDocument → SessionDocument)
      → KeepsStatus change
      → (t : C.State) → Stayed t
      → Stayed (change_one C query change t).1
  unfolding change_one
  change_one-Stayed query change keep t e =
      rw
        (
          law.update_documents query change t,
          status_at-update id query change (law.documents t) keep,
        )
        e

  pub set_status-Moved :
      (session_id : String) (expected status : SessionStatus) (now : ℤ)
      → Moves (some expected) (some status)
      → (t : C.State) → Stayed t
      → Moved (set_status C session_id status (some expected) now t).1
  unfolding set_status change_one
  set_status-Moved session_id expected status now move t e =
      rw (law.update_documents _ (put_status status now) t, ← e)
        (put_status-Moves id session_id expected status now (law.documents t) move)

  pub delete-Moved :
      (session_id : String) (t : C.State)
      → InLobbies C law t
      → Stayed t
      → Moved (delete C session_id t).1
  unfolding delete
  delete-Moved session_id t h e =
      rw (law.delete_one_documents (has_id session_id) t, ← e)
        (remove_first-Moves id session_id (law.documents t) h)

  pub remove_member-Stayed :
      (session_id user_id : String) (now : ℤ) (t : C.State)
      → Stayed t
      → Stayed (remove_member C session_id user_id now t).1
  unfolding remove_member pull_member
  remove_member-Stayed session_id user_id now =
      change_one-Stayed (has_id session_id) (pull_member user_id now) (λ d. (refl, refl))

  pub update_host-Stayed :
      (session_id new : String) (now : ℤ) (t : C.State)
      → Stayed t
      → Stayed (update_host_and_member_role C session_id new now t).1
  unfolding update_host_and_member_role find_by_id put_host
  update_host-Stayed session_id new now t e =
      elim (Option-cases (C.find_one (has_id session_id) t)) [
        | inl f ↦ rw f e
        | inr (d, f) ↦ rw f (
            change_one-Stayed (has_id session_id)
              (put_host new (map (rehosted new) (to_domain d).members) now) (λ x. (refl, refl)) t e)
      ]

  pub insert-Moved :
      (doc : SessionDocument) (s : C.State)
      → doc.status ≡ SessionStatus.waiting
      → Stayed s
      → ((C.insert_one doc s).0 ≡ true → Moved (C.insert_one doc s).1)
        × ((C.insert_one doc s).0 ≡ false → Stayed (C.insert_one doc s).1)
  insert-Moved doc s waiting h = elim (Bool-cases (any (session_conflicts doc) (law.documents s))) [
    | inl e ↦ (
      λ yes. let bad : true ≡ false = sym yes ∙ (law.insert_one_reply doc s ∙ ap not e) in cc,
      λ no. rw (law.insert_one_documents doc s, e) h,
    )
    | inr e ↦ (
      λ yes.
          rw (law.insert_one_documents doc s, e, ← h)
            (insert-Moves id (law.documents s) doc waiting),
      λ no. let bad : true ≡ false = sym (law.insert_one_reply doc s ∙ ap not e) ∙ no in cc,
    )
  ]
