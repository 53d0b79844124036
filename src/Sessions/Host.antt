-- ===== src/Sessions/Host.antt =====
-- src/infra/mongo/sessions/repository.py: who is the host after `update_host_and_member_role`.
use monopoly_be.Prelude.{
  String, str_eq, eq_of_str_eq, Option-cases, ◌≡◌, refl, ap, ◌∙◌, sym, inl, inr, ◌⊎◌, true, false,
  ◌&&◌, none, some, List, [], ◌∷◌, map, Bool-cases, ℤ, ok, ok-injective,
}
use monopoly_be.Store.{Collection, IsCollection}
use monopoly_be.Sessions.{
  Session, SessionMember, SessionDocument, member_to_domain, to_domain, session_conflicts, has_id,
  has_user, has_member, find_member, get_member, is_host, is_host_role, is_host_member, put_host,
  rehosted, rehosted_role, find_by_id, change_one, update_host_and_member_role,
}
use mathlib.Core.Option
use mathlib.Core.Option.{some-injective}

role_after :
    (new : String) (m : SessionMember) → is_host_role (rehosted_role new m) ≡ str_eq m.user_id new
unfolding rehosted_role
role_after new m = elim (Bool-cases (str_eq m.user_id new)) [
  | inl e ↦ rw e
  | inr e ↦ elim (Bool-cases (is_host_role m.role)) [ inl f ↦ rw (e, f) | inr f ↦ rw (e, f) f ]
]

-- The member that `rehosted` makes, as it is read back.
again : String → SessionMember → SessionMember
again new m = member_to_domain (rehosted new m)

find_member-again :
    (new user_id : String) (members : List SessionMember)
    → find_member (map member_to_domain (map (rehosted new) members)) user_id
      ≡ Option.map (again new) (find_member members user_id)
unfolding find_member again member_to_domain rehosted
find_member-again new user_id [] = refl
find_member-again new user_id (m ∷ members) = elim (Bool-cases (str_eq m.user_id user_id)) [
  | inl e ↦ rw e
  | inr e ↦ rw (e, find_member-again new user_id members)
]

-- Who is found has the id, and whoever is a member is found.
find_member-user :
    (members : List SessionMember) (user_id : String)
    → (find_member members user_id ≡ none × (has_user members user_id ≡ false))
      ⊎ ((m : SessionMember) × (find_member members user_id ≡ some m)
          × (m.user_id ≡ user_id)
          × (has_user members user_id ≡ true))
unfolding find_member
find_member-user [] user_id = inl (refl, refl)
find_member-user (m ∷ members) user_id = elim (Bool-cases (str_eq m.user_id user_id)) [
  | inl e ↦ inr (m, rw e, eq_of_str_eq m.user_id user_id e, rw e)
  | inr e ↦ rw e (find_member-user members user_id)
]

is_host-again :
    (new user_id : String) (before after : Session)
    → after.members ≡ map member_to_domain (map (rehosted new) before.members)
    → is_host after user_id ≡ (has_member before user_id && str_eq user_id new)
unfolding is_host get_member has_member again member_to_domain rehosted
is_host-again new user_id before after e =
    let found_after =
      ap (λ ms. find_member ms user_id) e ∙ find_member-again new user_id before.members in
    elim (find_member-user before.members user_id) [
      | inl (none_found, absent) ↦
          ap is_host_member (found_after ∙ ap (Option.map (again new)) none_found)
          ∙ sym (ap (λ b. b && str_eq user_id new) absent)
      | inr (m, found, same, present) ↦
          ap is_host_member (found_after ∙ ap (Option.map (again new)) found)
          ∙ role_after new m
          ∙ ap (λ u. str_eq u new) same
          ∙ sym (ap (λ b. b && str_eq user_id new) present)
    ]

module _ (C : Collection SessionDocument) (law : IsCollection session_conflicts C) where
  -- A session that `update_host_and_member_role` returns has the new host as its host, where the new
  -- host was a member of the session that it found, and no other user is a host of it.
  pub update_host_and_member_role-is_host :
      (session_id new user_id : String) (now : ℤ) (s : C.State) (before after : Session)
      → find_by_id C session_id s ≡ some before
      → (update_host_and_member_role C session_id new now s).0 ≡ ok (some after)
      → (after.host_user_id ≡ new)
        × (is_host after user_id ≡ (has_member before user_id && str_eq user_id new))
  unfolding update_host_and_member_role change_one find_by_id to_domain put_host
  update_host_and_member_role-is_host session_id new user_id now s before after found h =
      elim (Option-cases (C.find_one (has_id session_id) s)) [
        | inl e ↦ let bad : none ≡ some before = rw e at found in cc
        | inr (d, e) ↦
            let change : SessionDocument → SessionDocument =
              put_host new (map (rehosted new) (to_domain d).members) now in
            let reply : (C.find_one_and_update (has_id session_id) change s).0 ≡ some (change d) =
              law.update_reply (has_id session_id) change s
              ∙ ap (Option.map change) (sym (law.find_one_lem (has_id session_id) s) ∙ e) in
            let was : to_domain d ≡ before = some-injective _ _ (rw e at found) in
            let is : to_domain (change d) ≡ after =
              some-injective _ _ (ok-injective (rw (e, reply) at h)) in
            (
              ap (λ (x : Session). x.host_user_id) (sym is),
              is_host-again new user_id before after (
                  ap (λ (x : Session). x.members) (sym is)
                  ∙ ap (λ (x : Session). map member_to_domain (map (rehosted new) x.members)) was),
            )
      ]
