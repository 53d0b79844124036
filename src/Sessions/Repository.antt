-- ===== src/Sessions/Repository.antt =====
-- src/infra/mongo/sessions/repository.py: the calls of `SessionRepository`, each with the clock that it
-- reads. The collection holds documents; Sessions/Roundtrip is why their dictionaries may be left out.
use monopoly_be.Prelude.{
  ℕ, String, str_eq, str_lt, eqb_ℤ, take, any, Bool, false, not, ◌&&◌, ◌||◌, Option, none, some,
  List, [], ◌∷◌, ◌++◌, map, ltb, if◌then◌else◌, length, filterb, ℤ, pos, ltb_ℤ,
}
use monopoly_be.Store.{Collection, Step, give, calling, reading, ◌>>=◌}
use monopoly_be.Sessions.Schema.{
  SessionStatus, MemberRole, SessionMember, Session, is_waiting, status_eq, is_open, is_host_role,
}
use monopoly_be.Sessions.Mapper.{SessionMemberDocument, SessionDocument, to_domain}
use mathlib.Core.Option

-- The unique indexes of infra/mongo/indexes.py: two sessions differ in their id and invite code.
unfoldable pub session_conflicts : SessionDocument → SessionDocument → Bool
session_conflicts d e = str_eq d.id e.id || str_eq d.invite_code e.invite_code

abbrev pub has_id : String → SessionDocument → Bool
has_id session_id doc = str_eq doc.id session_id

abbrev pub is_member_of : String → SessionMemberDocument → Bool
is_member_of user_id m = str_eq m.user_id user_id

-- The query of `add_member`.
unfoldable pub takes_member : String → SessionMemberDocument → ℕ → SessionDocument → Bool
takes_member session_id member max_members doc =
    has_id session_id doc
    && is_waiting doc.status
    && not (any (is_member_of member.user_id) doc.members)
    && ltb (length doc.members) max_members

-- The updates of the calls.
unfoldable pub push_member : SessionMemberDocument → ℤ → SessionDocument → SessionDocument
push_member member now doc = record doc { members = doc.members ++ (member ∷ []); updated_at = now }

unfoldable pub pull_member : String → ℤ → SessionDocument → SessionDocument
pull_member user_id now doc = record doc {
  members = filterb (λ m. not (is_member_of user_id m)) doc.members;
  updated_at = now;
}

unfoldable pub put_status : SessionStatus → ℤ → SessionDocument → SessionDocument
put_status status now doc = record doc { status = status; updated_at = now }

unfoldable pub put_host :
    String → List SessionMemberDocument → ℤ → SessionDocument → SessionDocument
put_host new_host_user_id members now doc = record doc {
  host_user_id = new_host_user_id;
  members = members;
  updated_at = now;
}

-- The body of the loop of `update_host_and_member_role`: `rating` and `calibration_complete` are not
-- given, so they get the defaults of the class.
unfoldable pub rehosted_role : String → SessionMember → MemberRole
rehosted_role new_host_user_id m =
    if str_eq m.user_id new_host_user_id
    then MemberRole.host
    else if is_host_role m.role
    then MemberRole.player
    else m.role

unfoldable pub rehosted : String → SessionMember → SessionMemberDocument
unfolding rehosted_role
rehosted new_host_user_id m = record {
  user_id = m.user_id;
  display_name = m.display_name;
  role = rehosted_role new_host_user_id m;
  joined_at = m.joined_at;
  rating = pos 800;
  calibration_complete = false;
}

-- The query of `list_public_waiting`: past a cursor, what was created before it.
unfoldable pub is_listed : Option (ℤ × String) → SessionDocument → Bool
is_listed none doc = is_waiting doc.status && is_open doc.visibility
is_listed (some (created_at, id)) doc =
    is_waiting doc.status
    && is_open doc.visibility
    && (ltb_ℤ doc.created_at created_at || (eqb_ℤ doc.created_at created_at && str_lt doc.id id))

-- `.sort([("created_at", -1), ("_id", -1)])`
unfoldable pub is_newer : SessionDocument → SessionDocument → Bool
is_newer d e =
    ltb_ℤ e.created_at d.created_at || (eqb_ℤ e.created_at d.created_at && str_lt e.id d.id)

unfoldable pub insert_newest : SessionDocument → List SessionDocument → List SessionDocument
insert_newest d [] = d ∷ []
insert_newest d (e ∷ docs) = if is_newer d e then d ∷ e ∷ docs else e ∷ insert_newest d docs

unfoldable pub newest_first : List SessionDocument → List SessionDocument
newest_first [] = []
newest_first (d ∷ docs) = insert_newest d (newest_first docs)

module _ (C : Collection SessionDocument) where
  -- true where the session was inserted
  unfoldable pub insert : SessionDocument → Step C.State (Option Session)
  insert doc = do
    inserted ← calling (C.insert_one doc)
    give (if inserted then some (to_domain doc) else none)

  unfoldable pub find_by_id : String → C.State → Option Session
  find_by_id session_id s = Option.map to_domain (C.find_one (has_id session_id) s)

  unfoldable pub find_by_invite_code : String → C.State → Option Session
  find_by_invite_code invite_code s =
      Option.map to_domain (C.find_one (λ doc. str_eq doc.invite_code invite_code) s)

  unfoldable pub delete : String → Step C.State Bool
  delete session_id = calling (C.delete_one (has_id session_id))

  unfoldable pub list_public_waiting : ℕ → Option (ℤ × String) → C.State → List Session
  unfolding newest_first
  list_public_waiting limit cursor s =
      map to_domain (take limit (newest_first (C.find (is_listed cursor) s)))

  -- `find_one_and_update` and the mapping of what it returns
  unfoldable pub change_one :
      (SessionDocument → Bool) → (SessionDocument → SessionDocument) → Step C.State (Option Session)
  change_one query change = do
    raw ← calling (C.find_one_and_update query change)
    give (Option.map to_domain raw)

  unfoldable pub add_member : String → SessionMemberDocument → ℕ → ℤ → Step C.State (Option Session)
  add_member session_id member max_members now =
      change_one (takes_member session_id member max_members) (push_member member now)

  unfoldable pub remove_member : String → String → ℤ → Step C.State (Option Session)
  remove_member session_id user_id now = change_one (has_id session_id) (pull_member user_id now)

  unfoldable pub update_host_and_member_role : String → String → ℤ → Step C.State (Option Session)
  update_host_and_member_role session_id new_host_user_id now = do
    found ← reading (find_by_id session_id)
    elim found [
      | none ↦ give none
      | some session ↦
          change_one (has_id session_id)
            (put_host new_host_user_id (map (rehosted new_host_user_id) session.members) now)
    ]

  unfoldable pub set_status :
      String → SessionStatus → Option SessionStatus → ℤ → Step C.State (Option Session)
  set_status session_id status none now = change_one (has_id session_id) (put_status status now)
  set_status session_id status (some expected) now =
      change_one (λ doc. has_id session_id doc && status_eq doc.status expected)
        (put_status status now)
