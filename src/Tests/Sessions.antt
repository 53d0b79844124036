-- ===== src/Tests/Sessions.antt =====
-- A small lobby: it opens, fills, starts and loses its host.
use monopoly_be.Prelude.{
  str_eq, String, ◌≡◌, refl, true, false, ◌&&◌, Option, none, some, List, [], ◌∷◌, arith, ℤ, pos,
  Result, ok, err,
}
use monopoly_be.Schema.{GameMode}
use monopoly_be.Board.{get_game_config}
use monopoly_be.Users.{User}
use monopoly_be.Store.{Collection}
use monopoly_be.Sessions.{
  SessionStatus, SessionVisibility, MemberRole, Session, SessionMemberDocument, SessionDocument,
  to_domain, session_conflicts, Draws, document_to_mongo, document_from_mongo, is_host, has_member,
  update_host_and_member_role, find_by_id, change_one,
}
use monopoly_be.Sessions.Lobby.{IsLobbies}
use monopoly_be.Sessions.Requests.{
  Request, served, served_all, served_all-IsLobbies, create_session, join_session_by_id,
  leave_session, start_session,
}
use monopoly_be.Sessions.Status.{Moves, status_at}
use monopoly_be.Sessions.Refinement.{served-Moves}
use monopoly_be.Sessions.Roundtrip.{document_from_mongo-document_to_mongo}
use monopoly_be.Sessions.Host.{update_host_and_member_role-is_host}
use monopoly_be.Tests.Stores.{listed, listed-IsCollection, plain, plain-IsConversions}

abbrev pub member : String → MemberRole → SessionMemberDocument
member user_id role = record {
  user_id = user_id;
  display_name = user_id;
  role = role;
  joined_at = pos 10;
  rating = pos 900;
  calibration_complete = true;
}

abbrev pub lobby : SessionStatus → List SessionMemberDocument → SessionDocument
lobby status members = record {
  id = "s1";
  invite_code = "TYC-AAAA";
  host_user_id = "ann";
  status = status;
  visibility = SessionVisibility.open_to_all;
  game_mode = GameMode.duel;
  ranked = true;
  members = members;
  created_at = pos 5;
  updated_at = pos 5;
}

abbrev pub two_members : SessionDocument
two_members =
    lobby SessionStatus.waiting (member "ann" MemberRole.host ∷ member "bob" MemberRole.player ∷ [])

abbrev pub somebody : String → Option User
somebody user_id = some (record {
  id = user_id;
  email = "";
  display_name = user_id;
  created_at = pos 0;
  rating = pos 800;
  games_played = pos 0;
  calibration_complete = false;
})

abbrev sessions : Collection SessionDocument
sessions = listed session_conflicts

abbrev draws : Draws
draws = record { code = λ n. "TYC-BBBB"; session_id = λ n. "s2" }

abbrev requests : List (Request × ℤ)
requests =
    (create_session "cid" SessionVisibility.open_to_all true GameMode.normal draws, pos 20)
    ∷ (join_session_by_id "s1" "dan", pos 21)
    ∷ (start_session "s1" "ann", pos 22)
    ∷ (leave_session "s1" "ann", pos 23)
    ∷ []

document_from_mongo-document_to_mongo_example :
    document_from_mongo plain (document_to_mongo two_members) ≡ ok two_members
document_from_mongo-document_to_mongo_example =
    document_from_mongo-document_to_mongo plain plain-IsConversions two_members

pub two_members-IsLobbies : IsLobbies (two_members ∷ [])
unfolding get_game_config
two_members-IsLobbies =
    (record { bounded = omega arith; distinct = ((refl, tt), (tt, tt)) }, tt, tt)

served_all-IsLobbies_example :
    IsLobbies (served_all sessions somebody (λ c. c) requests (two_members ∷ []))
served_all-IsLobbies_example =
    served_all-IsLobbies sessions somebody (λ c. c) (listed-IsCollection session_conflicts) requests
      (two_members ∷ []) two_members-IsLobbies

served-Moves_example : Moves (some SessionStatus.waiting) (
    status_at "s1"
      (served sessions somebody (λ c. c) (start_session "s1" "ann", pos 22) (two_members ∷ [])))
served-Moves_example =
    served-Moves sessions somebody (λ c. c) (listed-IsCollection session_conflicts)
      (start_session "s1" "ann", pos 22) "s1" (two_members ∷ []) two_members-IsLobbies

abbrev session_of : Option Session → Session
session_of (some s) = s
session_of none = to_domain two_members

abbrev value_of : Result (Option Session) → Session
value_of (ok s) = session_of s
value_of (err e) = to_domain two_members

abbrev rehosted_session : Session
rehosted_session =
    value_of (update_host_and_member_role sessions "s1" "bob" (pos 30) (two_members ∷ [])).0

update_host_and_member_role-is_host_example :
    (rehosted_session.host_user_id ≡ "bob")
    × (is_host rehosted_session "ann"
        ≡ (has_member (to_domain two_members) "ann" && str_eq "ann" "bob"))
unfolding update_host_and_member_role find_by_id change_one
update_host_and_member_role-is_host_example =
    update_host_and_member_role-is_host sessions (listed-IsCollection session_conflicts) "s1" "bob"
      "ann" (pos 30) (two_members ∷ []) (to_domain two_members) rehosted_session refl refl
