-- ===== src/Endpoints/Details.antt =====
-- src/api/sessions/router.py and src/protocol/rest/sessions.py: how a session is shown.
use monopoly_be.Prelude.{
  ℕ, String, str_eq, Bool, Option, none, some, List, [], ◌∷◌, map, if◌then◌else◌, ℤ, Result, ok,
  err, index_error, ◌>>=◌,
}
use mathlib.Core.Option
use monopoly_be.Schema.{GameMode}
use monopoly_be.Sessions.{
  Session, SessionMember, SessionStatus, SessionVisibility, MemberRole, find_member, get_member,
  member_count, max_players,
}

pub record HostSummary : Type 0 where
  pub id : String
  pub display_name : String
  pub rating : ℤ
  pub calibration_complete : Bool

pub record SessionMemberResponse : Type 0 where
  pub user_id : String
  pub display_name : String
  pub role : MemberRole
  pub joined_at : ℤ
  pub rating : ℤ
  pub calibration_complete : Bool

pub record SessionSummary : Type 0 where
  pub id : String
  pub invite_code : String
  pub status : SessionStatus
  pub visibility : SessionVisibility
  pub game_mode : GameMode
  pub ranked : Bool
  pub member_count : ℕ
  pub max_players : ℕ
  pub host : HostSummary
  pub created_at : ℤ

-- Its class extends that of the summary.
pub record SessionDetail : Type 0 where
  pub summary : SessionSummary
  pub members : List SessionMemberResponse
  pub your_role : Option MemberRole

-- `next(…, session.members[0])`, whose default is read first.
unfoldable pub host_member : List SessionMember → String → Result SessionMember
host_member [] host_user_id = err index_error
host_member (first ∷ members) host_user_id = elim (find_member (first ∷ members) host_user_id) [
  | none ↦ ok first
  | some member ↦ ok member
]

abbrev host_summary : SessionMember → HostSummary
host_summary m = record {
  id = m.user_id;
  display_name = m.display_name;
  rating = m.rating;
  calibration_complete = m.calibration_complete;
}

unfoldable pub to_summary : Session → Result SessionSummary
unfolding host_member
to_summary session = do
  member ← host_member session.members session.host_user_id
  ok (record {
    id = session.id;
    invite_code = session.invite_code;
    status = session.status;
    visibility = session.visibility;
    game_mode = session.game_mode;
    ranked = session.ranked;
    member_count = member_count session;
    max_players = max_players session;
    host = host_summary member;
    created_at = session.created_at;
  })

unfoldable pub member_response : SessionMember → SessionMemberResponse
member_response m = record {
  user_id = m.user_id;
  display_name = m.display_name;
  role = m.role;
  joined_at = m.joined_at;
  rating = m.rating;
  calibration_complete = m.calibration_complete;
}

-- `session.get_member(user_id) if user_id else None`
unfoldable pub viewer_member : Session → Option String → Option SessionMember
viewer_member session none = none
viewer_member session (some user_id) =
    if str_eq user_id "" then none else get_member session user_id

unfoldable pub to_detail : Session → Option String → Result SessionDetail
to_detail session user_id = do
  summary ← to_summary session
  ok (record {
    summary = summary;
    members = map member_response session.members;
    your_role = Option.map (λ (m : SessionMember). m.role) (viewer_member session user_id);
  })

unfoldable pub to_summaries : List Session → Result (List SessionSummary)
to_summaries [] = ok []
to_summaries (session ∷ sessions) = do
  summary ← to_summary session
  summaries ← to_summaries sessions
  ok (summary ∷ summaries)
