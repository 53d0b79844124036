-- ===== src/Sessions/Mapper.antt =====
-- src/infra/mongo/sessions/document.py and mapper.py: a session as a document, and the document as
-- the dictionary that the database keeps.
use monopoly_be.Prelude.{
  Bool, true, false, String, str_eq, List, [], ◌∷◌, map, if◌then◌else◌, ℤ, pos, Result, ok, err,
  value_error, ◌>>=◌,
}
use monopoly_be.Payload.{
  Scalar, text, number, flag, moment, Row, Field, scalar, rows, Payload, Conversions, item, item_or,
  truth, rename,
}
use monopoly_be.Schema.{GameMode}
use monopoly_be.Sessions.Schema.{
  SessionStatus, SessionVisibility, MemberRole, SessionMember, Session,
}

pub record SessionMemberDocument : Type 0 where
  pub user_id : String
  pub display_name : String
  pub role : MemberRole
  pub joined_at : ℤ
  pub rating : ℤ
  pub calibration_complete : Bool

pub record SessionDocument : Type 0 where
  pub id : String
  pub invite_code : String
  pub host_user_id : String
  pub status : SessionStatus
  pub visibility : SessionVisibility
  pub game_mode : GameMode
  pub ranked : Bool
  pub members : List SessionMemberDocument
  pub created_at : ℤ
  pub updated_at : ℤ

unfoldable pub member_to_domain : SessionMemberDocument → SessionMember
member_to_domain m = record {
  user_id = m.user_id;
  display_name = m.display_name;
  role = m.role;
  joined_at = m.joined_at;
  rating = m.rating;
  calibration_complete = m.calibration_complete;
}

unfoldable pub to_domain : SessionDocument → Session
to_domain doc = record {
  id = doc.id;
  invite_code = doc.invite_code;
  host_user_id = doc.host_user_id;
  status = doc.status;
  visibility = doc.visibility;
  game_mode = doc.game_mode;
  ranked = doc.ranked;
  members = map member_to_domain doc.members;
  created_at = doc.created_at;
  updated_at = doc.updated_at;
}

-- `to_document` without the optional arguments: `new_id` is `str(uuid4())` and `now` the clock.
unfoldable pub to_document :
    String
    → ℤ
    → (invite_code host_user_id : String) → SessionStatus
    → SessionVisibility
    → GameMode
    → (ranked : Bool) → List SessionMemberDocument
    → SessionDocument
to_document new_id now invite_code host_user_id status visibility game_mode ranked members =
    record {
      id = new_id;
      invite_code = invite_code;
      host_user_id = host_user_id;
      status = status;
      visibility = visibility;
      game_mode = game_mode;
      ranked = ranked;
      members = members;
      created_at = now;
      updated_at = now;
    }

-- `.value` of each enumeration, and the member that pydantic makes of a value.
unfoldable pub status_value : SessionStatus → String
status_value SessionStatus.waiting = "waiting"
status_value SessionStatus.in_progress = "in_progress"
status_value SessionStatus.finished = "finished"

unfoldable pub status_of_value : Scalar → Result SessionStatus
status_of_value (text s) =
    if str_eq s "waiting"
    then ok SessionStatus.waiting
    else if str_eq s "in_progress"
    then ok SessionStatus.in_progress
    else if str_eq s "finished"
    then ok SessionStatus.finished
    else err value_error
status_of_value _ = err value_error

unfoldable pub visibility_value : SessionVisibility → String
visibility_value SessionVisibility.open_to_all = "public"
visibility_value SessionVisibility.by_invitation = "private"

unfoldable pub visibility_of_value : Scalar → Result SessionVisibility
visibility_of_value (text s) =
    if str_eq s "public"
    then ok SessionVisibility.open_to_all
    else if str_eq s "private"
    then ok SessionVisibility.by_invitation
    else err value_error
visibility_of_value _ = err value_error

unfoldable pub role_value : MemberRole → String
role_value MemberRole.host = "host"
role_value MemberRole.player = "player"

unfoldable pub role_of_value : Scalar → Result MemberRole
role_of_value (text s) =
    if str_eq s "host"
    then ok MemberRole.host
    else if str_eq s "player"
    then ok MemberRole.player
    else err value_error
role_of_value _ = err value_error

unfoldable pub mode_value : GameMode → String
mode_value GameMode.normal = "normal"
mode_value GameMode.duel = "duel"

unfoldable pub mode_of_value : Scalar → Result GameMode
mode_of_value (text s) =
    if str_eq s "normal"
    then ok GameMode.normal
    else if str_eq s "duel"
    then ok GameMode.duel
    else err value_error
mode_of_value _ = err value_error

-- `model_dump()` of a member and of a session.
unfoldable pub dump_member : SessionMemberDocument → Row
dump_member m =
    ("user_id", text m.user_id)
    ∷ ("display_name", text m.display_name)
    ∷ ("role", text (role_value m.role))
    ∷ ("joined_at", moment m.joined_at)
    ∷ ("rating", number m.rating)
    ∷ ("calibration_complete", flag m.calibration_complete)
    ∷ []

unfoldable pub dump : SessionDocument → Payload
dump doc =
    ("id", scalar (text doc.id))
    ∷ ("invite_code", scalar (text doc.invite_code))
    ∷ ("host_user_id", scalar (text doc.host_user_id))
    ∷ ("status", scalar (text (status_value doc.status)))
    ∷ ("visibility", scalar (text (visibility_value doc.visibility)))
    ∷ ("game_mode", scalar (text (mode_value doc.game_mode)))
    ∷ ("ranked", scalar (flag doc.ranked))
    ∷ ("members", rows (map dump_member doc.members))
    ∷ ("created_at", scalar (moment doc.created_at))
    ∷ ("updated_at", scalar (moment doc.updated_at))
    ∷ []

unfoldable pub document_to_mongo : SessionDocument → Payload
document_to_mongo doc = rename "id" "_id" (dump doc)

-- The comprehension of `document_from_mongo`, at one member.
unfoldable pub member_from_mongo : Conversions → Row → Result SessionMemberDocument
member_from_mongo C m = do
  user_id ← item m "user_id"
  display_name ← item m "display_name"
  role ← item m "role"
  joined_at ← item m "joined_at"
  rating ← C.int (item_or m "rating" (number (pos 800)))
  parsed_role ← role_of_value role
  parsed_joined_at ← C.datetime joined_at
  ok (record {
    user_id = C.str user_id;
    display_name = C.str display_name;
    role = parsed_role;
    joined_at = parsed_joined_at;
    rating = rating;
    calibration_complete = truth (item_or m "calibration_complete" (flag false));
  })

unfoldable pub members_from_mongo : Conversions → List Row → Result (List SessionMemberDocument)
members_from_mongo C [] = ok []
members_from_mongo C (m ∷ raw) = do
  member ← member_from_mongo C m
  members ← members_from_mongo C raw
  ok (member ∷ members)

-- What stands at a key where a list of rows, or a scalar, is expected; pydantic refuses another.
unfoldable pub rows_at : Payload → String → Result (List Row)
rows_at raw key = elim (item_or raw key (rows [])) [ rows rs ↦ ok rs | scalar s ↦ err value_error ]

unfoldable pub scalar_of : Field → Result Scalar
scalar_of (scalar s) = ok s
scalar_of (rows rs) = err value_error

unfoldable pub scalar_at : Payload → String → Result Scalar
scalar_at raw key = item raw key >>= scalar_of

unfoldable pub document_from_mongo : Conversions → Payload → Result SessionDocument
document_from_mongo C raw = do
  members_raw ← rows_at raw "members"
  members ← members_from_mongo C members_raw
  id ← scalar_at raw "_id"
  invite_code ← scalar_at raw "invite_code"
  host_user_id ← scalar_at raw "host_user_id"
  status ← scalar_at raw "status"
  visibility ← scalar_at raw "visibility"
  game_mode ← scalar_of (item_or raw "game_mode" (scalar (text (mode_value GameMode.normal))))
  ranked ← scalar_of (item_or raw "ranked" (scalar (flag true)))
  created_at ← scalar_at raw "created_at"
  updated_at ← scalar_at raw "updated_at"
  parsed_status ← status_of_value status
  parsed_visibility ← visibility_of_value visibility
  parsed_mode ← mode_of_value game_mode
  parsed_created_at ← C.datetime created_at
  parsed_updated_at ← C.datetime updated_at
  ok (record {
    id = C.str id;
    invite_code = C.str invite_code;
    host_user_id = C.str host_user_id;
    status = parsed_status;
    visibility = parsed_visibility;
    game_mode = parsed_mode;
    ranked = truth ranked;
    members = members;
    created_at = parsed_created_at;
    updated_at = parsed_updated_at;
  })
