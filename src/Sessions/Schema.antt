-- ===== src/Sessions/Schema.antt =====
-- src/domain/session/schemas.py: a session, its members, and what is asked of them.
use monopoly_be.Prelude.{
  ℕ, Bool, true, false, String, str_eq, Option, none, some, List, [], ◌∷◌, any, leb, length,
  if◌then◌else◌, ℤ,
}
use monopoly_be.Schema.{GameMode}
use monopoly_be.Board.{get_game_config}

pub data SessionStatus : Type 0 where
  waiting in_progress finished : SessionStatus

pub data SessionVisibility : Type 0 where
  open_to_all by_invitation : SessionVisibility

pub data MemberRole : Type 0 where
  host player : MemberRole

pub record SessionMember : Type 0 where
  pub user_id : String
  pub display_name : String
  pub role : MemberRole
  pub joined_at : ℤ
  pub rating : ℤ
  pub calibration_complete : Bool

pub record Session : Type 0 where
  pub id : String
  pub invite_code : String
  pub host_user_id : String
  pub status : SessionStatus
  pub visibility : SessionVisibility
  pub game_mode : GameMode
  pub ranked : Bool
  pub members : List SessionMember
  pub created_at : ℤ
  pub updated_at : ℤ

-- `==` on the enumerations
abbrev pub is_waiting : SessionStatus → Bool
is_waiting SessionStatus.waiting = true
is_waiting _ = false

abbrev pub status_eq : SessionStatus → SessionStatus → Bool
status_eq SessionStatus.waiting SessionStatus.waiting = true
status_eq SessionStatus.in_progress SessionStatus.in_progress = true
status_eq SessionStatus.finished SessionStatus.finished = true
status_eq _ _ = false

abbrev pub is_open : SessionVisibility → Bool
is_open SessionVisibility.open_to_all = true
is_open SessionVisibility.by_invitation = false

abbrev pub is_host_role : MemberRole → Bool
is_host_role MemberRole.host = true
is_host_role MemberRole.player = false

-- `member.user_id == user_id`
abbrev pub is_user : String → SessionMember → Bool
is_user user_id member = str_eq member.user_id user_id

abbrev pub has_user : List SessionMember → String → Bool
has_user members user_id = any (is_user user_id) members

unfoldable pub has_member : Session → String → Bool
has_member session user_id = has_user session.members user_id

unfoldable pub member_count : Session → ℕ
member_count session = length session.members

unfoldable pub max_players : Session → ℕ
max_players session = (get_game_config session.game_mode).max_players

unfoldable pub is_full : Session → Bool
unfolding member_count max_players
is_full session = leb (max_players session) (member_count session)

unfoldable pub find_member : List SessionMember → String → Option SessionMember
find_member [] user_id = none
find_member (member ∷ members) user_id =
    if is_user user_id member then some member else find_member members user_id

unfoldable pub get_member : Session → String → Option SessionMember
unfolding find_member
get_member session user_id = find_member session.members user_id

abbrev pub is_host_member : Option SessionMember → Bool
is_host_member none = false
is_host_member (some member) = is_host_role member.role

unfoldable pub is_host : Session → String → Bool
is_host session user_id = is_host_member (get_member session user_id)
