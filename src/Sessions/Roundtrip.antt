-- ===== src/Sessions/Roundtrip.antt =====
-- src/infra/mongo/sessions/mapper.py: what is written to the database is what is read back.
use monopoly_be.Prelude.{◌≡◌, refl, List, [], ◌∷◌, map, ok}
use monopoly_be.Payload.{Conversions, IsConversions, text}
use monopoly_be.Schema.{GameMode}
use monopoly_be.Sessions.{
  SessionStatus, SessionVisibility, MemberRole, SessionMemberDocument, SessionDocument,
  status_value, status_of_value, visibility_value, visibility_of_value, role_value, role_of_value,
  mode_value, mode_of_value, dump_member, dump, document_to_mongo, member_from_mongo,
  members_from_mongo, rows_at, scalar_of, scalar_at, document_from_mongo,
}

pub status_of_value-status_value :
    (s : SessionStatus) → status_of_value (text (status_value s)) ≡ ok s
unfolding status_of_value status_value
status_of_value-status_value SessionStatus.waiting = refl
status_of_value-status_value SessionStatus.in_progress = refl
status_of_value-status_value SessionStatus.finished = refl

pub visibility_of_value-visibility_value :
    (v : SessionVisibility) → visibility_of_value (text (visibility_value v)) ≡ ok v
unfolding visibility_of_value visibility_value
visibility_of_value-visibility_value SessionVisibility.open_to_all = refl
visibility_of_value-visibility_value SessionVisibility.by_invitation = refl

pub role_of_value-role_value : (r : MemberRole) → role_of_value (text (role_value r)) ≡ ok r
unfolding role_of_value role_value
role_of_value-role_value MemberRole.host = refl
role_of_value-role_value MemberRole.player = refl

pub mode_of_value-mode_value : (m : GameMode) → mode_of_value (text (mode_value m)) ≡ ok m
unfolding mode_of_value mode_value
mode_of_value-mode_value GameMode.normal = refl
mode_of_value-mode_value GameMode.duel = refl

pub member_from_mongo-dump_member :
    (C : Conversions)
    → IsConversions C
    → (m : SessionMemberDocument) → member_from_mongo C (dump_member m) ≡ ok m
unfolding member_from_mongo dump_member
member_from_mongo-dump_member C law m = rw (
  law.int_number m.rating,
  role_of_value-role_value m.role,
  law.datetime_moment m.joined_at,
  law.str_text m.user_id,
  law.str_text m.display_name,
)

pub members_from_mongo-map :
    (C : Conversions)
    → IsConversions C
    → (ms : List SessionMemberDocument) → members_from_mongo C (map dump_member ms) ≡ ok ms
unfolding members_from_mongo
members_from_mongo-map C law [] = refl
members_from_mongo-map C law (m ∷ ms) =
    rw (member_from_mongo-dump_member C law m, members_from_mongo-map C law ms)

-- Every session document is read back from the dictionary it is written as, with its members and
-- with all of their ratings, where `str`, `int` and the datetime keep a value of their own type.
pub document_from_mongo-document_to_mongo :
    (C : Conversions)
    → IsConversions C
    → (doc : SessionDocument) → document_from_mongo C (document_to_mongo doc) ≡ ok doc
unfolding document_from_mongo document_to_mongo dump rows_at scalar_at scalar_of
document_from_mongo-document_to_mongo C law doc = rw (
  members_from_mongo-map C law doc.members,
  status_of_value-status_value doc.status,
  visibility_of_value-visibility_value doc.visibility,
  mode_of_value-mode_value doc.game_mode,
  law.datetime_moment doc.created_at,
  law.datetime_moment doc.updated_at,
  law.str_text doc.id,
  law.str_text doc.invite_code,
  law.str_text doc.host_user_id,
)
