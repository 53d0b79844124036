-- ===== src/Sessions/Service.antt =====
-- src/application/services/session_service.py: `SessionService`.
use monopoly_be.Prelude.{
  runtime_error, Error, str_eq, ℕ, String, AppError, app_error, take, zero, suc, ◌+◌, Bool, not,
  ◌&&◌, Option, none, some, List, [], ◌∷◌, ltb, if◌then◌else◌, length, ℤ, ltb_ℤ, Result, ok, err,
  raise_if, or_raise,
}
use monopoly_be.Schema.{GameMode}
use monopoly_be.Users.{User}
use monopoly_be.Store.{Collection, Step, give, lift, reading, ◌>>=◌, ◌>>◌}
use monopoly_be.Sessions.Schema.{
  SessionStatus, SessionVisibility, MemberRole, SessionMember, Session, is_waiting, is_open,
  has_member, max_players, is_full, is_host,
}
use monopoly_be.Sessions.Mapper.{SessionMemberDocument, SessionDocument, to_document, status_value}
use monopoly_be.Sessions.Repository.{
  insert, find_by_id, find_by_invite_code, delete, list_public_waiting, add_member, remove_member,
  update_host_and_member_role, set_status,
}

-- core/constants.py
abbrev pub session_invite_code_max_retries : ℕ
session_invite_code_max_retries = 5

-- The errors that the service raises.
abbrev session_not_found : Error
session_not_found = app_error AppError.session_not_found

abbrev not_member : String → String → Error
not_member session_id user_id = app_error (AppError.not_member session_id user_id)

abbrev not_joinable : String → SessionStatus → Error
not_joinable session_id status =
    app_error (AppError.session_not_joinable session_id (status_value status))

abbrev pub user_not_found : Error
user_not_found = app_error (AppError.not_found "User not found")

-- The document of a member who comes in now.
unfoldable pub new_member : User → MemberRole → ℤ → SessionMemberDocument
new_member user role now = record {
  user_id = user.id;
  display_name = user.display_name;
  role = role;
  joined_at = now;
  rating = user.rating;
  calibration_complete = user.calibration_complete;
}

-- `min(members, key=lambda m: m.joined_at)`: the first of the earliest.
unfoldable pub earliest : SessionMember → List SessionMember → SessionMember
earliest m [] = m
earliest m (n ∷ members) = earliest (if ltb_ℤ n.joined_at m.joined_at then n else m) members

-- `generate_invite_code()` and `str(uuid4())` in each round of the loop of `create`.
pub record Draws : Type 0 where
  pub code : ℕ → String
  pub session_id : ℕ → String

-- `leave` returns the session with its new host, or the one before where that is gone.
abbrev pub give_or : {S : Type 0} → Session → Option Session → Step S (Option Session)
give_or updated none = give (some updated)
give_or updated (some rehosted_session) = give (some rehosted_session)

-- Where a list of sessions goes on: the creation and the id of the last one shown.
abbrev cursor_of : List Session → Option (ℤ × String)
cursor_of [] = none
cursor_of (s ∷ []) = some (s.created_at, s.id)
cursor_of (s ∷ t ∷ sessions) = cursor_of (t ∷ sessions)

module _ (C : Collection SessionDocument) (find_user : String → Option User)
    (normalize_invite_code : String → String) where
  unfoldable pub get_session_or_404 : String → Step C.State Session
  get_session_or_404 session_id s = (or_raise (find_by_id C session_id s) session_not_found, s)

  unfoldable pub create_rounds :
      ℕ → ℕ → Draws → (Draws → ℕ → SessionDocument) → Step C.State Session
  create_rounds zero n draws doc =
      lift (err (runtime_error "Failed to generate unique invite code"))
  create_rounds (suc left) n draws doc = insert C (doc draws n) >>= λ (inserted : Option Session).
      elim inserted [ none ↦ create_rounds left (n + 1) draws doc | some session ↦ give session ]

  unfoldable pub create :
      String → SessionVisibility → (ranked : Bool) → GameMode → Draws → ℤ → Step C.State Session
  create user_id visibility ranked game_mode draws now = do
    user ← lift (or_raise (find_user user_id) user_not_found)
    create_rounds session_invite_code_max_retries 0 draws λ d n.
        to_document (d.session_id n) now (d.code n) user.id SessionStatus.waiting visibility
          game_mode ranked (new_member user MemberRole.host now ∷ [])

  -- The sessions of one page, and where the next page starts if there is one. The cursor's text,
  -- `_encode_cursor` and `_decode_cursor`, is the pair that it stands for.
  unfoldable pub list_public_lobby :
      ℕ → Option (ℤ × String) → C.State → List Session × Option (ℤ × String)
  list_public_lobby limit cursor s =
      let sessions = list_public_waiting C (limit + 1) cursor s in
      if ltb limit (length sessions)
      then (take limit sessions, cursor_of (take limit sessions))
      else (sessions, none)

  unfoldable pub get : String → String → Step C.State Session
  get session_id user_id = do
    session ← get_session_or_404 session_id
    (if has_member session user_id
        then give session
        else if is_open session.visibility && is_waiting session.status
        then give session
        else lift (err (not_member session_id user_id)))

  unfoldable pub get_by_code : String → String → Step C.State Session
  get_by_code invite_code user_id = do
    found ← reading (find_by_invite_code C (normalize_invite_code invite_code))
    session ← lift (or_raise found session_not_found)
    (if has_member session user_id
        then give session
        else if is_waiting session.status
        then give session
        else lift (err (not_joinable session.id session.status)))

  -- The lines of `_join_session` after `add_member` has found nothing to update.
  unfoldable pub join_refused : Session → String → Step C.State Session
  join_refused session user_id = do
    found ← reading (find_by_id C session.id)
    current ← lift (or_raise found session_not_found)
    (if has_member current user_id
        then give current
        else if not (is_waiting current.status)
        then lift (err (not_joinable session.id current.status))
        else if is_full current
        then lift (err (app_error (AppError.session_full session.id)))
        else lift (err (not_joinable session.id current.status)))

  -- What `_join_session` does with the answer of `add_member`.
  unfoldable pub added_or_refused : Session → String → Option Session → Step C.State Session
  added_or_refused session user_id none = join_refused session user_id
  added_or_refused session user_id (some joined) = give joined

  unfoldable pub join_as : Session → String → ℤ → User → Step C.State Session
  join_as session user_id now user =
      add_member C session.id (new_member user MemberRole.player now) (max_players session) now
      >>= added_or_refused session user_id

  unfoldable pub join_session : Session → String → ℤ → Step C.State Session
  join_session session user_id now =
      if has_member session user_id
      then give session
      else if not (is_waiting session.status)
      then lift (err (not_joinable session.id session.status))
      else if is_full session
      then lift (err (app_error (AppError.session_full session.id)))
      else lift (or_raise (find_user user_id) user_not_found) >>= join_as session user_id now

  unfoldable pub join : String → String → ℤ → Step C.State Session
  join session_id user_id now = do
    session ← get_session_or_404 session_id
    join_session session user_id now

  unfoldable pub join_by_code : String → String → ℤ → Step C.State Session
  join_by_code invite_code user_id now = do
    found ← reading (find_by_invite_code C (normalize_invite_code invite_code))
    session ← lift (or_raise found session_not_found)
    join_session session user_id now

  -- The lines of `leave` after the member is removed, by the members that are left.
  unfoldable pub after_leave_of :
      String → String → Session → ℤ → List SessionMember → Step C.State (Option Session)
  after_leave_of session_id user_id updated now [] = delete C session_id >> give none
  after_leave_of session_id user_id updated now (m ∷ members) =
      if str_eq updated.host_user_id user_id
      then update_host_and_member_role C session_id (earliest m members).user_id now
        >>= give_or updated
      else give (some updated)

  unfoldable pub after_leave : String → String → ℤ → Session → Step C.State (Option Session)
  after_leave session_id user_id now updated =
      after_leave_of session_id user_id updated now updated.members

  unfoldable pub leave : String → String → ℤ → Step C.State (Option Session)
  leave session_id user_id now = do
    session ← get_session_or_404 session_id
    lift (raise_if (not (has_member session user_id)) (not_member session_id user_id))
    removed ← remove_member C session_id user_id now
    updated ← lift (or_raise removed session_not_found)
    after_leave session_id user_id now updated

  unfoldable pub kick_checks : Session → String → String → String → Result (Unit {0})
  kick_checks session session_id host_user_id target_user_id =
      if not (is_host session host_user_id)
      then err (app_error AppError.forbidden_host_action)
      else if str_eq host_user_id target_user_id
      then err (app_error AppError.cannot_kick_self)
      else if not (has_member session target_user_id)
      then err (not_member session_id target_user_id)
      else if not (is_waiting session.status)
      then err (not_joinable session_id session.status)
      else ok tt

  unfoldable pub kick : String → String → String → ℤ → Step C.State Session
  unfolding kick_checks
  kick session_id host_user_id target_user_id now = do
    session ← get_session_or_404 session_id
    lift (kick_checks session session_id host_user_id target_user_id)
    updated ← remove_member C session_id target_user_id now
    lift (or_raise updated session_not_found)

  unfoldable pub start : String → String → ℤ → Step C.State Session
  start session_id host_user_id now = do
    session ← get_session_or_404 session_id
    lift (raise_if (not (is_host session host_user_id)) (app_error AppError.forbidden_host_action))
    lift (raise_if (not (is_waiting session.status)) (not_joinable session_id session.status))
    updated ← set_status C session_id SessionStatus.in_progress (some SessionStatus.waiting) now
    lift (or_raise updated (not_joinable session_id session.status))

  unfoldable pub mark_finished : String → ℤ → Step C.State (Option Session)
  mark_finished session_id now =
      set_status C session_id SessionStatus.finished (some SessionStatus.in_progress) now

  unfoldable pub assert_member : String → String → Step C.State Session
  assert_member session_id user_id = do
    found ← reading (find_by_id C session_id)
    elim found [
      | none ↦ lift (err (not_member session_id user_id))
      | some session ↦
          if has_member session user_id
          then give session
          else lift (err (not_member session_id user_id))
    ]
