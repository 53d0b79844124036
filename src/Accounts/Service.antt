-- ===== src/Accounts/Service.antt =====
-- src/application/services/user_service.py, with the messages of protocol/rest/auth.py and leaderboard.py.
use monopoly_be.Prelude.{
  String, Bool, Option, none, some, List, [], ◌∷◌, if◌then◌else◌, ℕ, ◌+◌, ◌*◌, ℤ, pos, ◌+ℤ◌, Result,
  ok, err, app_error, AppError,
}
use monopoly_be.Store.{Collection}
use monopoly_be.Users.{
  User, UserDocument, find_user_by_id, find_password_hash_by_email, create_user, top_by_rating,
}
use monopoly_be.Accounts.RefreshTokens.{Tokens, insert_token, consume, revoke}
use monopoly_be.Accounts.Security.{
  Settings, Crypto, hash_password, verify_password, hash_refresh_token, create_access_token,
}

pub record UserPublic : Type 0 where
  pub id : String
  pub email : String
  pub display_name : String
  pub created_at : ℤ
  pub rating : ℤ
  pub games_played : ℤ
  pub calibration_complete : Bool

pub record TokenResponse : Type 0 where
  pub access_token : String
  pub expires_in : ℕ
  pub refresh_token : String
  pub refresh_expires_in : ℕ

pub record AuthResponse : Type 0 where
  pub user : UserPublic
  pub token : TokenResponse

pub record LeaderboardEntry : Type 0 where
  pub rank : ℕ
  pub user_id : String
  pub display_name : String
  pub rating : ℤ
  pub games_played : ℤ
  pub calibration_complete : Bool

unfoldable pub to_public : User → UserPublic
to_public user = record {
  id = user.id;
  email = user.email;
  display_name = user.display_name;
  created_at = user.created_at;
  rating = user.rating;
  games_played = user.games_played;
  calibration_complete = user.calibration_complete;
}

-- The entries from a rank on.
unfoldable pub ranked_from : ℕ → List User → List LeaderboardEntry
ranked_from rank [] = []
ranked_from rank (user ∷ users) =
    record {
      rank = rank;
      user_id = user.id;
      display_name = user.display_name;
      rating = user.rating;
      games_played = user.games_played;
      calibration_complete = user.calibration_complete;
    }
    ∷ ranked_from (rank + 1) users

-- The clock, and what `secrets`, `gensalt` and the ids of new users hand out in a call.
pub record Drawn : Type 0 where
  pub now : ℤ
  pub new_id : String
  pub salt : String
  pub raw_refresh : String

module _ (U : Collection UserDocument) (lower : String → String) (T : Tokens) (K : Crypto)
    (settings : Settings) where
  -- The stores of the users and of the tokens.
  abbrev pub Accounts : Type 0
  Accounts = U.State × T.State

  unfoldable pub leaderboard : ℕ → ℕ → U.State → List LeaderboardEntry
  leaderboard limit offset users =
      ranked_from (offset + 1) (top_by_rating U lower limit offset users)

  unfoldable pub token_response : String → Drawn → TokenResponse
  token_response user_id d = record {
    access_token = create_access_token K user_id settings d.now;
    expires_in = settings.jwt_expire_minutes * 60;
    refresh_token = d.raw_refresh;
    refresh_expires_in = settings.refresh_token_expire_days * 86400;
  }

  -- The store of the tokens after `insert`.
  unfoldable pub issue_tokens : String → Drawn → T.State → Result TokenResponse × T.State
  issue_tokens user_id d tokens =
      let inserted =
        insert_token T (hash_refresh_token K d.raw_refresh) user_id
          (d.now +ℤ pos (settings.refresh_token_expire_days * 86400000)) d.now tokens in
      (elim inserted.0 [ err e ↦ err e | ok u ↦ ok (token_response user_id d) ], inserted.1)

  -- The answer with the tokens that are issued to a user.
  unfoldable pub authenticated : User → Drawn → Accounts → Result AuthResponse × Accounts
  authenticated user d (users, tokens) =
      let issued = issue_tokens user.id d tokens in
      (
        elim issued.0 [
          | err e ↦ err e
          | ok token ↦ ok (record { user = to_public user; token = token })
        ],
        (users, issued.1),
      )

  unfoldable pub register :
      (email password display_name : String) → Drawn → Accounts → Result AuthResponse × Accounts
  register email password display_name d (users, tokens) =
      let created =
        create_user U lower d.new_id d.now email display_name (hash_password K password d.salt)
          users in
      elim created.0 [
        | err e ↦ (err e, (created.1, tokens))
        | ok user ↦ authenticated user d (created.1, tokens)
      ]

  unfoldable pub login :
      (email password : String) → Drawn → Accounts → Result AuthResponse × Accounts
  login email password d (users, tokens) = elim (find_password_hash_by_email U lower email users) [
    | none ↦ (err (app_error AppError.invalid_credentials), (users, tokens))
    | some (user, password_hash) ↦
        if verify_password K password password_hash
        then authenticated user d (users, tokens)
        else (err (app_error AppError.invalid_credentials), (users, tokens))
  ]

  -- What follows once the old token is consumed.
  unfoldable pub refresh_for : Option String → Drawn → Accounts → Result AuthResponse × Accounts
  refresh_for none d accounts = (err (app_error AppError.unauthorized), accounts)
  refresh_for (some user_id) d accounts = elim (find_user_by_id U lower user_id accounts.0) [
    | none ↦ (err (app_error AppError.unauthorized), accounts)
    | some user ↦ authenticated user d accounts
  ]

  unfoldable pub refresh : String → Drawn → Accounts → Result AuthResponse × Accounts
  refresh refresh_token d (users, tokens) =
      let consumed = consume T (hash_refresh_token K refresh_token) d.now tokens in
      refresh_for consumed.0 d (users, consumed.1)

  unfoldable pub logout : String → Accounts → Accounts
  logout refresh_token (users, tokens) =
      (users, revoke T (hash_refresh_token K refresh_token) tokens)

  unfoldable pub get_me : String → U.State → Result UserPublic
  get_me user_id users = elim (find_user_by_id U lower user_id users) [
    | none ↦ err (app_error (AppError.not_found "User not found"))
    | some user ↦ ok (to_public user)
  ]
