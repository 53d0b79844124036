-- ===== src/Accounts/Security.antt =====
-- src/core/security.py. bcrypt, hashlib and PyJWT are a parameter, `Crypto`; what `secrets` hands out comes
-- with each call.
use monopoly_be.Prelude.{
  String, str_eq, Bool, Option, none, some, if◌then◌else◌, ℕ, ◌*◌, ℤ, pos, ◌+ℤ◌, Result, ok, err,
  app_error, AppError,
}

-- What core/config.py sets for the tokens.
pub record Settings : Type 0 where
  pub jwt_expire_minutes : ℕ
  pub refresh_token_expire_days : ℕ

-- `encode` signs a subject and the time it expires; `decode` is `none` where it raises a `PyJWTError`, and
-- otherwise the subject, where it is a text.
pub record Crypto : Type 0 where
  pub hashpw : (plain salt : String) → String
  pub checkpw : (plain hashed : String) → Bool
  pub sha256 : String → String
  pub encode : (sub : String) → (exp : ℤ) → String
  pub decode : (token : String) → (now : ℤ) → Option (Option String)

module _ (K : Crypto) where
  unfoldable pub hash_password : (plain salt : String) → String
  hash_password plain salt = K.hashpw plain salt

  unfoldable pub verify_password : (plain hashed : String) → Bool
  verify_password plain hashed = K.checkpw plain hashed

  unfoldable pub hash_refresh_token : String → String
  hash_refresh_token token = K.sha256 token

  unfoldable pub create_access_token : String → Settings → ℤ → String
  create_access_token user_id settings now =
      K.encode user_id (now +ℤ pos (settings.jwt_expire_minutes * 60000))

  -- `if not isinstance(user_id, str) or not user_id`
  unfoldable pub subject_of : Option String → Result String
  subject_of none = err (app_error AppError.unauthorized)
  subject_of (some user_id) =
      if str_eq user_id "" then err (app_error AppError.unauthorized) else ok user_id

  unfoldable pub decode_access_token : String → ℤ → Result String
  decode_access_token token now = elim (K.decode token now) [
    | none ↦ err (app_error AppError.unauthorized)
    | some sub ↦ subject_of sub
  ]
