-- ===== src/Users/Schema.antt =====
-- src/domain/user/schemas.py: a user as the services see one.
use monopoly_be.Prelude.{Bool, String, ℤ}

pub record User : Type 0 where
  pub id : String
  pub email : String
  pub display_name : String
  pub created_at : ℤ
  pub rating : ℤ
  pub games_played : ℤ
  pub calibration_complete : Bool
