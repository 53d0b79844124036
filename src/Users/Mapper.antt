-- ===== src/Users/Mapper.antt =====
-- src/infra/mongo/users/document.py and mapper.py: a user as a document and as a dictionary.
use monopoly_be.Prelude.{String, Bool, false, [], ◌∷◌, ℤ, pos, Result, ok, ◌>>=◌}
use monopoly_be.Payload.{text, number, flag, moment, Row, Conversions, item, item_or, truth, rename}
use monopoly_be.Users.Schema.{User}

-- domain/rating/constants.py
abbrev pub initial_rating : ℤ
initial_rating = pos 800

pub record UserDocument : Type 0 where
  pub id : String
  pub email : String
  pub display_name : String
  pub password_hash : String
  pub created_at : ℤ
  pub rating : ℤ
  pub games_played : ℤ
  pub calibration_complete : Bool

unfoldable pub to_domain : UserDocument → User
to_domain doc = record {
  id = doc.id;
  email = doc.email;
  display_name = doc.display_name;
  created_at = doc.created_at;
  rating = doc.rating;
  games_played = doc.games_played;
  calibration_complete = doc.calibration_complete;
}

-- `to_document` without the optional arguments: `new_id` is `str(uuid4())` and `now` the clock.
unfoldable pub to_document : String → ℤ → (email display_name password_hash : String) → UserDocument
to_document new_id now email display_name password_hash = record {
  id = new_id;
  email = email;
  display_name = display_name;
  password_hash = password_hash;
  created_at = now;
  rating = initial_rating;
  games_played = pos 0;
  calibration_complete = false;
}

-- `model_dump()`
unfoldable pub dump : UserDocument → Row
dump doc =
    ("id", text doc.id)
    ∷ ("email", text doc.email)
    ∷ ("display_name", text doc.display_name)
    ∷ ("password_hash", text doc.password_hash)
    ∷ ("created_at", moment doc.created_at)
    ∷ ("rating", number doc.rating)
    ∷ ("games_played", number doc.games_played)
    ∷ ("calibration_complete", flag doc.calibration_complete)
    ∷ []

unfoldable pub document_to_mongo : UserDocument → Row
document_to_mongo doc = rename "id" "_id" (dump doc)

unfoldable pub document_from_mongo : Conversions → Row → Result UserDocument
document_from_mongo C raw = do
  id ← item raw "_id"
  email ← item raw "email"
  display_name ← item raw "display_name"
  password_hash ← item raw "password_hash"
  created_at ← item raw "created_at"
  rating ← C.int (item_or raw "rating" (number initial_rating))
  games_played ← C.int (item_or raw "games_played" (number (pos 0)))
  parsed_created_at ← C.datetime created_at
  ok (record {
    id = C.str id;
    email = C.str email;
    display_name = C.str display_name;
    password_hash = C.str password_hash;
    created_at = parsed_created_at;
    rating = rating;
    games_played = games_played;
    calibration_complete = truth (item_or raw "calibration_complete" (flag false));
  })
