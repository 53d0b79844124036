-- ===== src/Users/Roundtrip.antt =====
-- src/infra/mongo/users/mapper.py: what is written is read back, and what was written before ratings
-- existed is read with the ratings of a new user.
use monopoly_be.Prelude.{◌≡◌, [], ◌∷◌, pos, ok}
use monopoly_be.Payload.{text, moment, Row, Conversions, IsConversions}
use monopoly_be.Users.{
  UserDocument, initial_rating, to_document, dump, document_to_mongo, document_from_mongo,
}

-- The dictionary of a user from before the rating feature.
abbrev pub before_ratings : UserDocument → Row
before_ratings doc =
    ("_id", text doc.id)
    ∷ ("email", text doc.email)
    ∷ ("display_name", text doc.display_name)
    ∷ ("password_hash", text doc.password_hash)
    ∷ ("created_at", moment doc.created_at)
    ∷ []

-- A user document is read back from the dictionary it is written as, and a dictionary without the
-- three fields of the ratings is read as the document of a user who has just registered, where `str`,
-- `int` and the datetime keep a value of their own type.
pub document_from_mongo-document_to_mongo_user :
    (C : Conversions)
    → IsConversions C
    → (doc : UserDocument)
    → (document_from_mongo C (document_to_mongo doc) ≡ ok doc)
      × (document_from_mongo C (before_ratings doc)
          ≡ ok (to_document doc.id doc.created_at doc.email doc.display_name doc.password_hash))
unfolding document_from_mongo document_to_mongo dump to_document
document_from_mongo-document_to_mongo_user C law doc = (
  rw (
    law.int_number doc.rating,
    law.int_number doc.games_played,
    law.datetime_moment doc.created_at,
    law.str_text doc.id,
    law.str_text doc.email,
    law.str_text doc.display_name,
    law.str_text doc.password_hash,
  ),
  rw (
    law.int_number initial_rating,
    law.int_number (pos 0),
    law.datetime_moment doc.created_at,
    law.str_text doc.id,
    law.str_text doc.email,
    law.str_text doc.display_name,
    law.str_text doc.password_hash,
  ),
)
