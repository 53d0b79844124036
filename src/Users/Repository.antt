-- ===== src/Users/Repository.antt =====
-- src/infra/mongo/users/repository.py: the calls of `UserRepository`. `lower` is Python's `str.lower`.
use monopoly_be.Prelude.{
  String, ℕ, str_eq, any, app_error, AppError, eqb_ℤ, take, zero, suc, Bool, ◌&&◌, ◌||◌, Option,
  none, some, List, [], ◌∷◌, map, if◌then◌else◌, ℤ, pos, leb_ℤ, ltb_ℤ, err,
}
use monopoly_be.Store.{Collection, Step, give, lift, calling, ◌>>=◌}
use monopoly_be.Users.Schema.{User}
use monopoly_be.Users.Mapper.{UserDocument, to_domain, to_document}
use mathlib.Core.Option

-- The unique keys: the id, and the e-mail by infra/mongo/indexes.py.
unfoldable pub user_conflicts : UserDocument → UserDocument → Bool
user_conflicts d e = str_eq d.id e.id || str_eq d.email e.email

abbrev pub has_user_id : String → UserDocument → Bool
has_user_id user_id doc = str_eq doc.id user_id

-- The `$set` of `update_rating`.
unfoldable pub put_rating : ℤ → ℤ → Bool → UserDocument → UserDocument
put_rating rating games_played calibration_complete doc = record doc {
  rating = rating;
  games_played = games_played;
  calibration_complete = calibration_complete;
}

-- `.sort([("rating", -1), ("games_played", -1)])`
unfoldable pub is_higher : UserDocument → UserDocument → Bool
is_higher d e =
    ltb_ℤ e.rating d.rating || (eqb_ℤ e.rating d.rating && ltb_ℤ e.games_played d.games_played)

unfoldable pub insert_highest : UserDocument → List UserDocument → List UserDocument
insert_highest d [] = d ∷ []
insert_highest d (e ∷ docs) = if is_higher e d then e ∷ insert_highest d docs else d ∷ e ∷ docs

unfoldable pub highest_first : List UserDocument → List UserDocument
highest_first [] = []
highest_first (d ∷ docs) = insert_highest d (highest_first docs)

-- `.skip(n)`
abbrev pub skip : ℕ → List UserDocument → List UserDocument
skip zero docs = docs
skip (suc n) [] = []
skip (suc n) (d ∷ docs) = skip n docs

-- `users[user_id]`, with `get` for a missing key
abbrev pub lookup_user : List User → String → Option User
lookup_user [] user_id = none
lookup_user (u ∷ users) user_id = if str_eq u.id user_id then some u else lookup_user users user_id

module _ (U : Collection UserDocument) (lower : String → String) where
  unfoldable pub find_by_email : String → U.State → Option User
  find_by_email email s =
      Option.map to_domain (U.find_one (λ doc. str_eq doc.email (lower email)) s)

  unfoldable pub find_user_by_id : String → U.State → Option User
  find_user_by_id user_id s = Option.map to_domain (U.find_one (has_user_id user_id) s)

  unfoldable pub find_password_hash_by_email : String → U.State → Option (User × String)
  find_password_hash_by_email email s =
      Option.map (λ (doc : UserDocument). (to_domain doc, doc.password_hash))
        (U.find_one (λ doc. str_eq doc.email (lower email)) s)

  unfoldable pub create_user :
      (new_id : String) → ℤ → (email display_name password_hash : String) → Step U.State User
  create_user new_id now email display_name password_hash =
      let doc = to_document new_id now (lower email) display_name password_hash in
      calling (U.insert_one doc) >>= λ (inserted : Bool).
      if inserted then give (to_domain doc) else lift (err (app_error AppError.duplicate_email))

  -- The dictionary from ids to users, as a list: an id is in it once.
  unfoldable pub find_by_ids : List String → U.State → List User
  find_by_ids [] s = []
  find_by_ids (i ∷ user_ids) s =
      map to_domain (U.find (λ doc. any (str_eq doc.id) (i ∷ user_ids)) s)

  unfoldable pub update_rating : String → ℤ → ℤ → Bool → U.State → U.State
  update_rating user_id rating games_played calibration_complete s =
      (U.find_one_and_update (has_user_id user_id)
        (put_rating rating games_played calibration_complete) s).1

  unfoldable pub top_by_rating : ℕ → ℕ → U.State → List User
  unfolding highest_first
  top_by_rating limit offset s =
      map to_domain (
        take limit (skip offset (highest_first (U.find (λ doc. leb_ℤ (pos 1) doc.games_played) s))))
