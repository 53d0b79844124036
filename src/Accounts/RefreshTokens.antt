-- ===== src/Accounts/RefreshTokens.antt =====
-- src/infra/mongo/refresh_tokens/repository.py. `Tokens` is what it calls of the collection, a parameter;
-- `IsTokens` is what MongoDB documents of the calls. That the database purges old tokens is left out.
use monopoly_be.Prelude.{
  String, str_eq, Bool, not, any, Option, none, some, List, ◌∷◌, ◌++◌, [], filterb, if◌then◌else◌,
  ℤ, ltb_ℤ, ok, err, duplicate_key, ◌≡◌, ◌&&◌,
}
use monopoly_be.Store.{Step, find_first, remove_first}

-- `_id` is the hash.
pub record RefreshToken : Type 0 where
  pub token_hash : String
  pub user_id : String
  pub expires_at : ℤ
  pub created_at : ℤ

pub record Tokens : Type 1 where
  pub State : Type 0
  pub insert_one : RefreshToken → State → Bool × State
  pub find_one_and_delete : (RefreshToken → Bool) → State → Option RefreshToken × State
  pub delete_one : (RefreshToken → Bool) → State → State
  pub delete_many : (RefreshToken → Bool) → State → State

abbrev pub same_hash : RefreshToken → RefreshToken → Bool
same_hash d e = str_eq e.token_hash d.token_hash

pub record IsTokens (T : Tokens) : Type 1 where
  pub documents : T.State → List RefreshToken
  pub insert_one_reply :
      (d : RefreshToken) (s : T.State)
      → (T.insert_one d s).0 ≡ not (any (same_hash d) (documents s))
  pub insert_one_documents :
      (d : RefreshToken) (s : T.State)
      → documents (T.insert_one d s).1
        ≡ (if any (same_hash d) (documents s) then documents s else documents s ++ (d ∷ []))
  pub find_one_and_delete_reply :
      (query : RefreshToken → Bool) (s : T.State)
      → (T.find_one_and_delete query s).0 ≡ find_first query (documents s)
  pub find_one_and_delete_documents :
      (query : RefreshToken → Bool) (s : T.State)
      → documents (T.find_one_and_delete query s).1 ≡ remove_first query (documents s)
  pub delete_one_documents :
      (query : RefreshToken → Bool) (s : T.State)
      → documents (T.delete_one query s) ≡ remove_first query (documents s)
  pub delete_many_documents :
      (query : RefreshToken → Bool) (s : T.State)
      → documents (T.delete_many query s) ≡ filterb (λ d. not (query d)) (documents s)

-- The query of `consume`.
unfoldable pub is_usable : String → ℤ → RefreshToken → Bool
is_usable token_hash now d = str_eq d.token_hash token_hash && ltb_ℤ now d.expires_at

abbrev pub owner : Option RefreshToken → Option String
owner none = none
owner (some d) = some d.user_id

module _ (T : Tokens) where
  unfoldable pub insert_token : String → String → ℤ → ℤ → Step T.State (Unit {0})
  insert_token token_hash user_id expires_at now s =
      let inserted =
        T.insert_one
          (record {
            token_hash = token_hash;
            user_id = user_id;
            expires_at = expires_at;
            created_at = now;
          })
          s in
      (if inserted.0 then ok tt else err duplicate_key, inserted.1)

  unfoldable pub consume : String → ℤ → T.State → Option String × T.State
  consume token_hash now s =
      let consumed = T.find_one_and_delete (is_usable token_hash now) s in
      (owner consumed.0, consumed.1)

  unfoldable pub revoke : String → T.State → T.State
  revoke token_hash s = T.delete_one (λ d. str_eq d.token_hash token_hash) s

  unfoldable pub revoke_all_for_user : String → T.State → T.State
  revoke_all_for_user user_id s = T.delete_many (λ d. str_eq d.user_id user_id) s
