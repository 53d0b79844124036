-- ===== src/Tests/Accounts.antt =====
-- A user registers and refreshes a token, twice.
use monopoly_be.Prelude.{
  String, str_eq, ◌≡◌, refl, not, any, some, List, [], ◌∷◌, ◌++◌, filterb, if◌then◌else◌, ℤ, pos,
  Result, err, app_error, AppError,
}
use monopoly_be.Store.{find_first, remove_first, Collection}
use monopoly_be.Users.{UserDocument, user_conflicts, to_document, to_domain, find_user_by_id}
use monopoly_be.Accounts.{
  Tokens, IsTokens, same_hash, RefreshToken, Crypto, Settings, Drawn, AuthResponse, refresh,
  refresh_for, to_public, token_response, authenticated, issue_tokens, insert_token, consume,
  is_usable, hash_refresh_token,
}
use monopoly_be.Accounts.Rotation.{AccountRequest, login_user, served_all, refresh-once}
use monopoly_be.Tests.Stores.{listed}
use monopoly_be.Tests.Ratings.{user}

abbrev stored_tokens : Tokens
stored_tokens = record {
  State = List RefreshToken;
  insert_one = λ d docs.
      (not (any (same_hash d) docs), if any (same_hash d) docs then docs else docs ++ (d ∷ []));
  find_one_and_delete = λ query docs. (find_first query docs, remove_first query docs);
  delete_one = λ query docs. remove_first query docs;
  delete_many = λ query docs. filterb (λ d. not (query d)) docs;
}

abbrev stored_tokens-IsTokens : IsTokens stored_tokens
stored_tokens-IsTokens = record {
  documents = λ docs. docs;
  insert_one_reply = λ d docs. refl;
  insert_one_documents = λ d docs. refl;
  find_one_and_delete_reply = λ query docs. refl;
  find_one_and_delete_documents = λ query docs. refl;
  delete_one_documents = λ query docs. refl;
  delete_many_documents = λ query docs. refl;
}

-- Nothing is hidden here.
abbrev open_crypto : Crypto
open_crypto = record {
  hashpw = λ plain salt. plain;
  checkpw = λ plain hashed. str_eq plain hashed;
  sha256 = λ token. token;
  encode = λ sub exp. sub;
  decode = λ token now. some (some token);
}

abbrev settings : Settings
settings = record { jwt_expire_minutes = 15; refresh_token_expire_days = 30 }

abbrev accounts : Collection UserDocument
accounts = listed user_conflicts

abbrev drawn : ℤ → String → Drawn
drawn now raw_refresh = record {
  now = now;
  new_id = "cid";
  salt = "salt";
  raw_refresh = raw_refresh;
}

abbrev issued : RefreshToken
issued = record { token_hash = "t0"; user_id = "ann"; expires_at = pos 1000; created_at = pos 0 }

abbrev requests : List (AccountRequest × Drawn)
requests = (login_user "ann@example.com" "hash", drawn (pos 20) "t2") ∷ []

abbrev answer : AuthResponse
answer = record {
  user = to_public (to_domain (user "ann"));
  token =
      token_response accounts (λ e. e) stored_tokens open_crypto settings "ann"
        (drawn (pos 10) "t1");
}

abbrev refreshed : Result AuthResponse × (List UserDocument × List RefreshToken)
refreshed =
    refresh accounts (λ e. e) stored_tokens open_crypto settings "t0" (drawn (pos 10) "t1")
      (user "ann" ∷ [], issued ∷ [])

refresh-once_example :
    (refresh accounts
      (λ e. e)
      stored_tokens
      open_crypto
      settings
      "t0"
      (drawn (pos 30) "t3")
      (served_all accounts
        (λ e. e)
        stored_tokens
        stored_tokens-IsTokens
        open_crypto
        settings
        requests
        refreshed.1)).0
    ≡ err (app_error AppError.unauthorized)
unfolding refresh consume refresh_for find_user_by_id authenticated issue_tokens insert_token
    is_usable hash_refresh_token to_document to_domain
refresh-once_example =
    refresh-once accounts (λ e. e) stored_tokens stored_tokens-IsTokens open_crypto settings "t0"
      (drawn (pos 10) "t1") (drawn (pos 30) "t3") (user "ann" ∷ []) (issued ∷ []) answer requests
      (tt, tt) (refl, (refl, tt)) refl
