-- ===== src/Accounts/Rotation.antt =====
-- src/application/services/user_service.py: a refresh token is good for one refresh.
use monopoly_be.Prelude.{
  ◌≢◌, String, str_eq, Bool, false, any, Bool-cases, Option-cases, Option, none, some, List, [],
  ◌∷◌, All, ℤ, ◌≡◌, ap, ◌∙◌, inl, inr, ok, err, app_error, AppError,
}
use monopoly_be.Store.{Collection, find_first}
use monopoly_be.Users.{
  User, UserDocument, find_user_by_id, find_password_hash_by_email, create_user,
}
use monopoly_be.Games.Locking.{Result-cases}
use monopoly_be.Accounts.{
  Tokens, IsTokens, RefreshToken, same_hash, is_usable, owner, insert_token, consume, revoke,
  Crypto, Settings, hash_password, verify_password, hash_refresh_token, Drawn, AuthResponse,
  Accounts, issue_tokens, authenticated, register, login, refresh_for, refresh, logout,
}
use monopoly_be.Accounts.Absent.{
  IsAbsent, IsDistinct, append-IsAbsent, remove_first-IsAbsent, find_first-absent, taken-IsAbsent,
}

pub data AccountRequest : Type 0 where
  register_user : (email password display_name : String) → AccountRequest
  login_user : (email password : String) → AccountRequest
  refresh_tokens : (refresh_token : String) → AccountRequest
  logout_user : (refresh_token : String) → AccountRequest

module _ (U : Collection UserDocument) (lower : String → String) (T : Tokens) (law : IsTokens T)
    (K : Crypto) (settings : Settings) where
  -- The stores after a request.
  unfoldable pub served :
      AccountRequest × Drawn → Accounts U lower T K settings → Accounts U lower T K settings
  served (register_user email password display_name, d) s =
      (register U lower T K settings email password display_name d s).1
  served (login_user email password, d) s = (login U lower T K settings email password d s).1
  served (refresh_tokens refresh_token, d) s = (refresh U lower T K settings refresh_token d s).1
  served (logout_user refresh_token, d) s = logout U lower T K settings refresh_token s

  unfoldable pub served_all :
      List (AccountRequest × Drawn) → Accounts U lower T K settings → Accounts U lower T K settings
  unfolding served
  served_all [] s = s
  served_all (request ∷ requests) s = served_all requests (served request s)

  -- The token that is drawn for a request has another hash.
  abbrev pub IsOther : String → AccountRequest × Drawn → Type 0
  IsOther i (request, d) = str_eq (hash_refresh_token K d.raw_refresh) i ≡ false

  insert_token-IsAbsent :
      (i h user_id : String) (expires_at now : ℤ) (s : T.State)
      → str_eq h i ≡ false
      → IsAbsent i (law.documents s)
      → IsAbsent i (law.documents (insert_token T h user_id expires_at now s).1)
  unfolding insert_token
  insert_token-IsAbsent i h user_id expires_at now s other absent =
      let d : RefreshToken = record {
        token_hash = h;
        user_id = user_id;
        expires_at = expires_at;
        created_at = now;
      } in
      elim (Bool-cases (any (same_hash d) (law.documents s))) [
        | inl e ↦ rw (law.insert_one_documents d s, e) absent
        | inr e ↦
            rw (law.insert_one_documents d s, e)
              (append-IsAbsent i (law.documents s) d absent other)
      ]

  authenticated-IsAbsent :
      (i : String) (user : User) (d : Drawn) (users : U.State) (tokens : T.State)
      → str_eq (hash_refresh_token K d.raw_refresh) i ≡ false
      → IsAbsent i (law.documents tokens)
      → IsAbsent i (law.documents (authenticated U lower T K settings user d (users, tokens)).1.1)
  unfolding authenticated issue_tokens
  authenticated-IsAbsent i user d users tokens other absent =
      insert_token-IsAbsent i (hash_refresh_token K d.raw_refresh) user.id _ d.now tokens other
        absent

  register-IsAbsent :
      (i email password display_name : String) (d : Drawn) (users : U.State) (tokens : T.State)
      → str_eq (hash_refresh_token K d.raw_refresh) i ≡ false
      → IsAbsent i (law.documents tokens)
      → IsAbsent i (
          law.documents
            (register U lower T K settings email password display_name d (users, tokens)).1.1)
  unfolding register
  register-IsAbsent i email password display_name d users tokens other absent =
      let created =
        create_user U lower d.new_id d.now email display_name (hash_password K password d.salt)
          users in
      elim (Result-cases created.0) [
        | inl (e, failed) ↦ rw (register, failed) absent
        | inr (user, made) ↦
            rw (register, made) (authenticated-IsAbsent i user d created.1 tokens other absent)
      ]

  login-IsAbsent :
      (i email password : String) (d : Drawn) (users : U.State) (tokens : T.State)
      → str_eq (hash_refresh_token K d.raw_refresh) i ≡ false
      → IsAbsent i (law.documents tokens)
      → IsAbsent i (law.documents (login U lower T K settings email password d (users, tokens)).1.1)
  unfolding login
  login-IsAbsent i email password d users tokens other absent =
      elim (Option-cases (find_password_hash_by_email U lower email users)) [
        | inl missing ↦ rw (login, missing) absent
        | inr ((user, password_hash), found) ↦
            rw (login, found)
              (elim (Bool-cases (verify_password K password password_hash)) [
                | inl right ↦ rw right (authenticated-IsAbsent i user d users tokens other absent)
                | inr wrong ↦ rw wrong absent
              ])
      ]

  refresh_for-IsAbsent :
      (i : String) (o : Option String) (d : Drawn) (users : U.State) (tokens : T.State)
      → str_eq (hash_refresh_token K d.raw_refresh) i ≡ false
      → IsAbsent i (law.documents tokens)
      → IsAbsent i (law.documents (refresh_for U lower T K settings o d (users, tokens)).1.1)
  unfolding refresh_for
  refresh_for-IsAbsent i none d users tokens other absent = absent
  refresh_for-IsAbsent i (some user_id) d users tokens other absent =
      elim (Option-cases (find_user_by_id U lower user_id users)) [
        | inl missing ↦ rw (refresh_for, missing) absent
        | inr (user, found) ↦
            rw (refresh_for, found) (authenticated-IsAbsent i user d users tokens other absent)
      ]

  served-IsAbsent :
      (i : String) (request : AccountRequest × Drawn) (s : Accounts U lower T K settings)
      → IsOther i request
      → IsAbsent i (law.documents s.1)
      → IsAbsent i (law.documents (served request s).1)
  unfolding served refresh consume logout revoke
  served-IsAbsent i (register_user email password display_name, d) (users, tokens) other absent =
      register-IsAbsent i email password display_name d users tokens other absent
  served-IsAbsent i (login_user email password, d) (users, tokens) other absent =
      login-IsAbsent i email password d users tokens other absent
  served-IsAbsent i (refresh_tokens refresh_token, d) (users, tokens) other absent =
      let query = is_usable (hash_refresh_token K refresh_token) d.now in
      let consumed = T.find_one_and_delete query tokens in
      refresh_for-IsAbsent i (owner consumed.0) d users consumed.1 other (
        rw (law.find_one_and_delete_documents query tokens)
          (remove_first-IsAbsent i query (law.documents tokens) absent))
  served-IsAbsent i (logout_user refresh_token, d) (users, tokens) other absent =
      let query : RefreshToken → Bool =
        λ x. str_eq x.token_hash (hash_refresh_token K refresh_token) in
      rw (law.delete_one_documents query tokens)
        (remove_first-IsAbsent i query (law.documents tokens) absent)

  served_all-IsAbsent :
      (i : String) (requests : List (AccountRequest × Drawn)) (s : Accounts U lower T K settings)
      → All (IsOther i) requests
      → IsAbsent i (law.documents s.1)
      → IsAbsent i (law.documents (served_all requests s).1)
  unfolding served_all
  served_all-IsAbsent i [] s others absent = absent
  served_all-IsAbsent i (request ∷ requests) s others absent =
      served_all-IsAbsent i requests (served request s) others.1
        (served-IsAbsent i request s others.0 absent)

  refused-refresh :
      (token : String) (d : Drawn) (users : U.State) (tokens : T.State)
      → IsAbsent (hash_refresh_token K token) (law.documents tokens)
      → (refresh U lower T K settings token d (users, tokens)).0
        ≡ err (app_error AppError.unauthorized)
  unfolding refresh consume refresh_for
  refused-refresh token d users tokens absent =
      let i = hash_refresh_token K token in
      rw (
        law.find_one_and_delete_reply (is_usable i d.now) tokens,
        find_first-absent i d.now (law.documents tokens) absent,
      )

  refresh_for-ok :
      (o : Option String) (d : Drawn) (s : Accounts U lower T K settings) (answer : AuthResponse)
      → (refresh_for U lower T K settings o d s).0 ≡ ok answer
      → o ≢ none
  unfolding refresh_for
  refresh_for-ok none d s answer h = cc
  refresh_for-ok (some user_id) d s answer h = λ bad. cc

  refreshed-IsAbsent :
      (token : String) (d : Drawn) (users : U.State) (tokens : T.State) (answer : AuthResponse)
      → IsDistinct (law.documents tokens)
      → str_eq (hash_refresh_token K d.raw_refresh) (hash_refresh_token K token) ≡ false
      → (refresh U lower T K settings token d (users, tokens)).0 ≡ ok answer
      → IsAbsent
          (hash_refresh_token K token)
          (law.documents (refresh U lower T K settings token d (users, tokens)).1.1)
  unfolding refresh consume
  refreshed-IsAbsent token d users tokens answer distinct other h =
      let i = hash_refresh_token K token in
      let query = is_usable i d.now in
      let consumed = T.find_one_and_delete query tokens in
      refresh_for-IsAbsent i (owner consumed.0) d users consumed.1 other (
        rw (law.find_one_and_delete_documents query tokens)
          (elim (Option-cases (find_first query (law.documents tokens))) [
            | inl missing ↦ absurd (
                refresh_for-ok (owner consumed.0) d (users, consumed.1) answer h
                  (ap owner (law.find_one_and_delete_reply query tokens ∙ missing)))
            | inr (x, found) ↦ taken-IsAbsent i d.now (law.documents tokens) x distinct found
          ]))

  -- A refresh token that has been used for a refresh is refused ever after, whatever is requested in
  -- between and whenever. No two stored tokens have one hash, and the tokens that are drawn since then
  -- have other hashes.
  pub refresh-once :
      (token : String) (d later : Drawn) (users : U.State) (tokens : T.State)
      (answer : AuthResponse) (requests : List (AccountRequest × Drawn))
      → IsDistinct (law.documents tokens)
      → All (IsOther (hash_refresh_token K token)) ((refresh_tokens token, d) ∷ requests)
      → (refresh U lower T K settings token d (users, tokens)).0 ≡ ok answer
      → (refresh U lower T K settings token later
          (served_all requests (refresh U lower T K settings token d (users, tokens)).1)).0
        ≡ err (app_error AppError.unauthorized)
  refresh-once token d later users tokens answer requests distinct others h =
      let after = (refresh U lower T K settings token d (users, tokens)).1 in
      let absent = refreshed-IsAbsent token d users tokens answer distinct others.0 h in
      let last = served_all requests after in
      refused-refresh token later last.0 last.1
        (served_all-IsAbsent (hash_refresh_token K token) requests after others.1 absent)
