-- ===== src/Prelude/Raise.antt =====
-- What a Python function hands back: a value, or the exception that it raises.
use Prim.Native.String.{String}
use mathlib.Core.Path.{◌≡◌, refl}
use mathlib.Core.Bool.{Bool, true, false}
use mathlib.Core.Option.{Option, none, some}
use mathlib.Core.List.{List}
use Prim.Native.Nat.{ℕ, suc, ◌-◌}
use monopoly_be.Prelude.Tests.{leb, if◌then◌else◌}
use monopoly_be.Prelude.Lists.{length, get_elem?}
use monopoly_be.Prelude.Int.{ℤ, pos, negsuc}

-- core/exceptions.py: the errors of the services. A message that a class fixes is left out.
pub data AppError : Type 0 where
  duplicate_email invalid_credentials unauthorized session_not_found : AppError
  forbidden_host_action cannot_kick_self : AppError
  not_found : (message : String) → AppError
  not_member already_member : (session_id user_id : String) → AppError
  session_full game_not_found game_version_conflict : (session_id : String) → AppError
  session_not_joinable : (session_id status : String) → AppError

unfoldable pub status_code : AppError → ℕ
status_code AppError.duplicate_email = 409
status_code AppError.invalid_credentials = 401
status_code AppError.unauthorized = 401
status_code AppError.session_not_found = 404
status_code AppError.forbidden_host_action = 403
status_code AppError.cannot_kick_self = 400
status_code (AppError.not_found message) = 404
status_code (AppError.not_member session_id user_id) = 403
status_code (AppError.already_member session_id user_id) = 409
status_code (AppError.session_full session_id) = 409
status_code (AppError.game_not_found session_id) = 404
status_code (AppError.game_version_conflict session_id) = 409
status_code (AppError.session_not_joinable session_id status) = 409

-- `illegal_move` is domain.game.exceptions.IllegalMove, `app_error` is one of core.exceptions, and
-- the others are Python's own exceptions.
pub data Error : Type 0 where
  illegal_move runtime_error : String → Error
  app_error : AppError → Error
  validation_error duplicate_key key_error stop_iteration value_error index_error zero_division
        recursion_error :
      Error

pub data Result {κ} (Value : Type κ) : Type κ where
  err : (raised : Error) → Result Value
  ok : (value : Value) → Result Value

-- What comes after a statement that may raise, with its value or without.
infixl 5 ◌>>=◌ ◌>>◌
abbrev pub ◌>>=◌ {κ ℓ} :
    {Value : Type κ} {Next : Type ℓ} (m : Result Value) (rest : Value → Result Next) → Result Next
(err raised) >>= rest = err raised
(ok value) >>= rest = rest value

abbrev pub ◌>>◌ {κ ℓ} :
    {Value : Type κ} {Next : Type ℓ} (m : Result Value) (rest : Result Next) → Result Next
m >> rest = m >>= λ _. rest

-- `if b: raise e`
abbrev pub raise_if : Bool → Error → Result (Unit {0})
raise_if true e = err e
raise_if false e = ok tt

-- A lookup that raises `e` where nothing is found.
abbrev pub or_raise {ℓ} : {A : Type ℓ} → Option A → Error → Result A
or_raise none e = err e
or_raise (some a) e = ok a

-- `xs[i]`: a negative index counts from the end.
abbrev pub subscript {ℓ} : {A : Type ℓ} → List A → ℤ → Result A
subscript xs (pos i) = or_raise (get_elem? xs i) index_error
subscript xs (negsuc i) =
    if leb (suc i) (length xs)
    then or_raise (get_elem? xs (length xs - suc i)) index_error
    else err index_error

-- Inversion of a bind that returned.
pub >>=-eq-ok {κ ℓ} :
    {Value : Type κ} {Next : Type ℓ} (m : Result Value) (rest : Value → Result Next) {next : Next}
    → (m >>= rest) ≡ ok next
    → (value : Value) × (m ≡ ok value) × (rest value ≡ ok next)
>>=-eq-ok (err raised) rest h = cc
>>=-eq-ok (ok value) rest h = (value, refl, h)

pub raise_if-eq-ok : (b : Bool) (e : Error) (u : Unit {0}) → raise_if b e ≡ ok u → b ≡ false
raise_if-eq-ok true e u h = cc
raise_if-eq-ok false e u h = refl

pub or_raise-eq-ok {ℓ} :
    {A : Type ℓ} (o : Option A) (e : Error) {a : A} → or_raise o e ≡ ok a → o ≡ some a
or_raise-eq-ok none e h = cc
or_raise-eq-ok (some a) e h = cc

pub ok-injective {ℓ} : {A : Type ℓ} {a b : A} → ok a ≡ ok b → a ≡ b
ok-injective h = cc
