-- ===== src/Payload.antt =====
-- The dictionaries that the repositories exchange with the database, and Python's conversions.
use monopoly_be.Prelude.{
  ◌≡◌, Bool, true, false, not, String, str_eq, List, [], ◌∷◌, if◌then◌else◌, ℤ, pos, zero, Result,
  ok, err, key_error,
}

pub data Scalar : Type 0 where
  text : String → Scalar
  number : ℤ → Scalar
  flag : Bool → Scalar
  moment : ℤ → Scalar

abbrev pub Row : Type 0
Row = List (String × Scalar)

-- A value of a document: a scalar, or a list of embedded documents.
pub data Field : Type 0 where
  scalar : Scalar → Field
  rows : List Row → Field

abbrev pub Payload : Type 0
Payload = List (String × Field)

-- `raw[key]`
abbrev pub item {ℓ} : {V : Type ℓ} → List (String × V) → String → Result V
item [] key = err key_error
item ((k, v) ∷ raw) key = if str_eq k key then ok v else item raw key

-- `raw.get(key, default)`
abbrev pub item_or {ℓ} : {V : Type ℓ} → List (String × V) → String → V → V
item_or [] key default = default
item_or ((k, v) ∷ raw) key default = if str_eq k key then v else item_or raw key default

-- `payload[new] = payload.pop(old)`, which puts the value in the old place here: a dictionary is read
-- by its keys only.
abbrev pub rename {ℓ} : {V : Type ℓ} → String → String → List (String × V) → List (String × V)
rename old new [] = []
rename old new ((k, v) ∷ raw) = if str_eq k old then (new, v) ∷ raw else (k, v) ∷ rename old new raw

-- `bool(value)`
abbrev pub truth : Scalar → Bool
truth (text s) = not (str_eq s "")
truth (number (pos zero)) = false
truth (number _) = true
truth (flag b) = b
truth (moment t) = true

-- Python's `str` and `int`, and the datetime that pydantic makes of a value.
pub record Conversions : Type 0 where
  pub str : Scalar → String
  pub int : Scalar → Result ℤ
  pub datetime : Scalar → Result ℤ

-- Each of them leaves a value of its own type as it is.
pub record IsConversions (C : Conversions) : Type 0 where
  pub str_text : (s : String) → C.str (text s) ≡ s
  pub int_number : (n : ℤ) → C.int (number n) ≡ ok n
  pub datetime_moment : (t : ℤ) → C.datetime (moment t) ≡ ok t
