-- ===== src/Store.antt =====
-- What the repositories (src/infra/mongo) use of a MongoDB collection, as a parameter: its state, the
-- calls, and what the documentation of each call promises, in terms of the documents held.
use monopoly_be.Prelude.{
  or_raise, raise_if, Error, subst, ◌≡◌, refl, Bool, true, false, not, Option, none, some, List, [],
  ◌∷◌, ◌++◌, any, All, filterb, if◌then◌else◌, Result, ok, err, Bool-cases, inl, inr,
}
use mathlib.Core.Option
use mathlib.Core.Option.{some-injective}

-- The first document that a query matches.
abbrev pub find_first {ℓ} : {D : Type ℓ} → (D → Bool) → List D → Option D
find_first query [] = none
find_first query (d ∷ docs) = if query d then some d else find_first query docs

-- The documents with that one changed, or without it.
abbrev pub update_first {ℓ} : {D : Type ℓ} → (D → Bool) → (D → D) → List D → List D
update_first query change [] = []
update_first query change (d ∷ docs) =
    if query d then change d ∷ docs else d ∷ update_first query change docs

abbrev pub remove_first {ℓ} : {D : Type ℓ} → (D → Bool) → List D → List D
remove_first query [] = []
remove_first query (d ∷ docs) = if query d then docs else d ∷ remove_first query docs

-- `find` is without `sort` and `limit`; `insert_one` is false where it raises `DuplicateKeyError`;
-- `find_one_and_update` returns the document after the update; `delete_one` whether one was deleted.
pub record Collection (D : Type 0) : Type 1 where
  pub State : Type 0
  pub find_one : (D → Bool) → State → Option D
  pub find : (D → Bool) → State → List D
  pub insert_one : D → State → Bool × State
  pub find_one_and_update : (D → Bool) → (D → D) → State → Option D × State
  pub delete_one : (D → Bool) → State → Bool × State

-- `conflicts` holds of two documents that a unique index does not take together.
pub record IsCollection {D : Type 0} (conflicts : D → D → Bool) (C : Collection D) : Type 1 where
  pub documents : C.State → List D
  pub find_one_lem :
      (query : D → Bool) (s : C.State) → C.find_one query s ≡ find_first query (documents s)
  pub find_lem : (query : D → Bool) (s : C.State) → C.find query s ≡ filterb query (documents s)
  pub insert_one_reply :
      (d : D) (s : C.State) → (C.insert_one d s).0 ≡ not (any (conflicts d) (documents s))
  pub insert_one_documents :
      (d : D) (s : C.State)
      → documents (C.insert_one d s).1
        ≡ (if any (conflicts d) (documents s) then documents s else documents s ++ (d ∷ []))
  pub update_reply :
      (query : D → Bool) (change : D → D) (s : C.State)
      → (C.find_one_and_update query change s).0
        ≡ Option.map change (find_first query (documents s))
  pub update_documents :
      (query : D → Bool) (change : D → D) (s : C.State)
      → documents (C.find_one_and_update query change s).1 ≡ update_first query change (documents s)
  pub delete_one_documents :
      (query : D → Bool) (s : C.State)
      → documents (C.delete_one query s).1 ≡ remove_first query (documents s)

-- A call that reads and writes a store, and returns or raises.
abbrev pub Step {ℓ} : Type 0 → Type ℓ → Type ℓ
Step S A = S → Result A × S

abbrev pub give {ℓ} : {S : Type 0} {A : Type ℓ} → A → Step S A
give a s = (ok a, s)

abbrev pub lift {ℓ} : {S : Type 0} {A : Type ℓ} → Result A → Step S A
lift r s = (r, s)

abbrev pub resume {ℓ κ} :
    {S : Type 0} {A : Type ℓ} {B : Type κ} → Result A × S → (A → Step S B) → Result B × S
resume (err e, s) rest = (err e, s)
resume (ok a, s) rest = rest a s

infixl 5 ◌>>=◌ ◌>>◌
abbrev pub ◌>>=◌ {ℓ κ} :
    {S : Type 0} {A : Type ℓ} {B : Type κ} (m : Step S A) (rest : A → Step S B) → Step S B
(m >>= rest) s = resume (m s) rest

abbrev pub ◌>>◌ {ℓ κ} :
    {S : Type 0} {A : Type ℓ} {B : Type κ} (m : Step S A) (rest : Step S B) → Step S B
(m >> rest) s = resume (m s) (λ _. rest)

-- A read leaves the store as it is.
abbrev pub reading {ℓ} : {S : Type 0} {A : Type ℓ} → (S → A) → Step S A
reading read s = (ok (read s), s)

-- A call that answers is a step that returns.
abbrev pub calling {ℓ} : {S : Type 0} {A : Type ℓ} → (S → A × S) → Step S A
calling call s = (ok (call s).0, (call s).1)

-- What a step leaves behind has `P`, on each way that it can go on.
pub or_raise-after {ℓ κ μ} :
    {S : Type 0} {A : Type ℓ} {B : Type κ} (P : S → Type μ) (x : Option A) (e : Error) (s : S)
    (rest : A → Step S B)
    → P s
    → ((a : A) → x ≡ some a → P (rest a s).1)
    → P (resume (or_raise x e, s) rest).1
or_raise-after P none e s rest p k = p
or_raise-after P (some a) e s rest p k = k a refl

pub raise_if-after {κ μ} :
    {S : Type 0} {B : Type κ} (P : S → Type μ) (b : Bool) (e : Error) (s : S)
    (rest : Unit {0} → Step S B)
    → P s
    → (b ≡ false → P (rest tt s).1)
    → P (resume (raise_if b e, s) rest).1
raise_if-after P true e s rest p k = p
raise_if-after P false e s rest p k = k refl

pub resume-after {ℓ κ μ} :
    {S : Type 0} {A : Type ℓ} {B : Type κ} (P : S → Type μ) (r : Result A × S) (rest : A → Step S B)
    → P r.1
    → ((a : A) → P (rest a r.1).1)
    → P (resume r rest).1
resume-after P (err e, t) rest p k = p
resume-after P (ok a, t) rest p k = k a

-- A predicate of all documents survives the changes of a collection.
pub All-update_first {ℓ κ} :
    {D : Type ℓ} (P : D → Type κ) (query : D → Bool) (change : D → D) (docs : List D)
    → ((d : D) → P d → query d ≡ true → P (change d))
    → All P docs
    → All P (update_first query change docs)
All-update_first P query change [] keep h = tt
All-update_first P query change (d ∷ docs) keep h = elim (Bool-cases (query d)) [
  | inl e ↦ rw e (keep d h.0 e, h.1)
  | inr e ↦ rw e (h.0, All-update_first P query change docs keep h.1)
]

pub All-remove_first {ℓ κ} :
    {D : Type ℓ} (P : D → Type κ) (query : D → Bool) (docs : List D)
    → All P docs
    → All P (remove_first query docs)
All-remove_first P query [] h = tt
All-remove_first P query (d ∷ docs) h = elim (Bool-cases (query d)) [
  | inl e ↦ rw e h.1
  | inr e ↦ rw e (h.0, All-remove_first P query docs h.1)
]

pub All-snoc {ℓ κ} :
    {D : Type ℓ} (P : D → Type κ) (docs : List D) (d : D)
    → All P docs
    → P d
    → All P (docs ++ (d ∷ []))
All-snoc P [] d h p = (p, tt)
All-snoc P (x ∷ docs) d h p = (h.0, All-snoc P docs d h.1 p)

-- What is found matches, and has what all documents have.
pub find_first-All {ℓ κ} :
    {D : Type ℓ} (P : D → Type κ) (query : D → Bool) (docs : List D) (d : D)
    → All P docs
    → find_first query docs ≡ some d
    → P d × (query d ≡ true)
find_first-All P query [] d h e = cc
find_first-All P query (x ∷ docs) d h e = elim (Bool-cases (query x)) [
  | inl q ↦
      let same : x ≡ d = some-injective _ _ (rw q at e) in
      subst (λ y. P y × (query y ≡ true)) same (h.0, q)
  | inr q ↦ find_first-All P query docs d h.1 (rw q at e)
]
