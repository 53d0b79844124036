-- ===== src/Games/Versions.antt =====
-- src/infra/mongo/games/repository.py: what a write under an expected version does to the versions.
use monopoly_be.Prelude.{
  ℕ, String, str_eq, str_eq_refl, eq_of_str_eq, ◌+◌, ◌≡◌, refl, ap, ◌∙◌, inl, inr, Bool, true,
  false, ◌&&◌, Option, none, some, List, [], ◌∷◌, All, ◌==◌, if◌then◌else◌, Bool-cases, arith, ℤ,
}
use monopoly_be.Schema.{GameState}
use monopoly_be.Store.{find_first, update_first}
use monopoly_be.Games.{GameDocument, game_conflicts, at_version, put_state}
use mathlib.Core.Option.{some-injective}

-- No two games have an id or a session in common.
abbrev pub IsApart : {S : Type 0} → List (GameDocument S) → Type 0
IsApart [] = Unit
IsApart (d ∷ docs) = All (λ e. game_conflicts d e ≡ false) docs × IsApart docs

-- The version and the state of the game with an id, where there is one.
abbrev pub game_at : {S : Type 0} → String → List (GameDocument S) → Option (ℕ × GameState)
game_at id [] = none
game_at id (d ∷ docs) = if str_eq d.id id then some (d.version, d.state) else game_at id docs

and-true : (a b : Bool) → (a && b) ≡ true → (a ≡ true) × (b ≡ true)
and-true true b h = (refl, h)
and-true false b h = cc

at_version-eq :
    {S : Type 0} (id : String) (v : ℕ) (d : GameDocument S)
    → at_version id v d ≡ true
    → (d.id ≡ id) × (d.version ≡ v)
at_version-eq id v d h =
    let (a, b) = and-true (str_eq d.id id) (d.version == v) h in
    (eq_of_str_eq d.id id a, ground arith)

-- Nothing to update, nothing changed.
pub update_first-none {ℓ} :
    {D : Type ℓ} (query : D → Bool) (change : D → D) (docs : List D)
    → find_first query docs ≡ none
    → update_first query change docs ≡ docs
update_first-none query change [] h = refl
update_first-none query change (d ∷ docs) h = elim (Bool-cases (query d)) [
  | inl e ↦ let bad : some d ≡ none = rw e at h in cc
  | inr e ↦ rw e (ap (λ rest. d ∷ rest) (update_first-none query change docs (rw e at h)))
]

apart_id :
    {S : Type 0} (id : String) (v : ℕ) (x d : GameDocument S) (docs : List (GameDocument S))
    → All (λ e. game_conflicts x e ≡ false) docs
    → find_first (at_version id v) docs ≡ some d
    → str_eq x.id id ≡ false
unfolding game_conflicts
apart_id id v x d [] apart h = cc
apart_id id v x d (y ∷ docs) apart h = elim (Bool-cases (at_version id v y)) [
  | inr e ↦ apart_id id v x d docs apart.1 (rw e at h)
  | inl e ↦
      let (same, version) = at_version-eq id v y e in
      elim (Bool-cases (str_eq x.id id)) [
        | inr f ↦ f
        | inl f ↦
            let equal = eq_of_str_eq x.id id f in
            let bad : true ≡ false = rw (equal, same, str_eq_refl id) at apart.0 in cc
      ]
]

-- A game that is found under a version has it, and gets the next one with the state that is written.
pub update_first-version :
    {S : Type 0} (id : String) (v : ℕ) (state : GameState) (rng : S) (now : ℤ)
    (docs : List (GameDocument S)) (d : GameDocument S)
    → IsApart docs
    → find_first (at_version id v) docs ≡ some d
    → (game_at id docs ≡ some (v, d.state))
      × (game_at id (update_first (at_version id v) (put_state state rng now) docs)
          ≡ some (v + 1, state))
unfolding put_state
update_first-version id v state rng now [] d apart h = cc
update_first-version id v state rng now (x ∷ docs) d apart h =
    elim (Bool-cases (at_version id v x)) [
      | inl e ↦
          let (same, version) = at_version-eq id v x e in
          let is : x ≡ d = some-injective _ _ (rw e at h) in
          let named : str_eq x.id id ≡ true = (and-true (str_eq x.id id) _ e).0 in
          (
            rw named (
                ap (λ w. some (w, x.state)) version
                ∙ ap (λ (y : GameDocument _). some (v, y.state)) is),
            rw (e, named) (ap (λ w. some (w + 1, state)) version),
          )
      | inr e ↦
          let other = apart_id id v x d docs apart.0 (rw e at h) in
          let rest = update_first-version id v state rng now docs d apart.1 (rw e at h) in
          rw (e, other) rest
    ]

apart-update :
    {S : Type 0} (x : GameDocument S) (query : GameDocument S → Bool) (state : GameState) (rng : S)
    (now : ℤ) (docs : List (GameDocument S))
    → All (λ e. game_conflicts x e ≡ false) docs
    → All (λ e. game_conflicts x e ≡ false) (update_first query (put_state state rng now) docs)
unfolding game_conflicts put_state
apart-update x query state rng now [] h = tt
apart-update x query state rng now (d ∷ docs) h = elim (Bool-cases (query d)) [
  | inl e ↦ rw e (h.0, h.1)
  | inr e ↦ rw e (h.0, apart-update x query state rng now docs h.1)
]

-- A write keeps the ids and the sessions, so the games stay apart.
pub update_first-IsApart :
    {S : Type 0} (query : GameDocument S → Bool) (state : GameState) (rng : S) (now : ℤ)
    (docs : List (GameDocument S))
    → IsApart docs
    → IsApart (update_first query (put_state state rng now) docs)
unfolding game_conflicts put_state
update_first-IsApart query state rng now [] h = tt
update_first-IsApart query state rng now (d ∷ docs) h = elim (Bool-cases (query d)) [
  | inl e ↦ rw e (h.0, h.1)
  | inr e ↦ rw e (
    apart-update d query state rng now docs h.0,
    update_first-IsApart query state rng now docs h.1,
  )
]
