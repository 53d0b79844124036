-- ===== src/Sessions/Unique.antt =====
-- src/infra/mongo/sessions/repository.py: changes of one session keep all sessions lobbies, and apart.
use monopoly_be.Prelude.{
  All-map, String, any, str_eq, eq_of_str_eq, ◌≡◌, refl, ◌∙◌, sym, subst, inl, inr, Bool, true,
  false, some, List, [], ◌∷◌, ◌++◌, All, Bool-cases,
}
use mathlib.Core.Option.{some-injective}
use monopoly_be.Store.{
  find_first, update_first, remove_first, find_first-All, All-remove_first, All-snoc,
}
use monopoly_be.Sessions.{SessionDocument, session_conflicts, has_id}
use monopoly_be.Sessions.Lobby.{IsLobby, IsLobbies, any-false}

-- A document keeps its keys.
abbrev pub KeepsKeys : (SessionDocument → SessionDocument) → Type 0
KeepsKeys change =
    (d : SessionDocument) → ((change d).id ≡ d.id) × ((change d).invite_code ≡ d.invite_code)

conflicts-change :
    (d e x : SessionDocument)
    → e.id ≡ x.id
    → e.invite_code ≡ x.invite_code
    → session_conflicts d x ≡ false
    → session_conflicts d e ≡ false
unfolding session_conflicts
conflicts-change d e x p q h = rw (p, q) h

change-conflicts :
    (d x e : SessionDocument)
    → d.id ≡ x.id
    → d.invite_code ≡ x.invite_code
    → session_conflicts x e ≡ false
    → session_conflicts d e ≡ false
unfolding session_conflicts
change-conflicts d x e p q h = rw (p, q) h

conflicts-update :
    (x : SessionDocument) (query : SessionDocument → Bool)
    (change : SessionDocument → SessionDocument) (docs : List SessionDocument)
    → KeepsKeys change
    → All (λ e. session_conflicts x e ≡ false) docs
    → All (λ e. session_conflicts x e ≡ false) (update_first query change docs)
conflicts-update x query change [] keep h = tt
conflicts-update x query change (d ∷ docs) keep h = elim (Bool-cases (query d)) [
  | inl e ↦ rw e (conflicts-change x (change d) d (keep d).0 (keep d).1 h.0, h.1)
  | inr e ↦ rw e (h.0, conflicts-update x query change docs keep h.1)
]

-- An update of one session, where `R` is what is known of each.
pub update_first-IsLobbies {ℓ} :
    (R : SessionDocument → Type ℓ) (query : SessionDocument → Bool)
    (change : SessionDocument → SessionDocument) (docs : List SessionDocument)
    → KeepsKeys change
    → ((d : SessionDocument) → R d → query d ≡ true → IsLobby d → IsLobby (change d))
    → All R docs
    → IsLobbies docs
    → IsLobbies (update_first query change docs)
update_first-IsLobbies R query change [] keys keep r h = tt
update_first-IsLobbies R query change (d ∷ docs) keys keep r h = elim (Bool-cases (query d)) [
  | inl e ↦ rw e (
    keep d r.0 e h.0,
    All-map _ _ docs (λ x. change-conflicts (change d) d x (keys d).0 (keys d).1) h.1,
    h.2,
  )
  | inr e ↦ rw e (
    h.0,
    conflicts-update d query change docs keys h.1,
    update_first-IsLobbies R query change docs keys keep r.1 h.2,
  )
]

pub All-true {ℓ} : {A : Type ℓ} (xs : List A) → All (λ x. Unit {0}) xs
All-true [] = tt
All-true (x ∷ xs) = (tt, All-true xs)

pub remove_first-IsLobbies :
    (query : SessionDocument → Bool) (docs : List SessionDocument)
    → IsLobbies docs
    → IsLobbies (remove_first query docs)
remove_first-IsLobbies query [] h = tt
remove_first-IsLobbies query (d ∷ docs) h = elim (Bool-cases (query d)) [
  | inl e ↦ rw e h.2
  | inr e ↦ rw e (
    h.0,
    All-remove_first (λ x. session_conflicts d x ≡ false) query docs h.1,
    remove_first-IsLobbies query docs h.2,
  )
]

eq_sym : (s t : String) → str_eq s t ≡ str_eq t s
eq_sym s t = elim (Bool-cases (str_eq s t)) [
  | inl e ↦ let same = eq_of_str_eq s t e in rw same
  | inr e ↦ elim (Bool-cases (str_eq t s)) [
    | inl f ↦ let same = eq_of_str_eq t s f in rw same
    | inr f ↦ e ∙ sym f
  ]
]

conflicts_sym : (d e : SessionDocument) → session_conflicts d e ≡ session_conflicts e d
unfolding session_conflicts
conflicts_sym d e = rw (eq_sym d.id e.id, eq_sym d.invite_code e.invite_code)

pub insert-IsLobbies :
    (docs : List SessionDocument) (d : SessionDocument)
    → any (session_conflicts d) docs ≡ false
    → IsLobby d
    → IsLobbies docs
    → IsLobbies (docs ++ (d ∷ []))
insert-IsLobbies [] d free lobby h = (lobby, tt, tt)
insert-IsLobbies (x ∷ docs) d free lobby h =
    let apart = any-false (session_conflicts d) (x ∷ docs) free in
    (
      h.0,
      All-snoc (λ e. session_conflicts x e ≡ false) docs d h.1 (conflicts_sym x d ∙ apart.0),
      elim (Bool-cases (session_conflicts d x)) [
        | inl e ↦ let bad : true ≡ false = sym e ∙ apart.0 in cc
        | inr e ↦ insert-IsLobbies docs d (rw e at free) lobby h.2
      ],
    )

absurd_of {κ} : {B : Type κ} → true ≡ false → B
absurd_of e = cc

-- Two sessions with one id are one session.
id_conflict : (d e : SessionDocument) → has_id d.id e ≡ true → session_conflicts e d ≡ true
unfolding session_conflicts
id_conflict d e h = rw h

pub find_first_unique :
    (query : SessionDocument → Bool) (docs : List SessionDocument) (d : SessionDocument)
    → IsLobbies docs
    → find_first query docs ≡ some d
    → All (λ e. has_id d.id e ≡ true → e ≡ d) docs
find_first_unique query [] d h found = cc
find_first_unique query (x ∷ docs) d h found = elim (Bool-cases (query x)) [
  | inl e ↦
      let same : x ≡ d = some-injective _ _ (rw e at found) in
      subst (λ y. All (λ e. has_id y.id e ≡ true → e ≡ y) (x ∷ docs)) same
        (
          λ _. refl,
          All-map _ _ docs
              (λ y apart same_id.
                absurd_of (sym (conflicts_sym x y ∙ id_conflict x y same_id) ∙ apart))
              h.1,
        )
  | inr e ↦
      let rest = (rw e at found) in
      let apart : session_conflicts x d ≡ false =
        (find_first-All (λ y. session_conflicts x y ≡ false) query docs d h.1 rest).0 in
      (
        λ same_id. absurd_of (sym (id_conflict d x same_id) ∙ apart),
        find_first_unique query docs d h.2 rest,
      )
]
