-- ===== src/Sessions/Status.antt =====
-- src/domain/session/schemas.py and the repository: the life of a session, as a step relation, and the
-- steps that the calls of the repository make in it.
use monopoly_be.Prelude.{
  str_eq_refl, String, eq_of_str_eq, ◌≡◌, refl, inl, inr, Bool, true, false, ◌&&◌, Option, none,
  some, List, [], ◌∷◌, ◌++◌, All, if◌then◌else◌, Bool-cases, ℤ,
}
use monopoly_be.Store.{update_first, remove_first}
use monopoly_be.Sessions.{
  SessionStatus, SessionDocument, session_conflicts, has_id, status_eq, put_status,
}
use monopoly_be.Sessions.Lobby.{IsLobbies}

-- What a session can do: it opens and waits, it begins, it ends, and it is closed from anywhere.
pub data Moves : Option SessionStatus → Option SessionStatus → Type 0 where
  stays : (status : Option SessionStatus) → Moves status status
  opens : Moves none (some SessionStatus.waiting)
  begins : Moves (some SessionStatus.waiting) (some SessionStatus.in_progress)
  ends : Moves (some SessionStatus.in_progress) (some SessionStatus.finished)
  closes : (status : Option SessionStatus) → Moves status none

-- The status of the session with an id, where there is one.
abbrev pub status_at : String → List SessionDocument → Option SessionStatus
status_at id [] = none
status_at id (d ∷ docs) = if has_id id d then some d.status else status_at id docs

abbrev pub KeepsStatus : (SessionDocument → SessionDocument) → Type 0
KeepsStatus change = (d : SessionDocument) → ((change d).id ≡ d.id) × ((change d).status ≡ d.status)

pub status_at-update :
    (id : String) (query : SessionDocument → Bool) (change : SessionDocument → SessionDocument)
    (docs : List SessionDocument)
    → KeepsStatus change
    → status_at id (update_first query change docs) ≡ status_at id docs
status_at-update id query change [] keep = refl
status_at-update id query change (d ∷ docs) keep = elim (Bool-cases (query d)) [
  | inl e ↦ rw (e, (keep d).0, (keep d).1)
  | inr e ↦ rw (e, status_at-update id query change docs keep)
]

pub status_eq-eq : (s t : SessionStatus) → status_eq s t ≡ true → s ≡ t
status_eq-eq SessionStatus.waiting SessionStatus.waiting h = refl
status_eq-eq SessionStatus.waiting SessionStatus.in_progress h = cc
status_eq-eq SessionStatus.waiting SessionStatus.finished h = cc
status_eq-eq SessionStatus.in_progress SessionStatus.waiting h = cc
status_eq-eq SessionStatus.in_progress SessionStatus.in_progress h = refl
status_eq-eq SessionStatus.in_progress SessionStatus.finished h = cc
status_eq-eq SessionStatus.finished SessionStatus.waiting h = cc
status_eq-eq SessionStatus.finished SessionStatus.in_progress h = cc
status_eq-eq SessionStatus.finished SessionStatus.finished h = refl

and-true : (a b : Bool) → (a && b) ≡ true → (a ≡ true) × (b ≡ true)
and-true true b h = (refl, h)
and-true false b h = cc

-- A status set under an expected one is the step from the one to the other.
pub put_status-Moves :
    (id session_id : String) (expected status : SessionStatus) (now : ℤ)
    (docs : List SessionDocument)
    → Moves (some expected) (some status)
    → Moves (status_at id docs) (
        status_at id (
          update_first
            (λ doc. has_id session_id doc && status_eq doc.status expected)
            (put_status status now)
            docs))
unfolding put_status
put_status-Moves id session_id expected status now [] move = stays none
put_status-Moves id session_id expected status now (d ∷ docs) move =
    elim (Bool-cases (has_id session_id d && status_eq d.status expected)) [
      | inl e ↦
          let same : d.status ≡ expected =
            status_eq-eq d.status expected (and-true (has_id session_id d) _ e).1 in
          rw e (elim (Bool-cases (has_id id d)) [
            | inl f ↦ rw (f, same) move
            | inr f ↦ rw f (stays (status_at id docs))
          ])
      | inr e ↦ rw e (elim (Bool-cases (has_id id d)) [
        | inl f ↦ rw f (stays (some d.status))
        | inr f ↦ rw f (put_status-Moves id session_id expected status now docs move)
      ])
    ]

none_left :
    (id : String) (d : SessionDocument) (docs : List SessionDocument)
    → d.id ≡ id
    → All (λ e. session_conflicts d e ≡ false) docs
    → status_at id docs ≡ none
unfolding session_conflicts
none_left id d [] same apart = refl
none_left id d (x ∷ docs) same apart = elim (Bool-cases (has_id id x)) [
  | inl e ↦
      let equal = eq_of_str_eq x.id id e in
      let bad : true ≡ false = rw (same, equal, str_eq_refl id) at apart.0 in cc
  | inr e ↦ rw e (none_left id d docs same apart.1)
]

-- A session that is removed is closed, and no other is touched.
pub remove_first-Moves :
    (id session_id : String) (docs : List SessionDocument)
    → IsLobbies docs
    → Moves (status_at id docs) (status_at id (remove_first (has_id session_id) docs))
remove_first-Moves id session_id [] h = stays none
remove_first-Moves id session_id (d ∷ docs) h = elim (Bool-cases (has_id session_id d)) [
  | inl e ↦ rw e (elim (Bool-cases (has_id id d)) [
    | inl f ↦ rw (f, none_left id d docs (eq_of_str_eq d.id id f) h.1) (closes (some d.status))
    | inr f ↦ rw f (stays (status_at id docs))
  ])
  | inr e ↦ rw e (elim (Bool-cases (has_id id d)) [
    | inl f ↦ rw f (stays (some d.status))
    | inr f ↦ rw f (remove_first-Moves id session_id docs h.2)
  ])
]

-- A session that comes in waits.
pub insert-Moves :
    (id : String) (docs : List SessionDocument) (d : SessionDocument)
    → d.status ≡ SessionStatus.waiting
    → Moves (status_at id docs) (status_at id (docs ++ (d ∷ [])))
insert-Moves id [] d waiting = elim (Bool-cases (has_id id d)) [
  | inl e ↦ rw (e, waiting) opens
  | inr e ↦ rw e (stays none)
]
insert-Moves id (x ∷ docs) d waiting = elim (Bool-cases (has_id id x)) [
  | inl e ↦ rw e (stays (some x.status))
  | inr e ↦ rw e (insert-Moves id docs d waiting)
]
