-- ===== src/Helpers/Writes.antt =====
-- What the lookups of helpers.py find, and what a write to the players changes.
use monopoly_be.Prelude.{
  subst, All, ℕ, suc, ◌≡◌, inl, inr, Option, none, some, List, [], ◌∷◌, ◌==◌, if◌then◌else◌,
  Bool-cases, arith, ℤ, pos, ◌+ℤ◌, int_laws, same_parts, set, ok,
}
use monopoly_be.Schema.{PlayerState}
use monopoly_be.Helpers.Players.{
  find_player, find_index, next_index, replace_player, player_index, put_player,
}

-- The players with the first of the given id replaced.
unfoldable pub write_player : List PlayerState → ℕ → PlayerState → List PlayerState
write_player [] player_id q = []
write_player (p ∷ players) player_id q =
    if p.id == player_id then q ∷ players else p ∷ write_player players player_id q

-- Where the player is found, so is the index, and the write at the index is `write_player`.
index_of_found :
    (players : List PlayerState) (i : ℕ) {p : PlayerState} (q : PlayerState)
    → find_player players i ≡ some p
    → (k : ℕ) × (find_index players i ≡ some k) × (set players k q ≡ write_player players i q)
unfolding find_player find_index write_player
index_of_found [] i q h = cc
index_of_found (x ∷ players) i q h = elim (Bool-cases (x.id == i)) [
  | inl e ↦ (0, rw e, rw e)
  | inr e ↦
      let (k, found, written) = index_of_found players i q (rw e at h) in
      (suc k, rw (e, found), rw (e, written))
]

pub replace_player-found :
    (players : List PlayerState) (i : ℕ) {p : PlayerState} (q : PlayerState)
    → find_player players i ≡ some p
    → replace_player players i q ≡ ok (write_player players i q)
unfolding replace_player next_index
replace_player-found players i q h =
    let (k, found, written) = index_of_found players i q h in rw (found, written)

pub put_player-found :
    (players : List PlayerState) (i : ℕ) {p : PlayerState} (q : PlayerState)
    → find_player players i ≡ some p
    → put_player players i q ≡ ok (write_player players i q)
unfolding put_player player_index
put_player-found players i q h =
    let (k, found, written) = index_of_found players i q h in rw (found, written)

pub find_player-id :
    (players : List PlayerState) (i : ℕ) {p : PlayerState}
    → find_player players i ≡ some p
    → p.id ≡ i
unfolding find_player
find_player-id [] i h = cc
find_player-id (x ∷ players) i {p} h = ground (arith, find_player-id players i {p = p})

-- The player of an id after a write of a player with the id.
pub find_player-write :
    (players : List PlayerState) (i j : ℕ) {p : PlayerState} (q : PlayerState)
    → q.id ≡ i
    → find_player players i ≡ some p
    → find_player (write_player players i q) j ≡ (if i == j then some q else find_player players j)
unfolding find_player write_player
find_player-write [] i j q e h = cc
find_player-write (x ∷ players) i j {p} q e h =
    ground (arith, find_player-write players i j {p = p} q e)

-- A sum over the players.
unfoldable pub sum_by : (PlayerState → ℤ) → List PlayerState → ℤ
sum_by w [] = pos 0
sum_by w (p ∷ players) = w p +ℤ sum_by w players

pub sum_by-write :
    (w : PlayerState → ℤ) (players : List PlayerState) (i : ℕ) {p : PlayerState} (q : PlayerState)
    → find_player players i ≡ some p
    → sum_by w (write_player players i q) +ℤ w p ≡ sum_by w players +ℤ w q
unfolding find_player write_player sum_by
sum_by-write w [] i q h = cc
sum_by-write w (x ∷ players) i {p} q h = elim (Bool-cases (x.id == i)) [
  | inl e ↦ rw e (let same : x ≡ p = ground arith in rw same (omega int_laws))
  | inr e ↦ rw e (omega (int_laws, same_parts (sum_by-write w players i q (rw e at h))))
]

pub All-write {ℓ} :
    (P : PlayerState → Type ℓ) (players : List PlayerState) (i : ℕ) (q : PlayerState)
    → All P players
    → P q
    → All P (write_player players i q)
unfolding write_player
All-write P [] i q h k = h
All-write P (x ∷ players) i q (hx, h) k = elim (Bool-cases (x.id == i)) [
  | inl e ↦ rw e (k, h)
  | inr e ↦ rw e (hx, All-write P players i q h k)
]

pub All-found {ℓ} :
    (P : PlayerState → Type ℓ) (players : List PlayerState) (i : ℕ) {p : PlayerState}
    → find_player players i ≡ some p
    → All P players
    → P p
unfolding find_player
All-found P [] i h k = cc
All-found P (x ∷ players) i {p} h (hx, k) = elim (Bool-cases (x.id == i)) [
  | inl e ↦ let same : x ≡ p = ground arith in subst P same hx
  | inr e ↦ All-found P players i (rw e at h) k
]

-- The money that the players hold.
unfoldable pub cash : List PlayerState → ℤ
unfolding sum_by
cash = sum_by (λ p. p.balance)

-- The balance of the player with an id.
unfoldable pub balance_of : List PlayerState → ℕ → Option ℤ
balance_of players i = elim (find_player players i) [ none ↦ none | some p ↦ some p.balance ]
