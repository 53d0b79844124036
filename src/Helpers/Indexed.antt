-- ===== src/Helpers/Indexed.antt =====
-- The players by index: a write at an index, and the player of an id that stands elsewhere.
use monopoly_be.Prelude.{
  ℕ, zero, suc, ◌≡◌, ◌≢◌, refl, some, List, [], ◌∷◌, get_elem?, set, arith, ℤ, ◌+ℤ◌, int_laws,
  same_parts,
}
use monopoly_be.Schema.{PlayerState}
use monopoly_be.Helpers.Players.{find_player}
use monopoly_be.Helpers.Writes.{sum_by}

pub sum_by-set :
    (w : PlayerState → ℤ) (players : List PlayerState) (k : ℕ) {p : PlayerState} (q : PlayerState)
    → get_elem? players k ≡ some p
    → sum_by w (set players k q) +ℤ w p ≡ sum_by w players +ℤ w q
unfolding sum_by
sum_by-set w [] k q h = cc
sum_by-set w (x ∷ players) zero {p} q h = let same : x ≡ p = cc in rw same (omega int_laws)
sum_by-set w (x ∷ players) (suc k) q h = omega (int_laws, same_parts (sum_by-set w players k q h))

-- The index holds a player of another id.
abbrev pub Elsewhere : List PlayerState → ℕ → ℕ → Type 0
Elsewhere players i k = (p : PlayerState) × (get_elem? players k ≡ some p) × (p.id ≢ i)

-- A write that keeps the id at such an index does not change what an id is found as.
pub find_player-set :
    (players : List PlayerState) (i k : ℕ) {p : PlayerState} (q : PlayerState)
    → get_elem? players k ≡ some p
    → p.id ≢ i
    → q.id ≡ p.id
    → find_player (set players k q) i ≡ find_player players i
unfolding find_player
find_player-set [] i k q h ne e = refl
find_player-set (x ∷ players) i zero {p} q h ne e = ground arith
find_player-set (x ∷ players) i (suc k) {p} q h ne e = rw (find_player-set players i k q h ne e)

pub Elsewhere-set :
    (players : List PlayerState) (i j k : ℕ) {p : PlayerState} (q : PlayerState)
    → get_elem? players k ≡ some p
    → q.id ≡ p.id
    → Elsewhere players i j
    → Elsewhere (set players k q) i j
Elsewhere-set [] i j k q h e (r, f, ne) = (r, f, ne)
Elsewhere-set (x ∷ players) i zero zero q h e (r, f, ne) = (q, refl, ground arith)
Elsewhere-set (x ∷ players) i zero (suc k) q h e (r, f, ne) = (r, f, ne)
Elsewhere-set (x ∷ players) i (suc j) zero q h e (r, f, ne) = (r, f, ne)
Elsewhere-set (x ∷ players) i (suc j) (suc k) q h e elsewhere =
    Elsewhere-set players i j k q h e elsewhere
