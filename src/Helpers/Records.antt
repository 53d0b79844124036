-- ===== src/Helpers/Records.antt =====
-- What a write of an ownership record (helpers.py, `replace_space`) changes.
use monopoly_be.Prelude.{
  ℕ, ◌+◌, ◌≡◌, List, [], ◌∷◌, ◌==◌, Bool-cases, inl, inr, if◌then◌else◌, arith, All, subst, ok,
}
use monopoly_be.Schema.{SpaceOwnership}
use monopoly_be.Helpers.Spaces.{find_ownership, space_at, write_space, replace_space}

pub replace_space-found :
    (spaces : List SpaceOwnership) (n : ℕ) {o : SpaceOwnership} (q : SpaceOwnership)
    → space_at spaces n ≡ ok o
    → replace_space spaces n q ≡ ok (write_space spaces n q)
unfolding replace_space
replace_space-found spaces n q h = rw h

pub replace_space-eq-ok :
    (spaces : List SpaceOwnership) (n : ℕ) (q : SpaceOwnership) {spaces' : List SpaceOwnership}
    → replace_space spaces n q ≡ ok spaces'
    → spaces' ≡ write_space spaces n q
unfolding replace_space
replace_space-eq-ok spaces n q h = ground arith

pub space_at-write :
    (spaces : List SpaceOwnership) (n m : ℕ) {o : SpaceOwnership} (q : SpaceOwnership)
    → q.position ≡ n
    → space_at spaces n ≡ ok o
    → space_at (write_space spaces n q) m ≡ (if n == m then ok q else space_at spaces m)
unfolding space_at find_ownership write_space
space_at-write [] n m q e h = cc
space_at-write (x ∷ spaces) n m {o} q e h = ground (arith, space_at-write spaces n m {o = o} q e)

pub space_at-position :
    (spaces : List SpaceOwnership) (n : ℕ) {o : SpaceOwnership}
    → space_at spaces n ≡ ok o
    → o.position ≡ n
unfolding space_at find_ownership
space_at-position [] n h = cc
space_at-position (x ∷ spaces) n {o} h = ground (arith, space_at-position spaces n {o = o})

-- A sum over the ownership records.
unfoldable pub sum_spaces : (SpaceOwnership → ℕ) → List SpaceOwnership → ℕ
sum_spaces w [] = 0
sum_spaces w (o ∷ spaces) = w o + sum_spaces w spaces

pub sum_spaces-write :
    (w : SpaceOwnership → ℕ) (spaces : List SpaceOwnership) (n : ℕ) {o : SpaceOwnership}
    (q : SpaceOwnership)
    → space_at spaces n ≡ ok o
    → sum_spaces w (write_space spaces n q) + w o ≡ sum_spaces w spaces + w q
unfolding space_at find_ownership write_space sum_spaces
sum_spaces-write w [] n q h = cc
sum_spaces-write w (x ∷ spaces) n {o} q h = elim (Bool-cases (x.position == n)) [
  | inl e ↦ let same : x ≡ o = ground arith in rw (e, same) (omega arith)
  | inr e ↦ rw e (omega (arith, sum_spaces-write w spaces n q (rw e at h)))
]

pub All-write_space {ℓ} :
    (P : SpaceOwnership → Type ℓ) (spaces : List SpaceOwnership) (n : ℕ) (q : SpaceOwnership)
    → All P spaces
    → P q
    → All P (write_space spaces n q)
unfolding write_space
All-write_space P [] n q h k = h
All-write_space P (x ∷ spaces) n q (hx, h) k = elim (Bool-cases (x.position == n)) [
  | inl e ↦ rw e (k, h)
  | inr e ↦ rw e (hx, All-write_space P spaces n q h k)
]

pub All-space_at {ℓ} :
    (P : SpaceOwnership → Type ℓ) (spaces : List SpaceOwnership) (n : ℕ) {o : SpaceOwnership}
    → space_at spaces n ≡ ok o
    → All P spaces
    → P o
unfolding space_at find_ownership
All-space_at P [] n h k = cc
All-space_at P (x ∷ spaces) n {o} h (hx, k) = elim (Bool-cases (x.position == n)) [
  | inl e ↦ let same : x ≡ o = ground arith in subst P same hx
  | inr e ↦ All-space_at P spaces n (rw e at h) k
]
