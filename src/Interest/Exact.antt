-- ===== src/Interest/Exact.antt =====
-- building.py and bankruptcy.py: the interest in floats against the exact tenth.
use monopoly_be.Prelude.{
  all_below, all_below_lem, ℕ, ◌+◌, ◌*◌, ◌/◌, ◌%◌, ◌≤◌, ◌≡◌, ◌≢◌, refl, Bool, true, ◌&&◌, ◌||◌,
  ◌==◌, leb, arith,
}
use monopoly_be.Interest.{unmortgage_cost, mortgage_interest}

-- Eleven tenths and one tenth, the first rounded up and the second rounded down.
abbrev pub exact_cost : ℕ → ℕ
exact_cost v = (11 * v + 9) / 10

abbrev pub exact_interest : ℕ → ℕ
exact_interest v = v / 10

-- The tests on a value v, its cost and its interest.
agrees : (v cost interest : ℕ) → Bool
agrees v cost interest =
    leb (exact_cost v) cost
    && leb cost (exact_cost v + 1)
    && (interest == exact_interest v)
    && (v % 10 == 0 || cost == exact_cost v)

agrees_lem :
    (v cost interest : ℕ)
    → agrees v cost interest ≡ true
    → (interest ≡ exact_interest v)
      × (exact_cost v ≤ cost)
      × (cost ≤ exact_cost v + 1)
      × (v % 10 ≢ 0 → cost ≡ exact_cost v)
unfolding agrees
agrees_lem v cost interest h = (ground arith, ground arith, ground arith, λ ne. ground arith)

value_agrees : ℕ → Bool
unfolding unmortgage_cost mortgage_interest
value_agrees v = agrees v (unmortgage_cost v) (mortgage_interest v)

agrees_table : all_below 401 value_agrees ≡ true
unfolding value_agrees agrees unmortgage_cost mortgage_interest
agrees_table = refl

-- For every mortgage value up to 400 the interest of a bankruptcy is the exact tenth rounded down. The cost of lifting the mortgage is
-- the exact eleven tenths rounded up, or one more; one more only where the value is a multiple of ten.
pub unmortgage_cost-exact :
    (v : ℕ)
    → v ≤ 400
    → (mortgage_interest v ≡ exact_interest v)
      × (exact_cost v ≤ unmortgage_cost v)
      × (unmortgage_cost v ≤ exact_cost v + 1)
      × (v % 10 ≢ 0 → unmortgage_cost v ≡ exact_cost v)
unfolding value_agrees
unmortgage_cost-exact v h =
    agrees_lem v (unmortgage_cost v) (mortgage_interest v)
      (all_below_lem 401 value_agrees agrees_table v (omega (arith, h)))
