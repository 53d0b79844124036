-- ===== src/Interest.antt =====
-- The two products with the float `MORTGAGE_INTEREST` (constants.py): building.py's
-- `math.ceil(mortgage_value * (1 + MORTGAGE_INTEREST))` and bankruptcy.py's
-- `int(mortgage_value * MORTGAGE_INTEREST)`. A float is an IEEE 754 double: 1 + 0.10 is
-- 2476979795053773 / 2^51, 0.10 is 3602879701896397 / 2^55, and a product is rounded to 53 bits, to
-- the nearest and a tie to the even.
pub mod Exact
use monopoly_be.Prelude.{ℕ, zero, suc, ◌+◌, ◌-◌, ◌*◌, ◌/◌, ◌%◌, ◌^◌, ltb, ◌==◌, if◌then◌else◌}

-- The number of bits past the 53rd, for a number below 2^(53 + fuel).
excess_bits : ℕ → ℕ → ℕ
excess_bits zero n = 0
excess_bits (suc fuel) n =
    let rest = suc (excess_bits fuel (n / 2)) in if ltb n (2 ^ 53) then 0 else rest

-- n / 2^s to the nearest, a tie to the even.
round_half_even : ℕ → ℕ → ℕ
round_half_even n s =
    let q = n / 2 ^ s in
    let twice = 2 * (n % 2 ^ s) in
    if ltb twice (2 ^ s) then q else if ltb (2 ^ s) twice then q + 1 else q + q % 2

-- The double nearest to the whole number n, for n below 2^(53 + 64).
unfoldable pub to_double : ℕ → ℕ
unfolding excess_bits round_half_even
to_double n = let s = excess_bits 64 n in round_half_even n s * 2 ^ s

abbrev one_plus_interest : ℕ
one_plus_interest = 2476979795053773

abbrev interest : ℕ
interest = 3602879701896397

unfoldable pub unmortgage_cost : ℕ → ℕ
unfolding to_double
unmortgage_cost mortgage_value =
    (to_double (mortgage_value * one_plus_interest) + (2 ^ 51 - 1)) / 2 ^ 51

unfoldable pub mortgage_interest : ℕ → ℕ
unfolding to_double
mortgage_interest mortgage_value = to_double (mortgage_value * interest) / 2 ^ 55
