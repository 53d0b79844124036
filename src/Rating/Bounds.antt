-- ===== src/Rating/Bounds.antt =====
-- src/domain/rating/elo.py: how far a rating can move.
use monopoly_be.Prelude.{
  str_eq, eq_of_parts, ℕ, max_ℤ, +ℤ_parts, -ℤ_parts, ◌≡◌, refl, ap, subst, inl, inr, Bool, true,
  false, List, [], ◌∷◌, All, ltb, if◌then◌else◌, Bool-cases, arith, length, ℤ, pos, ◌+ℤ◌, ◌-ℤ◌,
  ◌≤ℤ◌, leb_ℤ, ltb_ℤ,
}
use monopoly_be.Rating.{
  rating_floor, regular_cap, calibration_cap, calibration_games, calibration_k, regular_k,
  opponents_of, Participant, RatingResult, clamp, put_result, rating_change, rating_changes,
  compute_rating_changes,
}

-- The most that a rating can change in the game that makes the count `games_played`.
abbrev pub cap_of : ℤ → ℤ
cap_of games_played = if leb_ℤ games_played calibration_games then calibration_cap else regular_cap

pub record IsBounded (r : RatingResult) : Type 0 where
  pub floored : rating_floor ≤ℤ r.new_rating
  pub moved : r.new_rating ≡ r.old_rating +ℤ r.delta
  pub least : (pos 0 -ℤ cap_of r.games_played) ≤ℤ r.delta
  pub most : r.delta ≤ℤ cap_of r.games_played
  pub calibrated : r.calibration_complete ≡ leb_ℤ calibration_games r.games_played

clamp_bounds :
    (value limit : ℤ)
    → pos 0 ≤ℤ limit
    → ((pos 0 -ℤ limit) ≤ℤ clamp value limit) × (clamp value limit ≤ℤ limit)
unfolding clamp
clamp_bounds value limit h = ground (arith, -ℤ_parts (pos 0) limit)

-- The difference to a rating, added to it.
add-sub : (a b : ℤ) → a ≡ b +ℤ (a -ℤ b)
add-sub a b = eq_of_parts a (b +ℤ (a -ℤ b)) (omega (arith, -ℤ_parts a b, +ℤ_parts b (a -ℤ b)))

-- A change within a limit, from above the floor, stays within it when the floor is put in.
floored_change :
    (rating change limit : ℤ)
    → rating_floor ≤ℤ rating
    → pos 0 ≤ℤ limit
    → (pos 0 -ℤ limit) ≤ℤ change
    → change ≤ℤ limit
    → (rating_floor ≤ℤ max_ℤ rating_floor (rating +ℤ change))
      × ((pos 0 -ℤ limit) ≤ℤ (max_ℤ rating_floor (rating +ℤ change) -ℤ rating))
      × ((max_ℤ rating_floor (rating +ℤ change) -ℤ rating) ≤ℤ limit)
floored_change rating change limit floor positive least most =
    elim (Bool-cases (ltb_ℤ rating_floor (rating +ℤ change))) [
      | inl e ↦ rw e (
          ground (
            arith,
            e,
            +ℤ_parts rating change,
            -ℤ_parts (rating +ℤ change) rating,
            -ℤ_parts (pos 0) limit,
          ))
      | inr e ↦ rw e (
          ground (
            arith,
            e,
            +ℤ_parts rating change,
            -ℤ_parts rating_floor rating,
            -ℤ_parts (pos 0) limit,
          ))
    ]

same_test : (n : ℤ) → ltb_ℤ n calibration_games ≡ leb_ℤ (n +ℤ pos 1) calibration_games
same_test n = ground (arith, +ℤ_parts n (pos 1))

same_cap :
    (n : ℤ)
    → (if ltb_ℤ n calibration_games then calibration_cap else regular_cap) ≡ cap_of (n +ℤ pos 1)
same_cap n = ap (λ b. if b then calibration_cap else regular_cap) (same_test n)

positive_cap : (b : Bool) → pos 0 ≤ℤ (if b then calibration_cap else regular_cap)
positive_cap true = omega arith
positive_cap false = omega arith

All-put_result :
    (P : RatingResult → Type 0) (results : List RatingResult) (r : RatingResult)
    → All P results
    → P r
    → All P (put_result results r)
unfolding put_result
All-put_result P [] r h p = (p, tt)
All-put_result P (q ∷ results) r h p = elim (Bool-cases (str_eq q.user_id r.user_id)) [
  | inl e ↦ rw e (p, h.1)
  | inr e ↦ rw e (h.0, All-put_result P results r h.1 p)
]

module _ (gain : ℤ → ℕ → ℕ → ℤ → List ℤ → ℤ) where
  rating_change-IsBounded :
      (participants : List Participant) (one : Participant)
      → rating_floor ≤ℤ one.rating
      → IsBounded (rating_change gain participants one)
  unfolding rating_change
  rating_change-IsBounded participants one floor =
      let provisional = ltb_ℤ one.games_played calibration_games in
      let limit = if provisional then calibration_cap else regular_cap in
      let gained =
        gain (if provisional then calibration_k else regular_k) (length participants) one.placement
          one.rating (opponents_of participants one) in
      let (low, high) = clamp_bounds gained limit (positive_cap provisional) in
      let (floored, least, most) =
        floored_change one.rating (clamp gained limit) limit floor (positive_cap provisional) low
          high in
      let new_rating = max_ℤ rating_floor (one.rating +ℤ clamp gained limit) in
      record {
        floored = floored;
        moved = add-sub new_rating one.rating;
        least =
            subst (λ c. (pos 0 -ℤ c) ≤ℤ (new_rating -ℤ one.rating)) (same_cap one.games_played)
              least;
        most = subst (λ c. (new_rating -ℤ one.rating) ≤ℤ c) (same_cap one.games_played) most;
        calibrated = refl;
      }

  rating_changes-IsBounded :
      (participants rest : List Participant) (results : List RatingResult)
      → All (λ (p : Participant). rating_floor ≤ℤ p.rating) rest
      → All IsBounded results
      → All IsBounded (rating_changes gain participants rest results)
  unfolding rating_changes
  rating_changes-IsBounded participants [] results floors h = h
  rating_changes-IsBounded participants (one ∷ rest) results floors h =
      rating_changes-IsBounded participants rest _ floors.1 (
        All-put_result IsBounded results (rating_change gain participants one) h
          (rating_change-IsBounded participants one floors.0))

  -- Whatever the expected scores are, a finished game leaves every rating at 100 or more, and moves it
  -- by at most 75 in the first three games of a player and by at most 25 afterwards; calibration is
  -- complete from the third game on. Every rating was at 100 or more before.
  pub compute_rating_changes-IsBounded :
      (participants : List Participant)
      → All (λ (p : Participant). rating_floor ≤ℤ p.rating) participants
      → All IsBounded (compute_rating_changes gain participants)
  unfolding compute_rating_changes
  compute_rating_changes-IsBounded participants floors =
      elim (Bool-cases (ltb (length participants) 2)) [
        | inl e ↦ rw e tt
        | inr e ↦ rw e (rating_changes-IsBounded participants participants [] floors tt)
      ]
