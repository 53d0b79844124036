-- ===== src/Rating/Elo.antt =====
-- src/domain/rating/constants.py and elo.py. The float arithmetic of the expected scores is a parameter:
-- `gain k n placement rating opponents` is `round(k * (actual - expected))` for a player among `n`.
use monopoly_be.Prelude.{
  ℕ, String, str_eq, max_ℤ, min_ℤ, Bool, not, List, [], ◌∷◌, map, ltb, if◌then◌else◌, length,
  filterb, ℤ, pos, ◌+ℤ◌, ◌-ℤ◌, leb_ℤ, ltb_ℤ,
}

abbrev pub calibration_games : ℤ
calibration_games = pos 3

abbrev pub calibration_k : ℤ
calibration_k = pos 120

abbrev pub calibration_cap : ℤ
calibration_cap = pos 75

abbrev pub regular_k : ℤ
regular_k = pos 48

abbrev pub regular_cap : ℤ
regular_cap = pos 25

abbrev pub rating_floor : ℤ
rating_floor = pos 100

pub record Participant : Type 0 where
  pub user_id : String
  pub rating : ℤ
  pub games_played : ℤ
  pub placement : ℕ

pub record RatingResult : Type 0 where
  pub user_id : String
  pub old_rating : ℤ
  pub new_rating : ℤ
  pub delta : ℤ
  pub games_played : ℤ
  pub calibration_complete : Bool

-- `_clamp`
unfoldable pub clamp : ℤ → ℤ → ℤ
clamp value cap = max_ℤ (pos 0 -ℤ cap) (min_ℤ cap value)

-- `results[user_id] = result`: a key that is there keeps its place.
unfoldable pub put_result : List RatingResult → RatingResult → List RatingResult
put_result [] result = result ∷ []
put_result (r ∷ results) result =
    if str_eq r.user_id result.user_id then result ∷ results else r ∷ put_result results result

-- The opponents' ratings: `[p.rating for p in participants if p.user_id != player.user_id]`
unfoldable pub opponents_of : List Participant → Participant → List ℤ
opponents_of participants one =
    map (λ (p : Participant). p.rating)
      (filterb (λ (p : Participant). not (str_eq p.user_id one.user_id)) participants)

module _ (gain : ℤ → ℕ → ℕ → ℤ → List ℤ → ℤ) where
  -- The body of the loop of `compute_rating_changes`.
  unfoldable pub rating_change : List Participant → Participant → RatingResult
  rating_change participants one =
      let provisional = ltb_ℤ one.games_played calibration_games in
      let k = if provisional then calibration_k else regular_k in
      let cap = if provisional then calibration_cap else regular_cap in
      let delta =
        clamp
          (gain k (length participants) one.placement one.rating (opponents_of participants one))
          cap in
      let new_rating = max_ℤ rating_floor (one.rating +ℤ delta) in
      let new_games = one.games_played +ℤ pos 1 in
      record {
        user_id = one.user_id;
        old_rating = one.rating;
        new_rating = new_rating;
        delta = new_rating -ℤ one.rating;
        games_played = new_games;
        calibration_complete = leb_ℤ calibration_games new_games;
      }

  unfoldable pub rating_changes :
      List Participant → List Participant → List RatingResult → List RatingResult
  rating_changes participants [] results = results
  rating_changes participants (one ∷ rest) results =
      rating_changes participants rest (put_result results (rating_change participants one))

  unfoldable pub compute_rating_changes : List Participant → List RatingResult
  unfolding rating_changes
  compute_rating_changes participants =
      if ltb (length participants) 2 then [] else rating_changes participants participants []
