-- ===== src/Rating/Service.antt =====
-- src/application/services/rating_service.py.
use monopoly_be.Prelude.{
  ℕ, String, ◌+◌, Bool, true, false, not, none, some, List, [], ◌∷◌, ◌++◌, map, ltb, if◌then◌else◌,
  length, filterb, ℤ, pos, negsuc, ltb_ℤ,
}
use monopoly_be.Schema.{GameState, PlayerState, GameStatus}
use monopoly_be.Store.{Collection}
use monopoly_be.Users.{User, UserDocument, lookup_user, find_by_ids, update_rating}
use monopoly_be.Games.{GameDocument, claim_for_rating}
use monopoly_be.Rating.Elo.{Participant, RatingResult, compute_rating_changes}

abbrev pub is_finished : GameStatus → Bool
is_finished GameStatus.finished = true
is_finished _ = false

-- `p.eliminated_at if p.eliminated_at is not None else -1`
abbrev pub eliminated_key : PlayerState → ℤ
eliminated_key p = elim p.eliminated_at [ none ↦ negsuc 0 | some t ↦ pos t ]

-- `sorted(…, key=…, reverse=True)`: the latest first, and equals in their order.
unfoldable pub insert_latest : PlayerState → List PlayerState → List PlayerState
insert_latest p [] = p ∷ []
insert_latest p (q ∷ players) =
    if ltb_ℤ (eliminated_key p) (eliminated_key q)
    then q ∷ insert_latest p players
    else p ∷ q ∷ players

unfoldable pub latest_first : List PlayerState → List PlayerState
latest_first [] = []
latest_first (p ∷ players) = insert_latest p (latest_first players)

-- The order of `_placements`, and the places from `place` on.
unfoldable pub ordered_players : List PlayerState → List PlayerState
ordered_players players =
    filterb (λ (p : PlayerState). not p.is_bankrupt) players
    ++ latest_first (filterb (λ (p : PlayerState). p.is_bankrupt) players)

unfoldable pub number_from : ℕ → List PlayerState → List (String × ℕ)
number_from place [] = []
number_from place (p ∷ players) = (p.user_id, place) ∷ number_from (place + 1) players

unfoldable pub placements : List PlayerState → List (String × ℕ)
placements players = number_from 1 (ordered_players players)

-- The participants: the placed users who are found.
unfoldable pub participants_of : List User → List (String × ℕ) → List Participant
participants_of users [] = []
participants_of users ((user_id, place) ∷ placed) = elim (lookup_user users user_id) [
  | none ↦ participants_of users placed
  | some user ↦
      record {
        user_id = user_id;
        rating = user.rating;
        games_played = user.games_played;
        placement = place;
      }
      ∷ participants_of users placed
]

module _ {S : Type 0} (G : Collection (GameDocument S)) (U : Collection UserDocument)
    (gain : ℤ → ℕ → ℕ → ℤ → List ℤ → ℤ) where
  -- The loop that writes the results.
  unfoldable pub write_results : List RatingResult → U.State → U.State
  write_results [] users = users
  write_results (r ∷ results) users =
      write_results results (
        update_rating U (λ e. e) r.user_id r.new_rating r.games_played r.calibration_complete users)

  -- What follows a claim that succeeded.
  unfoldable pub rate_players : List PlayerState → U.State → U.State
  unfolding write_results participants_of
  rate_players players users =
      let placed = placements players in
      if ltb (length placed) 2
      then users
      else write_results
          (compute_rating_changes gain (
            participants_of (find_by_ids U (λ e. e) (map (λ (p : String × ℕ). p.0) placed) users)
              placed))
          users

  -- The games and the users after it.
  unfoldable pub apply_for_finished_game :
      String → GameState → G.State × U.State → G.State × U.State
  apply_for_finished_game session_id state (games, users) =
      let (claimed, games_after) = claim_for_rating G session_id games in
      if not (is_finished state.status)
      then (games, users)
      else (games_after, if claimed then rate_players state.players users else users)
