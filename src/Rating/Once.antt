-- ===== src/Rating/Once.antt =====
-- src/application/services/rating_service.py: a game is rated once.
use monopoly_be.Prelude.{
  ℕ, String, str_eq, str_eq_refl, eq_of_str_eq, ◌≡◌, refl, ap, ◌∙◌, sym, inl, inr, Bool, true,
  false, ◌&&◌, ◌||◌, none, List, [], ◌∷◌, All, Bool-cases, is_some, ℤ,
}
use monopoly_be.Schema.{GameState}
use monopoly_be.Store.{Collection, IsCollection, find_first, update_first}
use monopoly_be.Users.{UserDocument}
use monopoly_be.Games.{GameDocument, game_conflicts, unrated, put_rated, claim_for_rating}
use monopoly_be.Games.Versions.{IsApart}
use monopoly_be.Rating.{is_finished, apply_for_finished_game}
use mathlib.Core.Option

or-true : (b : Bool) → (b || true) ≡ true
or-true true = refl
or-true false = refl

and-left : (a b : Bool) → (a && b) ≡ true → a ≡ true
and-left true b h = refl
and-left false b h = cc

no_claim_left :
    {S : Type 0} (session_id : String) (x : GameDocument S) (docs : List (GameDocument S))
    → x.session_id ≡ session_id
    → All (λ e. game_conflicts x e ≡ false) docs
    → find_first (unrated session_id) docs ≡ none
unfolding game_conflicts
no_claim_left session_id x [] same apart = refl
no_claim_left session_id x (d ∷ docs) same apart =
    elim (Bool-cases (str_eq d.session_id session_id)) [
      | inr e ↦ rw e (no_claim_left session_id x docs same apart.1)
      | inl e ↦
          let equal = eq_of_str_eq d.session_id session_id e in
          let bad : (str_eq x.id d.id || true) ≡ false =
            rw (same, equal, str_eq_refl session_id) at apart.0 in
          let wrong : true ≡ false = sym (or-true (str_eq x.id d.id)) ∙ bad in cc
    ]

-- After a claim there is nothing left to claim.
claimed_once :
    {S : Type 0} (session_id : String) (docs : List (GameDocument S))
    → IsApart docs
    → find_first (unrated session_id) (update_first (unrated session_id) put_rated docs) ≡ none
unfolding put_rated
claimed_once session_id [] apart = refl
claimed_once session_id (x ∷ docs) apart = elim (Bool-cases (unrated session_id x)) [
  | inl e ↦
      let named : str_eq x.session_id session_id ≡ true =
        and-left (str_eq x.session_id session_id) _ e in
      rw e (
        rw named
          (no_claim_left session_id x docs (eq_of_str_eq x.session_id session_id named) apart.0))
  | inr e ↦ rw e (rw e (claimed_once session_id docs apart.1))
]

module _ {S : Type 0} (G : Collection (GameDocument S)) (law : IsCollection game_conflicts G)
    (U : Collection UserDocument) (gain : ℤ → ℕ → ℕ → ℤ → List ℤ → ℤ) where
  second_claim :
      (session_id : String) (games : G.State)
      → IsApart (law.documents games)
      → (claim_for_rating G session_id (claim_for_rating G session_id games).1).0 ≡ false
  unfolding claim_for_rating
  second_claim session_id games apart =
      let after = (G.find_one_and_update (unrated session_id) put_rated games).1 in
      let left : find_first (unrated session_id) (law.documents after) ≡ none =
        ap (find_first (unrated session_id))
          (law.update_documents (unrated session_id) put_rated games)
        ∙ claimed_once session_id (law.documents games) apart in
      ap is_some
        (law.update_reply (unrated session_id) put_rated after ∙ ap (Option.map put_rated) left)

  -- The ratings of a finished game are applied at most once: applied again to the session, with whatever
  -- state, they change no user. No two games share an id or a session.
  pub apply_for_finished_game-once :
      (session_id : String) (state again : GameState) (games : G.State) (users : U.State)
      → IsApart (law.documents games)
      → is_finished state.status ≡ true
      → (apply_for_finished_game G U gain session_id again
          (apply_for_finished_game G U gain session_id state (games, users))).1
        ≡ (apply_for_finished_game G U gain session_id state (games, users)).1
  unfolding apply_for_finished_game
  apply_for_finished_game-once session_id state again games users apart finished =
      elim (Bool-cases (is_finished again.status)) [
        | inr e ↦ rw e
        | inl e ↦ rw (finished, e, second_claim session_id games apart)
      ]
