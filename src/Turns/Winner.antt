-- ===== src/Turns/Winner.antt =====
-- bankruptcy.py (`check_win_condition`): when a game ends, and who wins.
use monopoly_be.Prelude.{
  ◌≡◌, refl, ap, ◌∙◌, sym, subst, inl, inr, ◌⊎◌, true, false, not, some, List, [], ◌∷◌, ◌++◌, All,
  if◌then◌else◌, Bool-cases,
}
use monopoly_be.Schema.{GameState, PlayerState, GameStatus, TurnPhase}
use monopoly_be.Turns.{check_win_condition, declare_winner, sole, survivors}

-- The players with one place apart: those before it, the one at it, and those after it.
abbrev pub OnlyActive : List PlayerState → PlayerState → Type 0
OnlyActive players w =
    (before after : List PlayerState) × (players ≡ before ++ w ∷ after)
    × (w.is_bankrupt ≡ false)
    × All (λ (p : PlayerState). p.is_bankrupt ≡ true) before
    × All (λ (p : PlayerState). p.is_bankrupt ≡ true) after

survivors-active :
    (p : PlayerState) (players : List PlayerState)
    → p.is_bankrupt ≡ false
    → survivors (p ∷ players) ≡ p ∷ survivors players
unfolding survivors
survivors-active p players e =
    ap (λ b. if not b then p ∷ survivors players else survivors players) e

nobody_left :
    (players : List PlayerState)
    → survivors players ≡ []
    → All (λ (p : PlayerState). p.is_bankrupt ≡ true) players
unfolding survivors
nobody_left [] h = tt
nobody_left (p ∷ players) h = elim (Bool-cases p.is_bankrupt) [
  | inl e ↦ (e, nobody_left players (rw e at h))
  | inr e ↦ absurd (cc (rw e at h))
]

sole_left :
    (players : List PlayerState) (w : PlayerState)
    → survivors players ≡ w ∷ []
    → OnlyActive players w
unfolding survivors
sole_left [] w h = absurd cc
sole_left (p ∷ players) w h = elim (Bool-cases p.is_bankrupt) [
  | inl e ↦
      let (before, after, shape, active, out, out') = sole_left players w (rw e at h) in
      (p ∷ before, after, ap (λ x. p ∷ x) shape, active, (e, out), out')
  | inr e ↦
      let k : p ∷ survivors players ≡ w ∷ [] = sym (survivors-active p players e) ∙ h in
      let same : p ≡ w = cc k in
      let rest : survivors players ≡ [] = cc k in
      (
        [],
        players,
        ap (λ x. x ∷ players) same,
        subst (λ x. x.is_bankrupt ≡ false) same e,
        tt,
        nobody_left players rest,
      )
]

survivors_of_bankrupt :
    (players : List PlayerState)
    → All (λ (p : PlayerState). p.is_bankrupt ≡ true) players
    → survivors players ≡ []
unfolding survivors
survivors_of_bankrupt [] h = refl
survivors_of_bankrupt (p ∷ players) (e, h) = rw e (survivors_of_bankrupt players h)

survivors_of_one :
    (before after : List PlayerState) (w : PlayerState)
    → w.is_bankrupt ≡ false
    → All (λ (p : PlayerState). p.is_bankrupt ≡ true) before
    → All (λ (p : PlayerState). p.is_bankrupt ≡ true) after
    → survivors (before ++ w ∷ after) ≡ w ∷ []
unfolding survivors
survivors_of_one [] after w active _ out' =
    survivors-active w after active ∙ ap (λ x. w ∷ x) (survivors_of_bankrupt after out')
survivors_of_one (p ∷ before) after w active (e, out) out' =
    rw e (survivors_of_one before after w active out out')

one_or_none :
    (s : GameState) (left : List PlayerState)
    → survivors s.players ≡ left
    → (check_win_condition s ≡ s) ⊎ ((w : PlayerState) × OnlyActive s.players w)
unfolding check_win_condition declare_winner sole
one_or_none s [] e = inl (rw e refl)
one_or_none s (w ∷ []) e = inr (w, sole_left s.players w e)
one_or_none s (w ∷ v ∷ left) e = inl (rw e refl)

-- A game in progress is finished by the check just where exactly one player is not bankrupt. That player is
-- then the winner and the phase is the end of the game; in every other case the state stays as it was.
pub check_win_condition_lem :
    (s : GameState)
    → s.status ≡ GameStatus.in_progress
    → ((w : PlayerState)
        → OnlyActive s.players w
        → check_win_condition s ≡ record s {
          status = GameStatus.finished;
          winner_id = some w.id;
          turn = record (s.turn) { phase = TurnPhase.game_over };
        })
      × ((check_win_condition s ≡ s) ⊎ ((w : PlayerState) × OnlyActive s.players w))
unfolding check_win_condition declare_winner
check_win_condition_lem s running = (
  λ w (before, after, shape, active, out, out').
      let one : survivors s.players ≡ w ∷ [] =
        ap survivors shape ∙ survivors_of_one before after w active out out' in
      rw (one, running) refl,
  one_or_none s (survivors s.players) refl,
)
