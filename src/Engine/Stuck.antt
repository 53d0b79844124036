-- ===== src/Engine/Stuck.antt =====
-- surrender.py and engine.py (`_handle_end_turn`): a surrender while a debt is open.
use monopoly_be.Prelude.{
  ℕ, ◌≡◌, ◌≢◌, ap, ◌∙◌, sym, inl, inr, some, List, Bool-cases, arith, ok, >>=-eq-ok, ok-injective,
}
use monopoly_be.Schema.{GameEvent, GameState, PlayerState, BankruptcyState}
use monopoly_be.Helpers.{get_player_by_id_from_state}
use monopoly_be.Surrender.{quit, resolve_surrender}
use monopoly_be.Surrender.Money.{pass_turn-SameAssets}
use monopoly_be.Engine.Handlers.{handle_end_turn}

quit-bankruptcy :
    (s : GameState) (p : PlayerState) (i : ℕ) {s' : GameState}
    → quit s p i ≡ ok s'
    → s'.bankruptcy ≡ s.bankruptcy
unfolding quit
quit-bankruptcy s p i {s'} h = ground arith

resolve_surrender-bankruptcy :
    (s : GameState) (i : ℕ) {s' : GameState}
    → resolve_surrender s i ≡ ok s'
    → s'.bankruptcy ≡ s.bankruptcy
unfolding resolve_surrender
resolve_surrender-bankruptcy s i {s'} h =
    let (p, _, k) = >>=-eq-ok (get_player_by_id_from_state s i) _ h in
    elim (Bool-cases p.is_bankrupt) [
      | inl out ↦ ap (λ x. x.bankruptcy) (sym (ok-injective (rw out at k)))
      | inr playing ↦
          let (gone, e, k') = >>=-eq-ok (quit s p i) _ (rw playing at k) in
          (pass_turn-SameAssets gone i k').bankruptcy ∙ quit-bankruptcy s p i e
    ]

end_turn-refused :
    (s : GameState) (debt : BankruptcyState) (pid : ℕ)
    → s.bankruptcy ≡ some debt
    → (r : GameState × List GameEvent) → handle_end_turn s pid ≢ ok r
unfolding handle_end_turn
end_turn-refused s debt pid pending r = λ h. ground (arith, pending)

-- A surrender that returns leaves an open debt open, even where the player who surrenders is the debtor, and then no
-- player can end a turn: each attempt is refused.
pub resolve_surrender-keeps_debt :
    (s : GameState) (i : ℕ) (debt : BankruptcyState) {s' : GameState}
    → s.bankruptcy ≡ some debt
    → resolve_surrender s i ≡ ok s'
    → (s'.bankruptcy ≡ some debt)
      × ((pid : ℕ) (r : GameState × List GameEvent) → handle_end_turn s' pid ≢ ok r)
resolve_surrender-keeps_debt s i debt {s'} pending h =
    let kept = resolve_surrender-bankruptcy s i h ∙ pending in
    (kept, λ pid r. end_turn-refused s' debt pid kept r)
