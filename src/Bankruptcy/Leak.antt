-- ===== src/Bankruptcy/Leak.antt =====
-- bankruptcy.py: what becomes of the buildings when the debt was owed to the bank.
use monopoly_be.Prelude.{
  subst, ◌==◌, ap, ok-injective, ℕ, ◌≤◌, ◌<◌, ◌≡◌, refl, true, false, none, some, List, [], ◌∷◌,
  Bool-cases, inl, inr, arith, pos, ◌+ℤ◌, ◌<ℤ◌, int_laws, ok, >>=-eq-ok,
}
use monopoly_be.Schema.{SpaceOwnership, PlayerState, BankruptcyState, GameState}
use monopoly_be.Helpers.{
  get_player_by_id, get_player_by_id_from_state, space_at, replace_space, replace_space-eq-ok,
  sum_spaces-write, find_player,
}
use monopoly_be.Building.Supply.{houses_on}
use monopoly_be.Turns.Frame.{
  SameAssets-trans, check_win_condition-SameAssets, advance_turn_off_player-SameAssets, SameAssets,
}
use monopoly_be.Bankruptcy.{
  is_finished, check_win_condition, get_player_by_id, get_player_by_id_from_state, resolve_debt,
  liquidate, release, resolve_bankruptcy,
}

release-houses :
    (positions : List ℕ) (spaces : List SpaceOwnership) {spaces' : List SpaceOwnership}
    → release positions spaces ≡ ok spaces'
    → houses_on spaces' ≤ houses_on spaces
unfolding release houses_on
release-houses [] spaces h = rw (ok-injective h) (omega arith)
release-houses (n ∷ positions) spaces h =
    let (o, found, k) = >>=-eq-ok (space_at spaces n) _ h in
    let q = record o { owner_id = none; is_mortgaged = false; houses = 0; has_hotel = false } in
    let (written, e, k') = >>=-eq-ok (replace_space spaces n q) _ k in
    let ih = release-houses positions written k' in
    let same = replace_space-eq-ok spaces n q e in
    omega (arith, ih, ap houses_on same, sum_spaces-write (λ x. x.houses) spaces n q found)

-- A position with houses, released first, leaves strictly fewer houses on the board.
release-houses_lt :
    (n : ℕ) (positions : List ℕ) (spaces : List SpaceOwnership) {o : SpaceOwnership}
    {spaces' : List SpaceOwnership}
    → space_at spaces n ≡ ok o
    → 0 < o.houses
    → release (n ∷ positions) spaces ≡ ok spaces'
    → houses_on spaces' < houses_on spaces
unfolding release houses_on
release-houses_lt n positions spaces {o} found some_houses h =
    let q = record o { owner_id = none; is_mortgaged = false; houses = 0; has_hotel = false } in
    let (written, e, k') = >>=-eq-ok (replace_space spaces n q) _ (rw found at h) in
    let ih = release-houses positions written k' in
    let same = replace_space-eq-ok spaces n q e in
    omega (arith, ih, ap houses_on same, sum_spaces-write (λ x. x.houses) spaces n q found)

liquidate-assets :
    (s : GameState) (debt : BankruptcyState) (i : ℕ) {p : PlayerState} {s' : GameState}
    → find_player s.players i ≡ some p
    → debt.creditor_id ≡ none
    → liquidate s debt i ≡ ok s'
    → (release p.owned_positions s.spaces ≡ ok s'.spaces) × (s'.bank_houses ≡ s.bank_houses)
unfolding liquidate get_player_by_id_from_state get_player_by_id
liquidate-assets s debt i {p} {s'} found bank h = ground arith

resolve_debt-liquidate :
    (s : GameState) (debt : BankruptcyState) (i : ℕ) {s' : GameState}
    → debt.debtor_id ≡ i
    → resolve_debt s (some debt) i ≡ ok s'
    → (gone : GameState) × (liquidate s debt i ≡ ok gone) × SameAssets gone s'
unfolding resolve_debt
resolve_debt-liquidate s debt i {s'} e h =
    let test : (debt.debtor_id == i) ≡ true = ground arith in
    let (gone, l, k) = >>=-eq-ok (liquidate s debt i) _ (rw test at h) in
    let resolved = check_win_condition gone in
    let won = check_win_condition-SameAssets gone in
    (
      gone,
      l,
      elim (Bool-cases (is_finished resolved.status)) [
        | inl e ↦ subst (SameAssets gone) (ok-injective (rw e at k)) won
        | inr e ↦
            SameAssets-trans gone resolved s' won
              (advance_turn_off_player-SameAssets resolved i (rw e at k))
      ],
    )

-- A debtor to the bank whose first position has houses takes them out of the game: after a bankruptcy
-- that returns, the houses of the bank and of the board together are fewer than before.
pub resolve_bankruptcy-loses_houses :
    (s : GameState) (debt : BankruptcyState) (n : ℕ) (rest : List ℕ) {p : PlayerState}
    {o : SpaceOwnership} {s' : GameState}
    → s.bankruptcy ≡ some debt
    → debt.creditor_id ≡ none
    → find_player s.players debt.debtor_id ≡ some p
    → p.owned_positions ≡ n ∷ rest
    → space_at s.spaces n ≡ ok o
    → 0 < o.houses
    → resolve_bankruptcy s debt.debtor_id ≡ ok s'
    → s'.bank_houses +ℤ pos (houses_on s'.spaces) <ℤ s.bank_houses +ℤ pos (houses_on s.spaces)
unfolding resolve_bankruptcy
resolve_bankruptcy-loses_houses s debt n rest {p} {o} {s'} pending bank found owned at some_houses
      h =
    let (gone, l, same) =
      resolve_debt-liquidate s debt debt.debtor_id refl
        (subst (λ d. resolve_debt s d debt.debtor_id ≡ ok s') pending h) in
    let (released, kept) = liquidate-assets s debt debt.debtor_id found bank l in
    let fewer = release-houses_lt n rest s.spaces at some_houses (rw owned at released) in
    rw (same.spaces, same.bank_houses, kept) (omega (int_laws, fewer))
