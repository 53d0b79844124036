-- ===== src/Auction/Award.antt =====
-- auction.py (`resolve_auction`): who gets the property, and who pays.
use monopoly_be.Prelude.{
  ◌==◌, if◌then◌else◌, ℕ, ◌≡◌, refl, ap, ◌∙◌, sym, subst, Option, none, some, List, arith, ℤ, pos,
  ◌+ℤ◌, ◌-ℤ◌, int_laws, same_parts, ok, >>=-eq-ok, or_raise-eq-ok, ok-injective,
}
use monopoly_be.Schema.{GameState, TurnPhase}
use monopoly_be.Helpers.{
  space_at-position, space_at-write, replace_player-found, replace_space-eq-ok, write_player,
  write_space, sum_by-write, find_player-id, find_player-id, update-eq-ok, sum_by-refresh,
  get_player_by_id_from_state, get_player_by_id, find_player, cash,
}
use monopoly_be.Auction.{
  replace_player, update_player_net_worth, replace_space, refresh_all_net_worth, space_at,
  SpaceOwnership, phase_after_auction, PlayerState, AuctionState, resolve_auction, resolve_open,
  award,
}

-- What the highest bidder, if any, pays.
abbrev pub price : AuctionState → ℤ
price auction = elim auction.highest_bidder_id [ none ↦ pos 0 | some _ ↦ auction.highest_bid ]

award-cash :
    (s : GameState) (auction : AuctionState) (leader : Option ℕ) {players : List PlayerState}
    {spaces : List SpaceOwnership}
    → award s auction leader ≡ ok (players, spaces)
    → cash players +ℤ elim leader [ none ↦ pos 0 | some _ ↦ auction.highest_bid ] ≡ cash s.players
unfolding award cash get_player_by_id_from_state get_player_by_id
award-cash s auction none h =
    let same = ap (λ x. cash (x.0)) (ok-injective h) in rw (← same) (omega int_laws)
award-cash s auction (some i) {players} {spaces} h =
    let (p, found, k) = >>=-eq-ok (get_player_by_id_from_state s i) _ h in
    let found' : find_player s.players i ≡ some p =
      or_raise-eq-ok (find_player s.players i) _ found in
    let (o, _, k1) = >>=-eq-ok (space_at s.spaces auction.property_position) _ k in
    let (written, _, k2) =
      >>=-eq-ok
        (replace_space s.spaces auction.property_position (record o { owner_id = some p.id })) _
        k1 in
    let (q, e, k3) = >>=-eq-ok (update_player_net_worth _ written s.game_mode) _ k2 in
    let (paid, e', k4) = >>=-eq-ok (replace_player s.players p.id q) _ k3 in
    let (n, _, shape) = update-eq-ok _ written s.game_mode e in
    let same_id : p.id ≡ i = find_player-id s.players i found' in
    let paid_at : replace_player s.players i q ≡ ok paid =
      subst (λ j. replace_player s.players j q ≡ ok paid) same_id e' in
    let out = sum_by-write (λ x. x.balance) s.players i q found' in
    let balance : q.balance ≡ p.balance -ℤ auction.highest_bid = ap (λ x. x.balance) shape in
    let written_at : paid ≡ write_player s.players i q =
      ok-injective (sym paid_at ∙ replace_player-found s.players i q found') in
    let same : players ≡ write_player s.players i q =
      ap (λ x. x.0) (sym (ok-injective k4)) ∙ written_at in
    let total : cash (write_player s.players i q) +ℤ auction.highest_bid ≡ cash s.players =
      omega (int_laws, same_parts out, same_parts balance) in
    subst (λ x. cash x +ℤ auction.highest_bid ≡ cash s.players) (sym same) total

further :
    (streak : ℕ)
    → phase_after_auction streak ≡ (if streak == 0 then TurnPhase.post_roll else TurnPhase.pre_roll)
unfolding phase_after_auction
further streak = ground arith

-- The resolution of an auction that returns takes exactly the highest bid out of the players' money where somebody
-- bid, and nothing where nobody did, and closes the auction; the phase is `post_roll` where no doubles are
-- pending, and `pre_roll`, for a further roll, where some are.
pub resolve_auction-cash :
    (s : GameState) {auction : AuctionState} {s' : GameState}
    → s.auction ≡ some auction
    → resolve_auction s ≡ ok s'
    → (cash s'.players +ℤ price auction ≡ cash s.players)
      × (s'.auction ≡ none)
      × (s'.turn.phase
          ≡ (if s.turn.doubles_streak == 0 then TurnPhase.post_roll else TurnPhase.pre_roll))
unfolding resolve_auction resolve_open phase_after_auction cash
resolve_auction-cash s {auction} {s'} open_auction h =
    let k : resolve_open s (some auction) ≡ ok s' =
      subst (λ a. resolve_open s a ≡ ok s') open_auction h in
    let ((players, spaces), e, k1) = >>=-eq-ok (award s auction auction.highest_bidder_id) _ k in
    let (refreshed, r, k2) = >>=-eq-ok (refresh_all_net_worth players spaces s.game_mode) _ k1 in
    let total = award-cash s auction auction.highest_bidder_id e in
    let same = sum_by-refresh (λ x. x.balance) players spaces s.game_mode (λ x n. refl) r in
    let shape = ok-injective k2 in
    (
      rw (← shape, same) total,
      ap (λ x. x.auction) (sym shape),
      ap (λ x. x.turn.phase) (sym shape) ∙ further s.turn.doubles_streak,
    )

award-owner :
    (s : GameState) (auction : AuctionState) (i : ℕ) {players : List PlayerState}
    {spaces : List SpaceOwnership}
    → award s auction (some i) ≡ ok (players, spaces)
    → (o : SpaceOwnership) × (space_at s.spaces auction.property_position ≡ ok o)
      × (space_at spaces auction.property_position ≡ ok (record o { owner_id = some i }))
unfolding award get_player_by_id_from_state get_player_by_id
award-owner s auction i {players} {spaces} h =
    let n = auction.property_position in
    let (p, found, k) = >>=-eq-ok (get_player_by_id_from_state s i) _ h in
    let found' : find_player s.players i ≡ some p =
      or_raise-eq-ok (find_player s.players i) _ found in
    let (o, at, k1) = >>=-eq-ok (space_at s.spaces n) _ k in
    let (written, w, k2) =
      >>=-eq-ok (replace_space s.spaces n (record o { owner_id = some p.id })) _ k1 in
    let (q, e, k3) = >>=-eq-ok (update_player_net_worth _ written s.game_mode) _ k2 in
    let (paid, e', k4) = >>=-eq-ok (replace_player s.players p.id q) _ k3 in
    let same_id : p.id ≡ i = find_player-id s.players i found' in
    let won = record o { owner_id = some p.id } in
    let same : spaces ≡ write_space s.spaces n won =
      ap (λ x. x.1) (sym (ok-injective k4)) ∙ replace_space-eq-ok s.spaces n won w in
    let there : space_at (write_space s.spaces n won) n ≡ ok won =
      space_at-write s.spaces n n won (space_at-position s.spaces n at) at ∙ ground arith in
    (
      o,
      at,
      subst (λ x. space_at x n ≡ ok (record o { owner_id = some i })) (sym same)
          (there ∙ ap (λ j. ok (record o { owner_id = some j })) same_id),
    )

-- The resolution of an auction with a highest bidder makes that player the owner of the property and changes nothing
-- else of its ownership record.
pub resolve_auction-owner :
    (s : GameState) (i : ℕ) {auction : AuctionState} {s' : GameState}
    → s.auction ≡ some auction
    → auction.highest_bidder_id ≡ some i
    → resolve_auction s ≡ ok s'
    → (o : SpaceOwnership) × (space_at s.spaces auction.property_position ≡ ok o)
      × (space_at s'.spaces auction.property_position ≡ ok (record o { owner_id = some i }))
unfolding resolve_auction resolve_open
resolve_auction-owner s i {auction} {s'} open_auction leads h =
    let k : resolve_open s (some auction) ≡ ok s' =
      subst (λ a. resolve_open s a ≡ ok s') open_auction h in
    let ((players, spaces), e, k1) = >>=-eq-ok (award s auction auction.highest_bidder_id) _ k in
    let (refreshed, r, k2) = >>=-eq-ok (refresh_all_net_worth players spaces s.game_mode) _ k1 in
    let (o, at, there) =
      award-owner s auction i (subst (λ l. award s auction l ≡ ok (players, spaces)) leads e) in
    (
      o,
      at,
      subst (λ x. space_at x auction.property_position ≡ ok (record o { owner_id = some i }))
          (ap (λ x. x.spaces) (ok-injective k2)) there,
    )
