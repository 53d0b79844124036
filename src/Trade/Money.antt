-- ===== src/Trade/Money.antt =====
-- trade.py (`_execute_trade`): money and jail cards change hands, and none is made or lost.
use monopoly_be.Prelude.{
  dedup, sorted, ℕ, ◌≡◌, ◌≢◌, refl, ap, ◌∙◌, sym, subst, none, some, List, arith, ℤ, ◌+ℤ◌, int_laws,
  same_parts, ok, >>=-eq-ok, or_raise-eq-ok, ok-injective,
}
use monopoly_be.Schema.{TradeOffer, TradeState, SpaceOwnership, GameState, PlayerState}
use monopoly_be.Helpers.{
  replace_player-found, sum_by-write, find_player-write, sum_by-refresh, write_player,
  refresh_all_net_worth, replace_player, get_player_by_id_from_state, get_player_by_id, find_player,
  cash, sum_by, find_player-id,
}
use monopoly_be.Trade.{
  move_positions, validate_trade_offer, transfer_offer, exchange, execute_trade,
}

-- The get-out-of-jail cards that the players hold.
unfoldable pub jail_cards : List PlayerState → ℤ
unfolding sum_by
jail_cards = sum_by (λ p. p.get_out_of_jail_cards)

-- Two players who differ at most in their properties.
abbrev SamePurse : PlayerState → PlayerState → Type 0
SamePurse p q =
    (q.id ≡ p.id) × (q.balance ≡ p.balance) × (q.get_out_of_jail_cards ≡ p.get_out_of_jail_cards)

transfer_offer-SamePurse :
    (giver receiver : PlayerState) (spaces : List SpaceOwnership) (offer : TradeOffer) (i : ℕ)
    {giver' receiver' : PlayerState} {spaces' : List SpaceOwnership}
    → transfer_offer giver receiver spaces offer i ≡ ok (giver', receiver', spaces')
    → SamePurse giver giver' × SamePurse receiver receiver'
unfolding transfer_offer
transfer_offer-SamePurse giver receiver spaces offer i {giver'} {receiver'} h =
    let (moved, _, k) =
      >>=-eq-ok
        (move_positions offer.positions (dedup giver.owned_positions)
          (dedup receiver.owned_positions) spaces i)
        _ h in
    let e = ok-injective k in
    let given : record giver { owned_positions = sorted (moved.0) } ≡ giver' = ap (λ x. x.0) e in
    let taken : record receiver { owned_positions = sorted (moved.1) } ≡ receiver' =
      ap (λ x. x.1) e in
    (
      (
        ap (λ x. x.id) (sym given),
        ap (λ x. x.balance) (sym given),
        ap (λ x. x.get_out_of_jail_cards) (sym given),
      ),
      (
        ap (λ x. x.id) (sym taken),
        ap (λ x. x.balance) (sym taken),
        ap (λ x. x.get_out_of_jail_cards) (sym taken),
      ),
    )

-- Both transfers of a trade.
transfers-SamePurse :
    (p q : PlayerState) (spaces : List SpaceOwnership) (trade : TradeState)
    {given taken : PlayerState × PlayerState × List SpaceOwnership}
    → transfer_offer p q spaces trade.proposer_offer trade.target_id ≡ ok given
    → transfer_offer (given.1) (given.0) (given.2) trade.target_request trade.proposer_id ≡ ok taken
    → SamePurse p (taken.1) × SamePurse q (taken.0)
transfers-SamePurse p q spaces trade {given} {taken} e1 e2 =
    let ((idp, bp, cp), (idq, bq, cq)) =
      transfer_offer-SamePurse p q spaces trade.proposer_offer trade.target_id {giver' = given.0}
        {receiver' = given.1} {spaces' = given.2} e1 in
    let ((idq', bq', cq'), (idp', bp', cp')) =
      transfer_offer-SamePurse (given.1) (given.0) (given.2) trade.target_request trade.proposer_id
        {giver' = taken.0} {receiver' = taken.1} {spaces' = taken.2} e2 in
    ((idp' ∙ idp, bp' ∙ bp, cp' ∙ cp), (idq' ∙ idq, bq' ∙ bq, cq' ∙ cq))

-- A weight of two players that one write after the other leaves the same in total.
two_writes :
    (w : PlayerState → ℤ) (players : List PlayerState) (i j : ℕ) {p q : PlayerState}
    (p' q' : PlayerState) {once twice : List PlayerState}
    → i ≢ j
    → find_player players i ≡ some p
    → find_player players j ≡ some q
    → p'.id ≡ i
    → replace_player players p.id p' ≡ ok once
    → replace_player once q.id q' ≡ ok twice
    → w p' +ℤ w q' ≡ w p +ℤ w q
    → sum_by w twice ≡ sum_by w players
two_writes w players i j {p} {q} p' q' {once} {twice} ne found found' id_p r1 r2 total =
    let still : find_player (write_player players i p') j ≡ some q =
      ground (arith, find_player-write players i j p' id_p found) in
    let first = sum_by-write w players i p' found in
    let second = sum_by-write w (write_player players i p') j q' still in
    let once_at : once ≡ write_player players i p' = ok-injective (
      sym (subst (λ k. replace_player players k p' ≡ ok once) (find_player-id players i found) r1)
      ∙ replace_player-found players i p' found) in
    let r2' : replace_player (write_player players i p') j q' ≡ ok twice =
      subst (λ x. replace_player x j q' ≡ ok twice) once_at
        (subst (λ k. replace_player once k q' ≡ ok twice) (find_player-id players j found') r2) in
    let written : twice ≡ write_player (write_player players i p') j q' =
      ok-injective (sym r2' ∙ replace_player-found (write_player players i p') j q' still) in
    ap (sum_by w) written ∙ omega (int_laws, same_parts first, same_parts second, same_parts total)

exchange-total :
    (trade : TradeState) (p q p2 q2 : PlayerState)
    → SamePurse p p2
    → SamePurse q q2
    → ((exchange trade p2 q2).0.balance +ℤ (exchange trade p2 q2).1.balance
        ≡ p.balance +ℤ q.balance)
      × ((exchange trade p2 q2).0.get_out_of_jail_cards
            +ℤ (exchange trade p2 q2).1.get_out_of_jail_cards
          ≡ p.get_out_of_jail_cards +ℤ q.get_out_of_jail_cards)
unfolding exchange
exchange-total trade p q p2 q2 (_, bp, cp) (_, bq, cq) =
    (omega (int_laws, same_parts bp, same_parts bq), omega (int_laws, same_parts cp, same_parts cq))

-- What an executed trade did: two players were written anew, with the totals of their money and of their cards kept.
record Exchanged (s s' : GameState) (i j : ℕ) : Type 0 where
  p : PlayerState
  q : PlayerState
  p' : PlayerState
  q' : PlayerState
  once : List PlayerState
  twice : List PlayerState
  found : find_player s.players i ≡ some p
  found' : find_player s.players j ≡ some q
  same_id : p'.id ≡ i
  first : replace_player s.players p.id p' ≡ ok once
  second : replace_player once q.id q' ≡ ok twice
  money : p'.balance +ℤ q'.balance ≡ p.balance +ℤ q.balance
  cards :
      p'.get_out_of_jail_cards +ℤ q'.get_out_of_jail_cards
      ≡ p.get_out_of_jail_cards +ℤ q.get_out_of_jail_cards
  spaces : List SpaceOwnership
  refreshed : refresh_all_net_worth twice spaces s.game_mode ≡ ok s'.players
  closed : s'.trade ≡ none

execute_trade-Exchanged :
    (s : GameState) (trade : TradeState) {s' : GameState}
    → execute_trade s trade ≡ ok s'
    → Exchanged s s' trade.proposer_id trade.target_id
unfolding execute_trade exchange get_player_by_id_from_state get_player_by_id
execute_trade-Exchanged s trade {s'} h =
    let i = trade.proposer_id in
    let j = trade.target_id in
    let (_, _, k1) = >>=-eq-ok (validate_trade_offer s i trade.proposer_offer) _ h in
    let (_, _, k2) = >>=-eq-ok (validate_trade_offer s j trade.target_request) _ k1 in
    let (p, found, k3) = >>=-eq-ok (get_player_by_id_from_state s i) _ k2 in
    let (q, found', k4) = >>=-eq-ok (get_player_by_id_from_state s j) _ k3 in
    let at = or_raise-eq-ok (find_player s.players i) _ found in
    let at' = or_raise-eq-ok (find_player s.players j) _ found' in
    let (given, e1, k5) = >>=-eq-ok (transfer_offer p q s.spaces trade.proposer_offer j) _ k4 in
    let (taken, e2, k6) =
      >>=-eq-ok (transfer_offer (given.1) (given.0) (given.2) trade.target_request i) _ k5 in
    let (same, same') = transfers-SamePurse p q s.spaces trade e1 e2 in
    let (money, cards) = exchange-total trade p q (taken.1) (taken.0) same same' in
    let (once, r1, k7) =
      >>=-eq-ok (replace_player s.players p.id ((exchange trade (taken.1) (taken.0)).0)) _ k6 in
    let (twice, r2, k8) =
      >>=-eq-ok (replace_player once q.id ((exchange trade (taken.1) (taken.0)).1)) _ k7 in
    let (refreshed, r, k9) = >>=-eq-ok (refresh_all_net_worth twice (taken.2) s.game_mode) _ k8 in
    record {
      p = p;
      q = q;
      p' = (exchange trade (taken.1) (taken.0)).0;
      q' = (exchange trade (taken.1) (taken.0)).1;
      once = once;
      twice = twice;
      found = at;
      found' = at';
      same_id = same.0 ∙ find_player-id s.players i at;
      first = r1;
      second = r2;
      money = money;
      cards = cards;
      spaces = taken.2;
      refreshed =
          subst (λ x. refresh_all_net_worth twice (taken.2) s.game_mode ≡ ok x)
            (ap (λ x. x.players) (ok-injective k9)) r;
      closed = ap (λ x. x.trade) (sym (ok-injective k9));
    }

-- A trade between two different players that is carried out leaves the players' money in total, and their
-- get-out-of-jail cards in total, as they were, and closes the trade.
pub execute_trade-cash :
    (s : GameState) (trade : TradeState) {s' : GameState}
    → trade.proposer_id ≢ trade.target_id
    → execute_trade s trade ≡ ok s'
    → (cash s'.players ≡ cash s.players)
      × (jail_cards s'.players ≡ jail_cards s.players)
      × (s'.trade ≡ none)
unfolding cash jail_cards
execute_trade-cash s trade ne h =
    let x = execute_trade-Exchanged s trade h in
    let total : (w : PlayerState → ℤ)
        → w x.p' +ℤ w x.q' ≡ w x.p +ℤ w x.q
        → sum_by w x.twice ≡ sum_by w s.players =
      λ w.
        two_writes w s.players trade.proposer_id trade.target_id x.p' x.q' ne x.found x.found'
          x.same_id x.first x.second in
    (
      sum_by-refresh (λ p. p.balance) x.twice x.spaces s.game_mode (λ p n. refl) x.refreshed
          ∙ total (λ p. p.balance) x.money,
      sum_by-refresh (λ p. p.get_out_of_jail_cards) x.twice x.spaces s.game_mode (λ p n. refl)
            x.refreshed
          ∙ total (λ p. p.get_out_of_jail_cards) x.cards,
      x.closed,
    )
