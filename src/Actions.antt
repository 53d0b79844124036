-- ===== src/Actions.antt =====
-- src/domain/game/rules/actions.py: what a player may do in the present phase.
use monopoly_be.Prelude.{
  ℕ, Bool, true, false, not, ◌&&◌, Option, none, some, ◌==◌, ltb, if◌then◌else◌, is_some, pos,
  ltb_ℤ, leb_ℤ, Result, ok, ◌>>=◌,
}
use monopoly_be.Schema.{
  TurnPhase, is_in_progress, ActionSet, no_actions, PlayerState, AuctionState, GameState,
}
use monopoly_be.Board.{jail_fine, max_trade_offers_per_turn}
use monopoly_be.Helpers.{get_player_by_id_from_state, space_at, owned_by}
use monopoly_be.Building.{has_any_buildable, has_any_mortgageable, has_any_unmortgageable}

may_bid : PlayerState → Option AuctionState → ℕ → Bool
may_bid player none pid = false
may_bid player (some auction) pid =
    not player.is_bankrupt
    && not (owned_by auction.highest_bidder_id pid)
    && ltb_ℤ auction.highest_bid player.balance

-- `pending is not None and space_at(state.spaces, pending).owner_id is None`
may_buy : GameState → Option ℕ → Result Bool
may_buy state none = ok false
may_buy state (some pending) = do
  ownership ← space_at state.spaces pending
  ok (not (is_some ownership.owner_id))

jail_actions : PlayerState → ActionSet
jail_actions player = record no_actions {
  can_roll = true;
  can_pay_jail_fine = leb_ℤ jail_fine player.balance;
  can_use_jail_card = ltb_ℤ (pos 0) player.get_out_of_jail_cards;
  can_surrender = true;
}

-- The actions of the player whose turn it is, by phase.
current_actions : TurnPhase → GameState → PlayerState → ℕ → Result ActionSet
unfolding may_buy jail_actions
current_actions TurnPhase.jail_decision state player pid = ok (jail_actions player)
current_actions TurnPhase.pre_roll state player pid = do
  can_build ← has_any_buildable state pid
  can_mortgage ← has_any_mortgageable state pid
  can_unmortgage ← has_any_unmortgageable state pid
  ok (record no_actions {
    can_roll = true;
    can_build = can_build;
    can_mortgage = can_mortgage;
    can_unmortgage = can_unmortgage;
    can_trade =
        not (is_some state.trade)
        && is_in_progress state.status
        && ltb state.turn.trade_offers_made max_trade_offers_per_turn;
    can_surrender = true;
  })
current_actions TurnPhase.post_roll state player pid = do
  can_buy ← may_buy state state.turn.pending_buy_position
  can_build ← has_any_buildable state pid
  can_mortgage ← has_any_mortgageable state pid
  can_unmortgage ← has_any_unmortgageable state pid
  ok (record no_actions {
    can_buy = can_buy;
    can_build = can_build;
    can_mortgage = can_mortgage;
    can_unmortgage = can_unmortgage;
    can_trade =
        not (is_some state.trade) && ltb state.turn.trade_offers_made max_trade_offers_per_turn;
    can_end_turn = not (is_some state.turn.pending_buy_position);
    can_surrender = true;
  })
current_actions TurnPhase.must_pay_rent state player pid =
    ok (record no_actions { can_end_turn = true; can_surrender = true })
current_actions TurnPhase.bankrupt_resolution state player pid = do
  can_build ← has_any_buildable state pid
  can_mortgage ← has_any_mortgageable state pid
  can_unmortgage ← has_any_unmortgageable state pid
  ok (record no_actions {
    can_build = can_build;
    can_mortgage = can_mortgage;
    can_unmortgage = can_unmortgage;
    can_declare_bankruptcy = true;
    can_end_turn = not (is_some state.bankruptcy);
  })
current_actions _ state player pid = ok no_actions

-- The phases that come before the test of the turn.
actions_in : TurnPhase → GameState → PlayerState → ℕ → Result ActionSet
unfolding may_bid current_actions
actions_in TurnPhase.auction state player pid =
    ok (record no_actions { can_bid = may_bid player state.auction pid })
actions_in TurnPhase.trade_negotiation state player pid = ok no_actions
actions_in phase state player pid =
    if pid == state.turn.current_player_id
    then current_actions phase state player pid
    else ok no_actions

-- `player_id or state.turn.current_player_id`; an id is never the empty text.
acting : Option ℕ → ℕ → ℕ
acting none current_player_id = current_player_id
acting (some player_id) current_player_id = player_id

unfoldable pub compute_actions : GameState → Option ℕ → Result ActionSet
unfolding actions_in acting
compute_actions state player_id = do
  let pid = acting player_id state.turn.current_player_id
  player ← get_player_by_id_from_state state pid
  actions_in state.turn.phase state player pid

unfoldable pub with_actions : GameState → Option ℕ → Result GameState
unfolding compute_actions
with_actions state player_id = do
  actions ← compute_actions state player_id
  ok (record state { turn = record (state.turn) { actions_available = actions } })
