-- ===== src/Tests/Deals.antt =====
-- Auctions, trades and purchases on the small games.
use monopoly_be.Prelude.{ℕ, ◌≡◌, refl, none, some, List, [], ◌∷◌, arith, pos, ◌+ℤ◌, Result, ok, err}
use monopoly_be.Schema.{
  GameState, PlayerState, AuctionState, TurnPhase, SpaceOwnership, TradeState, TradeStatus,
  GameEvent,
}
use monopoly_be.Helpers.{
  cash, find_player, space_at, get_player_by_id_from_state, find_ownership, replace_space,
  update_player_net_worth, compute_net_worth, worth_of_positions, write_space, replace_player,
  find_index, refresh_all_net_worth,
}
use monopoly_be.Board.{BoardSpace, get_board_space, is_purchasable}
use monopoly_be.Auction.{resolve_auction}
use monopoly_be.Auction.Award.{resolve_auction-cash, resolve_auction-owner}
use monopoly_be.Trade.{execute_trade}
use monopoly_be.Trade.Money.{jail_cards, execute_trade-cash}
use monopoly_be.Engine.{handle_buy_property}
use monopoly_be.Engine.Purchase.{handle_buy_property_lem, IsOffered}
use monopoly_be.Tests.Fixture.{start, after, three, board, opening_turn}

abbrev first_bid : AuctionState
first_bid = record {
  property_position = 7;
  bids = record { player_id = 10; amount = pos 20 } ∷ [];
  highest_bid = pos 20;
  highest_bidder_id = some 10;
  time_remaining_ms = pos 30000;
  started_at_ms = pos 0;
}

abbrev bidding : GameState
bidding = record start { auction = some first_bid; turn = opening_turn TurnPhase.auction 10 none }

resolve_auction-cash_example :
    (cash (after (resolve_auction bidding)).players +ℤ pos 20 ≡ cash three)
    × ((after (resolve_auction bidding)).auction ≡ none)
    × ((after (resolve_auction bidding)).turn.phase ≡ TurnPhase.post_roll)
unfolding resolve_auction get_player_by_id_from_state find_player space_at find_ownership
    replace_space update_player_net_worth compute_net_worth worth_of_positions get_board_space
    write_space replace_player find_index refresh_all_net_worth
resolve_auction-cash_example = resolve_auction-cash bidding refl refl

resolve_auction-owner_example :
    (o : SpaceOwnership) × (space_at board 7 ≡ ok o)
    × (space_at (after (resolve_auction bidding)).spaces 7 ≡ ok (record o { owner_id = some 10 }))
unfolding resolve_auction get_player_by_id_from_state find_player space_at find_ownership
    replace_space update_player_net_worth compute_net_worth worth_of_positions get_board_space
    write_space replace_player find_index refresh_all_net_worth
resolve_auction-owner_example = resolve_auction-owner bidding 10 refl refl refl

abbrev deal : TradeState
deal = record {
  id = 1;
  proposer_id = 10;
  target_id = 20;
  proposer_offer = record { money = pos 100; positions = 6 ∷ []; get_out_of_jail_cards = pos 0 };
  target_request = record { money = pos 250; positions = []; get_out_of_jail_cards = pos 1 };
  status = TradeStatus.pending;
  expires_at = pos 60000;
}

execute_trade-cash_example :
    (cash (after (execute_trade start deal)).players ≡ cash three)
    × (jail_cards (after (execute_trade start deal)).players ≡ jail_cards three)
    × ((after (execute_trade start deal)).trade ≡ none)
unfolding execute_trade get_player_by_id_from_state find_player space_at find_ownership
    replace_space replace_player find_index refresh_all_net_worth update_player_net_worth
    compute_net_worth worth_of_positions get_board_space write_space
execute_trade-cash_example = execute_trade-cash start deal (omega arith) refl

abbrev bought : Result (GameState × List GameEvent) → GameState
bought (ok r) = r.0
bought (err e) = start

handle_buy_property_lem_example :
    (o : SpaceOwnership) × (p : PlayerState) × (space : BoardSpace) × (price : ℕ) × IsOffered start
      10 7 o p space price
    × (space_at (bought (handle_buy_property start 10 7)).spaces 7
        ≡ ok (record o { owner_id = some 10 }))
    × (cash (bought (handle_buy_property start 10 7)).players +ℤ pos price ≡ cash three)
    × ((bought (handle_buy_property start 10 7)).turn.pending_buy_position ≡ none)
unfolding handle_buy_property is_purchasable space_at find_ownership get_player_by_id_from_state
    find_player replace_space update_player_net_worth compute_net_worth worth_of_positions
    write_space replace_player find_index
handle_buy_property_lem_example = handle_buy_property_lem start 10 7 refl
