-- ===== src/Auction.antt =====
-- src/domain/game/rules/auction.py: opening an auction, bids, the resolution and the timer.
pub mod Award
pub mod Bids
use monopoly_be.Prelude.{
  ℕ, Bool, true, false, not, ◌&&◌, ◌||◌, Option, none, some, List, [], ◌∷◌, ◌++◌, ltb,
  if◌then◌else◌, sorted, dedup, ℤ, pos, ◌-ℤ◌, ltb_ℤ, leb_ℤ, max_ℤ, Result, ok, err, illegal_move,
  raise_if, ◌>>=◌, ◌>>◌,
}
use monopoly_be.Schema.{
  TurnPhase, is_phase, PlayerState, SpaceOwnership, AuctionBid, AuctionState, GameState,
}
use monopoly_be.Board.{auction_duration_ms}
use monopoly_be.Helpers.{
  get_player_by_id_from_state, refresh_all_net_worth, replace_player, replace_space, space_at,
  update_player_net_worth,
}

unfoldable pub start_auction : GameState → ℕ → ℤ → GameState
start_auction state property_position now_ms = record state {
  auction = some (record {
    property_position = property_position;
    bids = [];
    highest_bid = pos 0;
    highest_bidder_id = none;
    time_remaining_ms = auction_duration_ms;
    started_at_ms = now_ms;
  });
  turn = record (state.turn) { phase = TurnPhase.auction; pending_buy_position = none };
}

unfoldable pub record_bid : AuctionState → ℕ → ℤ → AuctionState
record_bid auction player_id amount = record auction {
  bids = auction.bids ++ record { player_id = player_id; amount = amount } ∷ [];
  highest_bid = amount;
  highest_bidder_id = some player_id;
}

bid_on : GameState → Option AuctionState → ℕ → ℤ → Result GameState
unfolding record_bid
bid_on state none player_id amount = err (illegal_move "no active auction")
bid_on state (some auction) player_id amount = do
  raise_if (not (is_phase state.turn.phase TurnPhase.auction)) (illegal_move "not in auction phase")
  player ← get_player_by_id_from_state state player_id
  raise_if (player.is_bankrupt || ltb_ℤ player.balance amount)
      (illegal_move "insufficient funds for bid")
  raise_if (leb_ℤ amount auction.highest_bid) (illegal_move "bid must exceed current highest bid")
  ok (record state { auction = some (record_bid auction player_id amount) })

unfoldable pub place_bid : GameState → ℕ → ℤ → Result GameState
unfolding bid_on
place_bid state player_id amount = bid_on state state.auction player_id amount

-- What the highest bidder, if any, gets and pays: the new players and spaces.
award : GameState → AuctionState → Option ℕ → Result (List PlayerState × List SpaceOwnership)
award state auction none = ok (state.players, state.spaces)
award state auction (some bidder_id) = do
  bidder ← get_player_by_id_from_state state bidder_id
  ownership ← space_at state.spaces auction.property_position
  spaces ←
      replace_space state.spaces auction.property_position
        (record ownership { owner_id = some bidder.id })
  updated ←
      update_player_net_worth
        (record bidder {
          balance = bidder.balance -ℤ auction.highest_bid;
          owned_positions =
              sorted (dedup (bidder.owned_positions ++ auction.property_position ∷ []));
        })
        spaces state.game_mode
  players ← replace_player state.players bidder.id updated
  ok (players, spaces)

-- A doubles roll that was deferred by the purchase is granted after it.
unfoldable pub phase_after_auction : ℕ → TurnPhase
phase_after_auction streak = if ltb 0 streak then TurnPhase.pre_roll else TurnPhase.post_roll

resolve_open : GameState → Option AuctionState → Result GameState
unfolding award phase_after_auction
resolve_open state none = ok state
resolve_open state (some auction) = do
  awarded ← award state auction auction.highest_bidder_id
  refreshed ← refresh_all_net_worth awarded.0 awarded.1 state.game_mode
  ok (record state {
    players = refreshed;
    spaces = awarded.1;
    auction = none;
    turn = record (state.turn) { phase = phase_after_auction state.turn.doubles_streak };
  })

unfoldable pub resolve_auction : GameState → Result GameState
unfolding resolve_open
resolve_auction state = resolve_open state state.auction

remaining : Option AuctionState → ℤ → ℤ
remaining none now_ms = pos 0
remaining (some auction) now_ms =
    max_ℤ (pos 0) (auction.time_remaining_ms -ℤ (now_ms -ℤ auction.started_at_ms))

unfoldable pub auction_time_remaining : GameState → ℤ → ℤ
unfolding remaining
auction_time_remaining state now_ms = remaining state.auction now_ms

abbrev is_open : Option AuctionState → Bool
is_open none = false
is_open (some _) = true

unfoldable pub is_auction_expired : GameState → ℤ → Bool
unfolding auction_time_remaining
is_auction_expired state now_ms =
    is_open state.auction && leb_ℤ (auction_time_remaining state now_ms) (pos 0)
