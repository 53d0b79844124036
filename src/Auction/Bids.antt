-- ===== src/Auction/Bids.antt =====
-- auction.py (`start_auction`, `place_bid`): the bids of an auction, and what they record.
use monopoly_be.Prelude.{
  ◌<ℤ◌, ◌≡◌, ℕ, refl, false, not, Option, none, some, List, [], ◌∷◌, ◌++◌, ℤ, pos, ok, raise_if,
}
use monopoly_be.Schema.{GameState}
use monopoly_be.Auction.{
  not, raise_if, false, none, pos, ok, [], Option, some, AuctionBid, AuctionState, ℤ, List,
  start_auction,
}

-- The highest bid and the highest bidder that a list of bids, each above those before it, leads to.
pub data Bidding : List AuctionBid → ℤ → Option ℕ → Type 0 where
  opened : Bidding [] (pos 0) none
  raised :
      (bids : List AuctionBid) (high amount : ℤ) (leader : Option ℕ) (i : ℕ)
      → Bidding bids high leader
      → high <ℤ amount
      → Bidding (bids ++ record { player_id = i; amount = amount } ∷ []) amount (some i)

abbrev pub IsBidding : AuctionState → Type 0
IsBidding auction = Bidding auction.bids auction.highest_bid auction.highest_bidder_id

-- A new auction has no bids.
start_auction-IsBidding :
    (s : GameState) (n : ℕ) (now : ℤ)
    → (auction : AuctionState) × ((start_auction s n now).auction ≡ some auction)
      × IsBidding auction
unfolding start_auction
start_auction-IsBidding s n now = (_, refl, opened)
