-- ===== src/Trade.antt =====
-- src/domain/game/rules/trade.py: offers, answers, and the exchange.
pub mod Money
use monopoly_be.Prelude.{
  ℕ, ◌+◌, Bool, true, false, not, ◌&&◌, ◌||◌, Option, none, some, List, [], ◌∷◌, ◌==◌, ltb, leb,
  if◌then◌else◌, is_some, contains, sorted, dedup, discard, ℤ, ◌+ℤ◌, ◌-ℤ◌, ltb_ℤ, Result, ok, err,
  illegal_move, raise_if, ◌>>=◌, ◌>>◌,
}
use monopoly_be.Schema.{
  TurnPhase, TradeStatus, TradeResponse, PlayerState, SpaceOwnership, TradeOffer, TradeState,
  GameState,
}
use monopoly_be.Board.{max_trade_offers_per_turn, trade_duration_ms}
use monopoly_be.Helpers.{
  get_player_by_id_from_state, replace_player, refresh_all_net_worth, replace_space, space_at,
  owned_by,
}

-- The loop of `validate_trade_offer` over the positions.
unfoldable pub validate_positions : List ℕ → List SpaceOwnership → ℕ → Result (Unit {0})
validate_positions [] spaces player_id = ok tt
validate_positions (p ∷ positions) spaces player_id = do
  ownership ← space_at spaces p
  raise_if (not (owned_by ownership.owner_id player_id))
      (illegal_move "cannot trade property you do not own")
  raise_if (ltb 0 ownership.houses || ownership.has_hotel)
      (illegal_move "must sell buildings before trading property")
  validate_positions positions spaces player_id

unfoldable pub validate_trade_offer : GameState → ℕ → TradeOffer → Result (Unit {0})
unfolding validate_positions
validate_trade_offer state player_id offer = do
  player ← get_player_by_id_from_state state player_id
  raise_if (ltb_ℤ player.balance offer.money) (illegal_move "insufficient money in trade offer")
  raise_if (ltb_ℤ player.get_out_of_jail_cards offer.get_out_of_jail_cards)
      (illegal_move "insufficient jail cards in trade offer")
  validate_positions offer.positions state.spaces player_id

-- `new_id` is the `uuid4().hex` of the call.
unfoldable pub propose_trade :
    GameState
    → (proposer_id target_id : ℕ) → (proposer_offer target_request : TradeOffer) → ℤ
    → ℕ
    → Result GameState
unfolding validate_trade_offer
propose_trade state proposer_id target_id proposer_offer target_request clock_now new_id = do
  raise_if (proposer_id == target_id) (illegal_move "cannot trade with yourself")
  raise_if (is_some state.trade) (illegal_move "a trade is already in progress")
  raise_if (leb max_trade_offers_per_turn state.turn.trade_offers_made)
      (illegal_move "trade offer limit reached for this turn")
  get_player_by_id_from_state state target_id
  validate_trade_offer state proposer_id proposer_offer
  validate_trade_offer state target_id target_request
  ok (record state {
    trade = some (record {
      id = new_id;
      proposer_id = proposer_id;
      target_id = target_id;
      proposer_offer = proposer_offer;
      target_request = target_request;
      status = TradeStatus.pending;
      expires_at = clock_now +ℤ trade_duration_ms;
    });
    turn = record (state.turn) {
      phase = TurnPhase.trade_negotiation;
      trade_offers_made = state.turn.trade_offers_made + 1;
    };
  })

-- The loop of `_transfer_offer`: the giver's set, the receiver's set and the spaces.
unfoldable pub move_positions :
    List ℕ
    → (giver_owned receiver_owned : List ℕ) → List SpaceOwnership
    → ℕ
    → Result (List ℕ × List ℕ × List SpaceOwnership)
move_positions [] giver_owned receiver_owned spaces receiver_id =
    ok (giver_owned, receiver_owned, spaces)
move_positions (p ∷ positions) giver_owned receiver_owned spaces receiver_id = do
  ownership ← space_at spaces p
  written ← replace_space spaces p (record ownership { owner_id = some receiver_id })
  move_positions positions (discard p giver_owned)
      (if contains receiver_owned p then receiver_owned else p ∷ receiver_owned) written receiver_id

-- `_transfer_offer`, less its unused `giver_id`.
unfoldable pub transfer_offer :
    (giver receiver : PlayerState)
    → List SpaceOwnership
    → TradeOffer
    → ℕ
    → Result (PlayerState × PlayerState × List SpaceOwnership)
unfolding move_positions
transfer_offer giver receiver spaces offer receiver_id = do
  moved ←
      move_positions offer.positions (dedup giver.owned_positions) (dedup receiver.owned_positions)
        spaces receiver_id
  ok (
    record giver { owned_positions = sorted (moved.0) },
    record receiver { owned_positions = sorted (moved.1) },
    moved.2,
  )

-- The money and the jail cards of the two parties, after the positions.
exchange : TradeState → (proposer target : PlayerState) → PlayerState × PlayerState
exchange trade proposer target =
    let net_delta = trade.target_request.money -ℤ trade.proposer_offer.money in
    let jail_delta =
      trade.target_request.get_out_of_jail_cards -ℤ trade.proposer_offer.get_out_of_jail_cards in
    (
      record proposer {
        balance = proposer.balance +ℤ net_delta;
        get_out_of_jail_cards = proposer.get_out_of_jail_cards +ℤ jail_delta;
      },
      record target {
        balance = target.balance -ℤ net_delta;
        get_out_of_jail_cards = target.get_out_of_jail_cards -ℤ jail_delta;
      },
    )

-- `_execute_trade`
unfoldable pub execute_trade : GameState → TradeState → Result GameState
unfolding validate_trade_offer transfer_offer exchange
execute_trade state trade = do
  validate_trade_offer state trade.proposer_id trade.proposer_offer
  validate_trade_offer state trade.target_id trade.target_request
  proposer ← get_player_by_id_from_state state trade.proposer_id
  target ← get_player_by_id_from_state state trade.target_id
  given ← transfer_offer proposer target state.spaces trade.proposer_offer trade.target_id
  taken ← transfer_offer given.1 given.0 given.2 trade.target_request trade.proposer_id
  let parties = exchange trade taken.1 taken.0
  once ← replace_player state.players proposer.id parties.0
  twice ← replace_player once target.id parties.1
  refreshed ← refresh_all_net_worth twice taken.2 state.game_mode
  ok (record state {
    players = refreshed;
    spaces = taken.2;
    trade = none;
    turn = record (state.turn) { phase = TurnPhase.post_roll };
  })

unfoldable pub close_trade : GameState → GameState
close_trade state = record state {
  trade = none;
  turn = record (state.turn) { phase = TurnPhase.post_roll };
}

counter : GameState → TradeState → ℕ → Option TradeOffer → ℤ → Result GameState
unfolding validate_trade_offer
counter state trade player_id none clock_now = err (illegal_move "invalid counter offer")
counter state trade player_id (some counter_offer) clock_now = do
  raise_if (not (player_id == trade.target_id)) (illegal_move "invalid counter offer")
  validate_trade_offer state trade.proposer_id counter_offer
  ok (record state {
    trade = some (record trade {
      target_request = counter_offer;
      status = TradeStatus.countered;
      expires_at = clock_now +ℤ trade_duration_ms;
    });
  })

answer : GameState → TradeState → ℕ → TradeResponse → Option TradeOffer → ℤ → Result GameState
unfolding execute_trade close_trade counter
answer state trade player_id TradeResponse.reject counter_offer clock_now = ok (close_trade state)
answer state trade player_id TradeResponse.counter counter_offer clock_now =
    counter state trade player_id counter_offer clock_now
answer state trade player_id TradeResponse.accept counter_offer clock_now = do
  raise_if (not (player_id == trade.proposer_id || player_id == trade.target_id))
      (illegal_move "not a party to this trade")
  execute_trade state trade

respond :
    GameState → Option TradeState → ℕ → ℕ → TradeResponse → Option TradeOffer → ℤ → Result GameState
unfolding answer
respond state none player_id trade_id response counter_offer clock_now =
    err (illegal_move "trade not found")
respond state (some trade) player_id trade_id response counter_offer clock_now = do
  raise_if (not (trade.id == trade_id)) (illegal_move "trade not found")
  answer state trade player_id response counter_offer clock_now

unfoldable pub respond_trade :
    GameState → (player_id trade_id : ℕ) → TradeResponse → Option TradeOffer → ℤ → Result GameState
unfolding respond
respond_trade state player_id trade_id response counter_offer clock_now =
    respond state state.trade player_id trade_id response counter_offer clock_now

unfoldable pub expire_trade : GameState → GameState
unfolding close_trade
expire_trade state = if is_some state.trade then close_trade state else state
