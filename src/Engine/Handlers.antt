-- ===== src/Engine/Handlers.antt =====
-- src/domain/game/engine.py: the handlers of the other commands.
use monopoly_be.Prelude.{
  ℕ, ◌+◌, ◌%◌, Bool, true, false, not, Option, none, some, List, [], ◌∷◌, ◌++◌, ◌==◌, ltb, leb,
  if◌then◌else◌, is_some, length, get_elem?, sorted, ℤ, pos, ◌-ℤ◌, ltb_ℤ, leb_ℤ, Error, Result, ok,
  err, illegal_move, index_error, or_raise, raise_if, ◌>>=◌, ◌>>◌,
}
use monopoly_be.Schema.{
  SpaceOwnership, CardKind, TurnPhase, is_phase, phase_in, PlayerState, TurnState, BankruptcyState,
  GameState, GameEvent, property_bought, buy_declined, turn_ended, player_surrendered,
  turn_timed_out, TradeState, SystemCommand, advance_auction, expire_trade, turn_timeout,
}
use monopoly_be.Board.{BoardSpace, get_board_space, is_purchasable, max_afk_strikes}
use monopoly_be.Helpers.{
  get_player_by_id_from_state, next_index, replace_player, replace_space, space_at,
  update_player_net_worth,
}
use monopoly_be.Cards.{return_jail_card_to_deck}
use monopoly_be.Auction.{start_auction, resolve_auction, is_auction_expired}
use monopoly_be.Bankruptcy.{resolve_bankruptcy}
use monopoly_be.Surrender.{resolve_surrender}
use monopoly_be.Timer.{is_turn_expired}
use monopoly_be.Trade
use monopoly_be.Turns.{survivors, turn_of, advance_turn_off_player}

abbrev pub Change : Type 0
Change = Result (GameState × List GameEvent)

-- The end of the two handlers that free a player from jail.
leave_jail : GameState → PlayerState → PlayerState → Change
leave_jail state player freed = do
  updated ← update_player_net_worth freed state.spaces state.game_mode
  players ← replace_player state.players player.id updated
  ok (
    record state { players = players; turn = record (state.turn) { phase = TurnPhase.pre_roll } },
    [],
  )

unfoldable pub handle_pay_jail_fine : GameState → (player_id : ℕ) → (jail_fine : ℤ) → Change
unfolding leave_jail
handle_pay_jail_fine state player_id jail_fine = do
  raise_if (not (is_phase state.turn.phase TurnPhase.jail_decision))
      (illegal_move "cannot pay jail fine in current phase")
  player ← get_player_by_id_from_state state player_id
  raise_if (not (is_some player.jail_status)) (illegal_move "not in jail")
  raise_if (ltb_ℤ player.balance jail_fine) (illegal_move "insufficient funds for jail fine")
  leave_jail state player
      (record player { jail_status = none; balance = player.balance -ℤ jail_fine })

unfoldable pub handle_use_jail_card : GameState → (player_id : ℕ) → Change
unfolding leave_jail
handle_use_jail_card state player_id = do
  raise_if (not (is_phase state.turn.phase TurnPhase.jail_decision))
      (illegal_move "cannot use jail card in current phase")
  player ← get_player_by_id_from_state state player_id
  raise_if (not (is_some player.jail_status)) (illegal_move "not in jail")
  raise_if (leb_ℤ player.get_out_of_jail_cards (pos 0))
      (illegal_move "no get out of jail free cards")
  leave_jail (return_jail_card_to_deck state CardKind.chance "chance_08") player (record player {
    jail_status = none;
    get_out_of_jail_cards = player.get_out_of_jail_cards -ℤ pos 1;
  })

-- `pending is None or pending != position`
unfoldable pub pending_is : Option ℕ → ℕ → Bool
pending_is none position = false
pending_is (some pending) position = pending == position

-- The phase after a purchase: a doubles roll that was deferred is granted.
unfoldable pub phase_after_buy : TurnState → TurnPhase
phase_after_buy turn = if ltb 0 turn.doubles_streak then TurnPhase.pre_roll else turn.phase

-- What a purchase finds: the ownership record, the buyer, the space and its price.
abbrev pub Purchase : Type 0
Purchase = SpaceOwnership × PlayerState × BoardSpace × ℕ

-- The checks of `_handle_buy_property`.
unfoldable pub check_purchase : GameState → (player_id position : ℕ) → Result Purchase
unfolding pending_is
check_purchase state player_id position = do
  raise_if (not (phase_in (TurnPhase.post_roll ∷ TurnPhase.must_pay_rent ∷ []) state.turn.phase))
      (illegal_move "cannot buy property in current phase")
  raise_if (not (pending_is state.turn.pending_buy_position position))
      (illegal_move "property is not available to buy")
  purchasable ← is_purchasable position state.game_mode
  raise_if (not purchasable) (illegal_move "space is not purchasable")
  ownership ← space_at state.spaces position
  raise_if (is_some ownership.owner_id) (illegal_move "property already owned")
  player ← get_player_by_id_from_state state player_id
  space ← get_board_space position state.game_mode
  price ← or_raise space.price (illegal_move "space has no price")
  raise_if (ltb_ℤ player.balance (pos price)) (illegal_move "insufficient funds")
  ok (ownership, player, space, price)

-- Its writes.
unfoldable pub purchase :
    GameState → (position : ℕ) → SpaceOwnership → PlayerState → BoardSpace → (price : ℕ) → Change
unfolding phase_after_buy
purchase state position ownership player space price = do
  spaces ← replace_space state.spaces position (record ownership { owner_id = some player.id })
  updated ←
      update_player_net_worth
        (record player {
          balance = player.balance -ℤ pos price;
          owned_positions = sorted (player.owned_positions ++ position ∷ []);
        })
        spaces state.game_mode
  players ← replace_player state.players player.id updated
  ok (
    record state {
      players = players;
      spaces = spaces;
      turn = record (state.turn) {
        pending_buy_position = none;
        phase = phase_after_buy state.turn;
      };
    },
    property_bought player.id player.display_name position space.name (pos price) ∷ [],
  )

unfoldable pub handle_buy_property : GameState → (player_id position : ℕ) → Change
unfolding check_purchase purchase
handle_buy_property state player_id position = do
  (ownership, player, space, price) ← check_purchase state player_id position
  purchase state position ownership player space price

unfoldable pub handle_pass_buy : GameState → (player_id : ℕ) → (now_ms : ℤ) → Change
handle_pass_buy state player_id now_ms = do
  raise_if (not (phase_in (TurnPhase.post_roll ∷ TurnPhase.must_pay_rent ∷ []) state.turn.phase))
      (illegal_move "cannot pass buy in current phase")
  pending ← or_raise state.turn.pending_buy_position (illegal_move "no property to pass on")
  player ← get_player_by_id_from_state state player_id
  space ← get_board_space pending state.game_mode
  ok (
    start_auction state pending now_ms,
    buy_declined player.id player.display_name pending space.name ∷ [],
  )

unfoldable pub handle_end_turn : GameState → (player_id : ℕ) → Change
handle_end_turn state player_id = do
  raise_if
      (not (
        phase_in
          (TurnPhase.post_roll ∷ TurnPhase.must_pay_rent ∷ TurnPhase.bankrupt_resolution ∷ [])
          state.turn.phase))
      (illegal_move "cannot end turn in current phase")
  raise_if (is_some state.turn.pending_buy_position)
      (illegal_move "must buy or pass on property before ending turn")
  raise_if (is_some state.bankruptcy) (illegal_move "must resolve bankruptcy before ending turn")
  let active_players = survivors state.players
  current_idx ← next_index active_players state.turn.current_player_id
  let next_idx = (current_idx + 1) % length active_players
  next_player ← or_raise (get_elem? active_players next_idx) index_error
  player ← get_player_by_id_from_state state player_id
  ok (
    record state {
      turn = turn_of state.turn next_player (if leb next_idx current_idx then 1 else 0);
    },
    turn_ended player_id player.display_name next_player.id next_player.display_name ∷ [],
  )

abbrev pub build_phases : List TurnPhase
build_phases = TurnPhase.pre_roll ∷ TurnPhase.post_roll ∷ TurnPhase.bankrupt_resolution ∷ []

-- The four handlers that guard an operation of building.py by `_BUILD_PHASES`.
unfoldable pub in_build_phase : GameState → Error → Result GameState → Change
in_build_phase state e operation = do
  raise_if (not (phase_in build_phases state.turn.phase)) e
  changed ← operation
  ok (changed, [])

-- The two tests of `_handle_declare_bankruptcy`.
check_debtor : Option BankruptcyState → ℕ → Result (Unit {0})
check_debtor none player_id = err (illegal_move "not in bankruptcy resolution")
check_debtor (some debt) player_id =
    raise_if (not (debt.debtor_id == player_id)) (illegal_move "not the debtor")

unfoldable pub handle_declare_bankruptcy : GameState → (player_id : ℕ) → Change
unfolding check_debtor
handle_declare_bankruptcy state player_id = do
  check_debtor state.bankruptcy player_id
  changed ← resolve_bankruptcy state player_id
  ok (changed, [])

unfoldable pub handle_surrender : GameState → (player_id : ℕ) → Change
handle_surrender state player_id = do
  player ← get_player_by_id_from_state state player_id
  raise_if player.is_bankrupt (illegal_move "player is already out of the game")
  changed ← resolve_surrender state player_id
  ok (changed, player_surrendered player.id player.display_name "voluntary" ∷ [])

unfoldable pub handle_turn_timeout : GameState → (now_ms : ℤ) → Change
handle_turn_timeout state now_ms = if not (is_turn_expired state now_ms) then ok (state, []) else do
  let current_id = state.turn.current_player_id
  player ← get_player_by_id_from_state state current_id
  let strikes = player.afk_strikes + 1
  players ← replace_player state.players current_id (record player { afk_strikes = strikes })
  let struck = record state { players = players }
  if leb max_afk_strikes strikes
      then (do
        changed ← resolve_surrender struck current_id
        ok (changed, player_surrendered current_id player.display_name "afk" ∷ []))
      else (do
        changed ← advance_turn_off_player struck current_id
        ok (changed, turn_timed_out current_id player.display_name strikes ∷ []))

-- `state.trade is None or state.trade.expires_at > now`
still_open : Option TradeState → ℤ → Bool
still_open none now = true
still_open (some trade) now = ltb_ℤ now trade.expires_at

-- `is_auction_expired` is false where there is no auction.
unfoldable pub handle_system : GameState → SystemCommand → (now_ms : ℤ) → Change
unfolding still_open
handle_system state advance_auction now_ms =
    if not (is_auction_expired state now_ms)
    then ok (state, [])
    else do changed ← resolve_auction state; ok (changed, [])
handle_system state expire_trade now_ms =
    if still_open state.trade now_ms then ok (state, []) else ok (Trade.expire_trade state, [])
handle_system state turn_timeout now_ms = handle_turn_timeout state now_ms
