-- ===== src/Engine/Apply.antt =====
-- src/domain/game/engine.py: `apply`, which dispatches a command and then settles debts, looks for a
-- winner, sets the deadline, logs, and computes the actions.
use monopoly_be.Prelude.{
  ℕ, ◌+◌, Bool, true, false, not, ◌&&◌, String, none, List, [], ◌∷◌, ◌++◌, ◌==◌, ltb, if◌then◌else◌,
  is_some, ℤ, Result, ok, illegal_move, raise_if, ◌>>=◌, ◌>>◌,
}
use monopoly_be.Schema.{
  PlayerState, LogEntry, GameState, GameEvent, event_to_log_entry, PlayerCommand, roll_dice,
  pass_buy, end_turn, pay_jail_fine, use_jail_card, buy_property, build_house, sell_house, mortgage,
  unmortgage, propose_trade, respond_trade, place_bid, declare_bankruptcy, surrender,
  advance_auction, expire_trade, GameCommand, player, system,
}
use monopoly_be.Actions.{with_actions}
use monopoly_be.Auction
use monopoly_be.Building
use monopoly_be.Trade
use monopoly_be.Payments.{try_settle_debt}
use monopoly_be.Timer.{with_turn_deadline}
use monopoly_be.Turns.{check_win_condition}
use monopoly_be.Random.{Random}
use monopoly_be.Engine.Roll.{Handled, handle_roll_dice}
use monopoly_be.Engine.Handlers.{
  Change, handle_pay_jail_fine, handle_use_jail_card, handle_buy_property, handle_pass_buy,
  handle_end_turn, in_build_phase, handle_declare_bankruptcy, handle_surrender, handle_system,
}

-- What a call of `apply` is given beside the state and the command: the clock, the two settings, and
-- the ids that `uuid4` hands out (one for a trade, one for each log entry).
pub record Call : Type 0 where
  pub now : ℤ
  pub go_salary : ℤ
  pub jail_fine : ℤ
  pub trade_id : ℕ
  pub entry_id : ℕ → String

-- `_reset_actor_strikes`
unfoldable pub reset_strikes : List PlayerState → ℕ → List PlayerState
reset_strikes [] player_id = []
reset_strikes (p ∷ players) player_id =
    if p.id == player_id && ltb 0 p.afk_strikes
    then record p { afk_strikes = 0 } ∷ players
    else p ∷ reset_strikes players player_id

unfoldable pub reset_actor_strikes : GameState → ℕ → GameState
unfolding reset_strikes
reset_actor_strikes state player_id = record state {
  players = reset_strikes state.players player_id;
}

-- The commands after which the active card stays: `isinstance(command, (AdvanceAuction, ExpireTrade))`.
keeps_card : GameCommand → Bool
keeps_card (system advance_auction) = true
keeps_card (system expire_trade) = true
keeps_card _ = false

unfoldable pub clear_active_card : GameState → GameState → GameCommand → GameState
unfolding keeps_card
clear_active_card state new_state command =
    if is_some state.active_card && not (keeps_card command)
    then record new_state { active_card = none }
    else new_state

entries : List GameEvent → ℤ → (ℕ → String) → ℕ → List LogEntry
entries [] ts entry_id n = []
entries (e ∷ events) ts entry_id n =
    event_to_log_entry e ts (entry_id n) ∷ entries events ts entry_id (n + 1)

-- `_append_log`
unfoldable pub append_log : GameState → List GameEvent → Call → GameState
unfolding entries
append_log state events call = record state {
  log = state.log ++ entries events call.now call.entry_id 0;
}

unfoldable pub assert_current_player : GameState → ℕ → Result (Unit {0})
assert_current_player state player_id =
    raise_if (not (state.turn.current_player_id == player_id)) (illegal_move "not your turn")

-- The last lines of `apply`.
unfoldable pub finish : GameState → GameState → GameCommand → List GameEvent → Call → Change
unfolding clear_active_card append_log
finish state changed command events call = do
  settled ← try_settle_debt (clear_active_card state changed command)
  final ←
      with_actions
        (append_log (with_turn_deadline (check_win_condition settled) call.now) events call) none
  ok (final, events)

-- The end of a command from a player who may not be the current one.
unfoldable pub finish_reply : GameState → List GameEvent → ℕ → Call → Change
unfolding reset_actor_strikes
finish_reply changed events player_id call = do
  final ← with_actions (with_turn_deadline (reset_actor_strikes changed player_id) call.now) none
  ok (final, events)

-- `isinstance(command, (RespondTrade, PlaceBid))`
unfoldable pub is_reply : PlayerCommand → Bool
is_reply (respond_trade trade_id response counter_offer) = true
is_reply (place_bid amount) = true
is_reply _ = false

module _ (R : Random) where
  open R use {State}

  -- A handler that leaves the generator alone, and one that has no event.
  unfoldable pub with_rng : State → Change → Result (Handled State)
  with_rng rng change = do c ← change; ok (record { state = c.0; events = c.1; rng = rng })

  no_events : Result GameState → Change
  no_events m = do s ← m; ok (s, [])

  -- `_dispatch_player_command`
  unfoldable pub dispatch_player_command :
      GameState → ℕ → PlayerCommand → Call → State → Result (Handled State)
  unfolding with_rng no_events
  dispatch_player_command state pid roll_dice call rng =
      handle_roll_dice R call.go_salary state pid call.jail_fine rng
  dispatch_player_command state pid (buy_property position) call rng =
      with_rng rng (handle_buy_property state pid position)
  dispatch_player_command state pid pass_buy call rng =
      with_rng rng (handle_pass_buy state pid call.now)
  dispatch_player_command state pid end_turn call rng = with_rng rng (handle_end_turn state pid)
  dispatch_player_command state pid pay_jail_fine call rng =
      with_rng rng (handle_pay_jail_fine state pid call.jail_fine)
  dispatch_player_command state pid use_jail_card call rng =
      with_rng rng (handle_use_jail_card state pid)
  dispatch_player_command state pid (build_house position) call rng = with_rng rng (
      in_build_phase state (illegal_move "cannot build in current phase")
        (Building.build_house state pid position))
  dispatch_player_command state pid (sell_house position) call rng = with_rng rng (
      in_build_phase state (illegal_move "cannot sell in current phase")
        (Building.sell_house state pid position))
  dispatch_player_command state pid (mortgage position) call rng = with_rng rng (
      in_build_phase state (illegal_move "cannot mortgage in current phase")
        (Building.mortgage_property state pid position))
  dispatch_player_command state pid (unmortgage position) call rng = with_rng rng (
      in_build_phase state (illegal_move "cannot unmortgage in current phase")
        (Building.unmortgage_property state pid position))
  dispatch_player_command state pid (propose_trade target_id offer request) call rng =
      with_rng rng
        (no_events (Trade.propose_trade state pid target_id offer request call.now call.trade_id))
  dispatch_player_command state pid (respond_trade trade_id response counter_offer) call rng =
      with_rng rng
        (no_events (Trade.respond_trade state pid trade_id response counter_offer call.now))
  dispatch_player_command state pid (place_bid amount) call rng =
      with_rng rng (no_events (Auction.place_bid state pid amount))
  dispatch_player_command state pid declare_bankruptcy call rng =
      with_rng rng (handle_declare_bankruptcy state pid)
  dispatch_player_command state pid surrender call rng = with_rng rng (handle_surrender state pid)

  -- The commands of the current player.
  unfoldable pub apply_own : GameState → ℕ → PlayerCommand → Call → State → Result (Handled State)
  unfolding with_rng dispatch_player_command
  apply_own state pid command call rng = do
    assert_current_player state pid
    h ← dispatch_player_command state pid command call rng
    with_rng h.rng
        (finish state (reset_actor_strikes h.state pid) (player pid command) h.events call)

  unfoldable pub apply_reply : GameState → ℕ → PlayerCommand → Call → State → Result (Handled State)
  unfolding with_rng dispatch_player_command
  apply_reply state pid command call rng = do
    h ← dispatch_player_command state pid command call rng
    with_rng h.rng (finish_reply h.state h.events pid call)

  unfoldable pub apply : GameState → GameCommand → Call → State → Result (Handled State)
  unfolding with_rng apply_own apply_reply
  apply state (player pid command) call rng =
      if is_reply command
      then apply_reply state pid command call rng
      else apply_own state pid command call rng
  apply state (system command) call rng = do
    c ← handle_system state command call.now
    with_rng rng (finish state (c.0) (system command) (c.1) call)
