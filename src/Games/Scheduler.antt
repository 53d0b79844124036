-- ===== src/Games/Scheduler.antt =====
-- src/application/services/game_scheduler.py: which command of the scheduler is due, and one tick.
use monopoly_be.Prelude.{
  String, Bool, false, ◌&&◌, Option, none, some, if◌then◌else◌, is_some, ℤ, leb_ℤ,
}
use monopoly_be.Schema.{
  GameState, TradeState, SystemCommand, advance_auction, expire_trade, turn_timeout, system,
}
use monopoly_be.Auction.{is_auction_expired}
use monopoly_be.Timer.{is_turn_expired}
use monopoly_be.Random.{Random}
use monopoly_be.Engine.{Call}
use monopoly_be.Store.{Collection, Step, give, lift, reading, ◌>>=◌}
use monopoly_be.Games.Repository.{GameDocument, StoredGame, find_by_session_id, update_with_version}
use monopoly_be.Games.Service.{engine_step}

-- `state.trade is not None and state.trade.expires_at <= now`
unfoldable pub is_trade_expired : Option TradeState → ℤ → Bool
is_trade_expired none now_ms = false
is_trade_expired (some trade) now_ms = leb_ℤ trade.expires_at now_ms

-- The choice of `_tick_one`. The clock and its milliseconds are one number.
unfoldable pub due_command : GameState → ℤ → Option SystemCommand
due_command state now_ms =
    if is_some state.auction && is_auction_expired state now_ms
    then some advance_auction
    else if is_trade_expired state.trade now_ms
    then some expire_trade
    else if is_turn_expired state now_ms
    then some turn_timeout
    else none

module _ (R : Random) (G : Collection (GameDocument R.State)) where
  open R use {State}

  -- The engine and the write under the version that was read; a conflict is no error here.
  unfoldable pub tick_commit :
      StoredGame State → SystemCommand → Call → Step G.State (Option (StoredGame State))
  tick_commit stored command call = do
    handled ← lift (engine_step R G stored (system command) call)
    update_with_version G stored.game_id handled.state stored.version handled.rng call.now

  -- `_tick_one`: the game after it, where it was changed. It is then broadcast, and its session and
  -- its ratings are finished with it.
  unfoldable pub tick_one : String → Call → Step G.State (Option (StoredGame State))
  tick_one session_id call = do
    found ← reading (find_by_session_id G session_id)
    elim found [
      | none ↦ give none
      | some stored ↦ elim (due_command stored.state call.now) [
        | none ↦ give none
        | some command ↦ tick_commit stored command call
      ]
    ]
