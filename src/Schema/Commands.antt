-- ===== src/Schema/Commands.antt =====
-- src/domain/game/schemas/commands.py: the commands of the players and of the scheduler. The
-- `player_id` that every player command carries is the first argument of `player`.
use monopoly_be.Prelude.{ℕ, Option, ℤ}
use monopoly_be.Schema.Enums.{TradeResponse}
use monopoly_be.Schema.State.{TradeOffer}

pub data PlayerCommand : Type 0 where
  roll_dice pass_buy end_turn pay_jail_fine use_jail_card : PlayerCommand
  buy_property build_house sell_house mortgage unmortgage : (position : ℕ) → PlayerCommand
  propose_trade :
      (target_id : ℕ) (proposer_offer : TradeOffer) (target_request : TradeOffer) → PlayerCommand
  respond_trade :
      (trade_id : ℕ) (response : TradeResponse) (counter_offer : Option TradeOffer) → PlayerCommand
  place_bid : (amount : ℤ) → PlayerCommand
  declare_bankruptcy surrender : PlayerCommand

pub data SystemCommand : Type 0 where
  advance_auction expire_trade turn_timeout : SystemCommand

pub data GameCommand : Type 0 where
  player : (player_id : ℕ) → PlayerCommand → GameCommand
  system : SystemCommand → GameCommand
