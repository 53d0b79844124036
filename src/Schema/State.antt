-- ===== src/Schema/State.antt =====
-- src/domain/game/schemas/state.py: the records of a game. Player ids and trade ids, which the code
-- only compares, are numbers; a datetime is its epoch in milliseconds.
use monopoly_be.Prelude.{ℕ, Bool, false, String, Option, List, ℤ}
use monopoly_be.Schema.Enums.{GameMode, GameStatus, TurnPhase, TokenColor, LogKind, TradeStatus}
use monopoly_be.Schema.Cards.{ActiveCard}

pub record DiceRoll : Type 0 where
  pub die1 : ℕ
  pub die2 : ℕ
  pub is_doubles : Bool

pub record JailStatus : Type 0 where
  pub turns_remaining : ℕ

pub record ActionSet : Type 0 where
  pub can_roll : Bool
  pub can_buy : Bool
  pub can_build : Bool
  pub can_mortgage : Bool
  pub can_unmortgage : Bool
  pub can_trade : Bool
  pub can_end_turn : Bool
  pub can_pay_jail_fine : Bool
  pub can_use_jail_card : Bool
  pub can_bid : Bool
  pub can_declare_bankruptcy : Bool
  pub can_surrender : Bool

-- `ActionSet()`
abbrev pub no_actions : ActionSet
no_actions = record {
  can_roll = false;
  can_buy = false;
  can_build = false;
  can_mortgage = false;
  can_unmortgage = false;
  can_trade = false;
  can_end_turn = false;
  can_pay_jail_fine = false;
  can_use_jail_card = false;
  can_bid = false;
  can_declare_bankruptcy = false;
  can_surrender = false;
}

pub record SpaceOwnership : Type 0 where
  pub position : ℕ
  pub owner_id : Option ℕ
  pub houses : ℕ
  pub has_hotel : Bool
  pub is_mortgaged : Bool

pub record PlayerState : Type 0 where
  pub id : ℕ
  pub user_id : String
  pub display_name : String
  pub token : TokenColor
  pub avatar_url : Option String
  pub turn_order : ℕ
  pub position : ℕ
  pub balance : ℤ
  pub owned_positions : List ℕ
  pub get_out_of_jail_cards : ℤ
  pub jail_status : Option JailStatus
  pub is_bankrupt : Bool
  pub is_connected : Bool
  pub net_worth : ℤ
  pub rating : ℤ
  pub afk_strikes : ℕ
  pub eliminated_at : Option ℕ

pub record TurnState : Type 0 where
  pub phase : TurnPhase
  pub current_player_id : ℕ
  pub turn_number : ℕ
  pub round_number : ℕ
  pub dice_roll : Option DiceRoll
  pub doubles_streak : ℕ
  pub trade_offers_made : ℕ
  pub actions_available : ActionSet
  pub pending_buy_position : Option ℕ
  pub turn_deadline_ms : Option ℤ

pub record LogEntry : Type 0 where
  pub id : String
  pub kind : LogKind
  pub ts : ℤ
  pub type : Option String
  pub player_id : Option ℕ
  pub player_name : Option String
  pub player_token : Option TokenColor
  pub opponent_id : Option ℕ
  pub tile_id : Option ℕ
  pub rolled : Option ℕ
  pub spent : Option ℤ
  pub received : Option ℤ
  pub card_id : Option String
  pub card_kind : Option String
  pub reason : Option String
  pub streak : Option ℕ
  pub strikes : Option ℕ
  pub text : Option String
  pub sticker_url : Option String

pub record AuctionBid : Type 0 where
  pub player_id : ℕ
  pub amount : ℤ

pub record AuctionState : Type 0 where
  pub property_position : ℕ
  pub bids : List AuctionBid
  pub highest_bid : ℤ
  pub highest_bidder_id : Option ℕ
  pub time_remaining_ms : ℤ
  pub started_at_ms : ℤ

pub record TradeOffer : Type 0 where
  pub money : ℤ
  pub positions : List ℕ
  pub get_out_of_jail_cards : ℤ

pub record TradeState : Type 0 where
  pub id : ℕ
  pub proposer_id : ℕ
  pub target_id : ℕ
  pub proposer_offer : TradeOffer
  pub target_request : TradeOffer
  pub status : TradeStatus
  pub expires_at : ℤ

pub record BankruptcyState : Type 0 where
  pub debtor_id : ℕ
  pub creditor_id : Option ℕ
  pub amount_owed : ℤ

pub record GameState : Type 0 where
  pub game_id : String
  pub session_code : String
  pub game_mode : GameMode
  pub status : GameStatus
  pub created_at : ℤ
  pub started_at : Option ℤ
  pub finished_at : Option ℤ
  pub winner_id : Option ℕ
  pub players : List PlayerState
  pub turn : TurnState
  pub spaces : List SpaceOwnership
  pub auction : Option AuctionState
  pub trade : Option TradeState
  pub active_card : Option ActiveCard
  pub bankruptcy : Option BankruptcyState
  pub bank_houses : ℤ
  pub bank_hotels : ℤ
  pub chance_deck : List String
  pub chest_deck : List String
  pub sudden_death_deadline_ms : Option ℤ
  pub log : List LogEntry
