-- ===== src/Schema/Events.antt =====
-- src/domain/game/schemas/events.py: the events of a command, and the log entry of each.
use monopoly_be.Prelude.{ℕ, String, Option, none, some, ℤ}
use monopoly_be.Schema.Enums.{LogKind, TokenColor}
use monopoly_be.Schema.State.{LogEntry}

-- The literals of `PlayerMoved.reason`.
pub data MoveReason : Type 0 where
  dice card teleport jail : MoveReason

pub record PlayerMoved : Type 0 where
  pub player_id : ℕ
  pub player_name : String
  pub player_token : TokenColor
  pub from_position : ℕ
  pub to_position : ℕ
  pub dice_total : ℕ
  pub reason : MoveReason

pub record RentPaid : Type 0 where
  pub payer_id : ℕ
  pub payer_name : String
  pub owner_id : ℕ
  pub owner_name : String
  pub position : ℕ
  pub property_name : String
  pub amount : ℤ

-- A constructor for each event class; the classes of at most five fields have their fields in order.
pub data GameEvent : Type 0 where
  player_moved : PlayerMoved → GameEvent
  passed_go : (player_id : ℕ) (player_name : String) (amount : ℤ) → GameEvent
  rent_paid : RentPaid → GameEvent
  property_bought :
      (player_id : ℕ) (player_name : String) (position : ℕ) (property_name : String) (price : ℤ)
      → GameEvent
  buy_declined :
      (player_id : ℕ) (player_name : String) (position : ℕ) (property_name : String) → GameEvent
  rolled_doubles : (player_id : ℕ) (player_name : String) (streak : ℕ) → GameEvent
  sent_to_jail : (player_id : ℕ) (player_name reason : String) → GameEvent
  tax_paid : (player_id : ℕ) (player_name : String) (position : ℕ) (amount : ℤ) → GameEvent
  turn_ended :
      (player_id : ℕ) (player_name : String) (next_player_id : ℕ) (next_player_name : String)
      → GameEvent
  card_drawn : (player_id : ℕ) (player_name card_id kind : String) → GameEvent
  player_surrendered : (player_id : ℕ) (player_name reason : String) → GameEvent
  turn_timed_out : (player_id : ℕ) (player_name : String) (strikes : ℕ) → GameEvent

-- The fields that every event entry sets; the others keep the class's default `None`.
abbrev entry : String → ℤ → String → ℕ → String → LogEntry
entry entry_id ts type player_id player_name = record {
  id = entry_id;
  kind = LogKind.event;
  ts = ts;
  type = some type;
  player_id = some player_id;
  player_name = some player_name;
  player_token = none;
  opponent_id = none;
  tile_id = none;
  rolled = none;
  spent = none;
  received = none;
  card_id = none;
  card_kind = none;
  reason = none;
  streak = none;
  strikes = none;
  text = none;
  sticker_url = none;
}

abbrev rolled_total : MoveReason → ℕ → Option ℕ
rolled_total MoveReason.dice n = some n
rolled_total _ n = none

-- `entry_id` is the `uuid4().hex` of the call.
unfoldable pub event_to_log_entry : GameEvent → ℤ → String → LogEntry
event_to_log_entry (player_moved e) ts entry_id =
    record (entry entry_id ts "player_moved" e.player_id e.player_name) {
      player_token = some e.player_token;
      tile_id = some e.to_position;
      rolled = rolled_total e.reason e.dice_total;
    }
event_to_log_entry (passed_go p name amount) ts entry_id =
    record (entry entry_id ts "passed_go" p name) { received = some amount }
event_to_log_entry (rent_paid e) ts entry_id =
    record (entry entry_id ts "rent_paid" e.payer_id e.payer_name) {
      opponent_id = some e.owner_id;
      tile_id = some e.position;
      spent = some e.amount;
    }
event_to_log_entry (property_bought p name position property_name price) ts entry_id =
    record (entry entry_id ts "property_bought" p name) {
      tile_id = some position;
      spent = some price;
    }
event_to_log_entry (buy_declined p name position property_name) ts entry_id =
    record (entry entry_id ts "buy_declined" p name) { tile_id = some position }
event_to_log_entry (rolled_doubles p name streak) ts entry_id =
    record (entry entry_id ts "rolled_doubles" p name) { streak = some streak }
event_to_log_entry (sent_to_jail p name reason) ts entry_id =
    record (entry entry_id ts "sent_to_jail" p name) { reason = some reason }
event_to_log_entry (tax_paid p name position amount) ts entry_id =
    record (entry entry_id ts "tax_paid" p name) { tile_id = some position; spent = some amount }
event_to_log_entry (turn_ended p name next_player_id next_player_name) ts entry_id =
    entry entry_id ts "turn_ended" next_player_id next_player_name
event_to_log_entry (card_drawn p name card_id kind) ts entry_id =
    record (entry entry_id ts "card_drawn" p name) { card_id = some card_id; card_kind = some kind }
event_to_log_entry (player_surrendered p name reason) ts entry_id =
    record (entry entry_id ts "player_surrendered" p name) { reason = some reason }
event_to_log_entry (turn_timed_out p name strikes) ts entry_id =
    record (entry entry_id ts "turn_timed_out" p name) { strikes = some strikes }
