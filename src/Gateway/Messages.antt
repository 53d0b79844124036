-- ===== src/Gateway/Messages.antt =====
-- src/gateway/handlers: what a handler is given and what it does beside changing a store. The payloads
-- (protocol/ws/schemas.py) are what pydantic makes of the raw ones, by the adapters.
use monopoly_be.Prelude.{
  str_eq, value_error, ℕ, String, Error, app_error, AppError, key_error, Option, none, some, List,
  if◌then◌else◌, ℤ, Result, ok, err, illegal_move,
}
use monopoly_be.Schema.{GameState, TradeOffer, TradeResponse}
use monopoly_be.Animation.{AnimationInstruction}
use monopoly_be.Sessions.{Session}

-- protocol/ws/errors.py
pub data WsErrorCode : Type 0 where
  unauthorized not_member malformed unsupported_version unknown_type rate_limited internal
        illegal_action :
      WsErrorCode

pub record ProposeTradePayload : Type 0 where
  pub target_id : ℕ
  pub proposer_offer : TradeOffer
  pub target_request : TradeOffer

-- The response is a text here; `TradeResponse(…)` is made by the handler.
pub record RespondTradePayload : Type 0 where
  pub trade_id : ℕ
  pub response : String
  pub counter_offer : Option TradeOffer

-- `validate_python` of each adapter; `none` where it raises a `ValidationError`.
pub record Adapters (Raw : Type 0) : Type 0 where
  pub empty : Raw → Option (Unit {0})
  pub position : Raw → Option ℕ
  pub propose_trade : Raw → Option ProposeTradePayload
  pub respond_trade : Raw → Option RespondTradePayload
  pub amount : Raw → Option ℤ
  pub interaction_id : Raw → Option String
  pub chat_text : Raw → Option String
  pub sticker_url : Raw → Option String

-- What goes out: to the sender, or to all members of the session.
pub data Effect : Type 0 where
  send_error : WsErrorCode → (message : String) → Effect
  close : (code : ℕ) → Effect
  publish_game_state : GameState → List AnimationInstruction → Effect
  publish_continue : (interaction_id : String) → Effect
  publish_chat publish_sticker : (from_user_id display_name content : String) → Effect
  session_updated : Session → Effect
  pong : Effect

-- `TradeResponse(…)` of a text.
unfoldable pub trade_response : String → Result TradeResponse
trade_response s =
    if str_eq s "accept"
    then ok TradeResponse.accept
    else if str_eq s "reject"
    then ok TradeResponse.reject
    else if str_eq s "counter"
    then ok TradeResponse.counter
    else err value_error

-- The `except` clauses of `_apply_and_publish`: the error that is sent, or `none` where it is passed on.
unfoldable pub error_reply : Error → Option Effect
error_reply (illegal_move message) = some (send_error WsErrorCode.illegal_action message)
error_reply (app_error (AppError.game_not_found session_id)) =
    some (send_error WsErrorCode.illegal_action "no active game")
error_reply (app_error (AppError.game_version_conflict session_id)) =
    some (send_error WsErrorCode.illegal_action "state conflict; resync from latest snapshot")
error_reply key_error = some (send_error WsErrorCode.malformed "Invalid payload for message type")
error_reply _ = none
