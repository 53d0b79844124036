-- ===== src/Gateway/Dispatcher.antt =====
-- src/gateway/dispatcher.py: what is done with a text that a client sends.
use monopoly_be.Prelude.{
  ℕ, String, str_eq, Error, validation_error, not, Option, none, some, List, [], ◌∷◌, ◌==◌,
  if◌then◌else◌, ℤ, Result, ok, err,
}
use monopoly_be.Random.{Random}
use monopoly_be.Engine.{Call}
use monopoly_be.Store.{Collection}
use monopoly_be.Users.{UserDocument}
use monopoly_be.Sessions.{SessionDocument}
use monopoly_be.Games.{GameDocument}
use monopoly_be.Gateway.Connections.{Connection}
use monopoly_be.Gateway.Messages.{WsErrorCode, Adapters, Effect, send_error, close}
use monopoly_be.Gateway.Handlers.{World, handlers}

-- core/constants.py
abbrev pub ws_protocol_version : ℕ
ws_protocol_version = 1

-- The fields of protocol/ws/envelope.py that are read.
pub record RawEnvelope (Raw : Type 0) : Type 0 where
  pub v : ℕ
  pub type : String
  pub payload : Raw

-- `json.loads` and `RawEnvelope.model_validate`, with `none` where they raise, and the two messages
-- with a value in them.
pub record Codec (Raw : Type 0) : Type 1 where
  pub Data : Type 0
  pub loads : String → Option Data
  pub model_validate : Data → Option (RawEnvelope Raw)
  pub expected_version : ℕ → String
  pub unknown_message : String → String

-- `HANDLERS.get`
abbrev pub find_handler {ℓ} : {H : Type ℓ} → List (String × H) → String → Option H
find_handler [] type = none
find_handler ((t, h) ∷ table) type = if str_eq t type then some h else find_handler table type

-- The `except` clauses around a handler.
unfoldable pub failure : Error → Effect
failure validation_error = send_error WsErrorCode.malformed "Invalid payload for message type"
failure _ = send_error WsErrorCode.internal "Internal server error"

unfoldable pub guarded : {W : Type 0} → Result (List Effect) × W → List Effect × W
guarded (err e, world) = (failure e ∷ [], world)
guarded (ok effects, world) = (effects, world)

module _ (R : Random) (G : Collection (GameDocument R.State)) (C : Collection SessionDocument)
    (U : Collection UserDocument) (gain : ℤ → ℕ → ℕ → ℤ → List ℤ → ℤ) {Raw : Type 0}
    (adapters : Adapters Raw) (codec : Codec Raw) where
  -- What is done with an envelope.
  unfoldable pub dispatch_envelope :
      Connection → RawEnvelope Raw → Call → World R G C U gain → List Effect × World R G C U gain
  dispatch_envelope conn envelope call world =
      if not (envelope.v == ws_protocol_version)
      then (
        send_error WsErrorCode.unsupported_version (codec.expected_version envelope.v)
            ∷ close 4400
            ∷ [],
        world,
      )
      else elim (find_handler (handlers R G C U gain adapters) envelope.type) [
        | none ↦
            (send_error WsErrorCode.unknown_type (codec.unknown_message envelope.type) ∷ [], world)
        | some handler ↦ guarded (handler conn envelope.payload call world)
      ]

  unfoldable pub dispatch :
      Connection → String → Call → World R G C U gain → List Effect × World R G C U gain
  dispatch conn raw call world = elim (codec.loads raw) [
    | none ↦ (send_error WsErrorCode.malformed "Invalid JSON" ∷ [], world)
    | some data_read ↦ elim (codec.model_validate data_read) [
      | none ↦ (send_error WsErrorCode.malformed "Invalid message shape" ∷ [], world)
      | some envelope ↦ dispatch_envelope conn envelope call world
    ]
  ]
