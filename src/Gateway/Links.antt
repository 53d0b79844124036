-- ===== src/Gateway/Links.antt =====
-- src/gateway/connection.py and backplane.py: frames on their way to the clients of a node.
use monopoly_be.Prelude.{
  ℕ, Bool, true, false, Option, none, some, List, [], ◌∷◌, if◌then◌else◌, ℤ, pos, ◌-ℤ◌, ltb_ℤ,
}
use monopoly_be.Gateway.Connections.{SendQueue, put, put_sentinel, get_frame}

-- The state of a connection beside its ids: `_queue`, `_closed`, `_stop` and `last_pong_ts`, in seconds.
pub record Link (Frame : Type 0) : Type 0 where
  pub queue : SendQueue Frame
  pub is_closed : Bool
  pub is_stopped : Bool
  pub last_pong_ts : ℤ

-- What a call does to the socket.
pub data Wire (Frame : Type 0) : Type 0 where
  sent : Frame → Wire Frame
  closed_with : (code : ℕ) → Wire Frame

-- core/constants.py
abbrev pub ws_heartbeat_timeout_s : ℤ
ws_heartbeat_timeout_s = pos 25

module _ {Frame : Type 0} where
  unfoldable pub enqueue : Frame → Link Frame → Bool × Link Frame
  enqueue frame link = let r = put frame link.queue in (r.0, record link { queue = r.1 })

  unfoldable pub wind_down : Link Frame → Link Frame
  wind_down link = record link { is_stopped = true; queue = put_sentinel link.queue }

  unfoldable pub close_link : ℕ → Link Frame → List (Wire Frame) × Link Frame
  close_link code link =
      if link.is_closed
      then ([], link)
      else (closed_with code ∷ [], record (wind_down link) { is_closed = true })

  unfoldable pub send_error_then_close : Frame → ℕ → Link Frame → List (Wire Frame) × Link Frame
  send_error_then_close frame code link =
      if link.is_closed
      then ([], link)
      else (let r = close_link code link in (sent frame ∷ r.0, r.1))

  -- One round of `_send_loop`: `none` while it waits, and whether it goes on.
  unfoldable pub send_round : Link Frame → Option (Bool × List (Wire Frame) × Link Frame)
  send_round link = elim (get_frame link.queue) [
    | none ↦ none
    | some (none, queue) ↦ some (false, [], record link { queue = queue })
    | some (some frame, queue) ↦ some (true, sent frame ∷ [], record link { queue = queue })
  ]

  -- One round of `_heartbeat_loop` after an interval without a stop, and whether it goes on.
  unfoldable pub heartbeat_round : Frame → ℤ → Link Frame → Bool × List (Wire Frame) × Link Frame
  heartbeat_round ping now link =
      let r = enqueue ping link in
      if r.0
      then (if ltb_ℤ ws_heartbeat_timeout_s (now -ℤ r.1.last_pong_ts)
          then (let c = close_link 1001 r.1 in (false, c.0, c.1))
          else (true, [], r.1))
      else (let c = close_link 1011 r.1 in (false, c.0, c.1))

  -- The task that closes runs at once here.
  unfoldable pub enqueue_or_close : Frame → Link Frame → List (Wire Frame) × Link Frame
  enqueue_or_close frame link =
      let r = enqueue frame link in if r.0 then ([], r.1) else close_link 1011 r.1

  -- A message to the local connections of a session.
  unfoldable pub dispatch_to_local :
      Frame → List (Link Frame) → List (List (Wire Frame) × Link Frame)
  dispatch_to_local frame [] = []
  dispatch_to_local frame (link ∷ links) =
      enqueue_or_close frame link ∷ dispatch_to_local frame links

  -- A game state, which is rendered for each viewer; who cannot be rendered for is passed over.
  unfoldable pub dispatch_game_state :
      {Viewer : Type 0}
      → (Viewer → Option Frame)
      → List (Viewer × Link Frame)
      → List (List (Wire Frame) × Link Frame)
  dispatch_game_state renderer [] = []
  dispatch_game_state renderer ((viewer, link) ∷ links) = elim (renderer viewer) [
    | none ↦ ([], link) ∷ dispatch_game_state renderer links
    | some frame ↦ enqueue_or_close frame link ∷ dispatch_game_state renderer links
  ]
