-- ===== src/Gateway/Router.antt =====
-- src/gateway/router.py: a client connects and disconnects.
use monopoly_be.Prelude.{ℕ, any, str_eq, String, Bool, not, ◌&&◌, List, ◌∷◌, if◌then◌else◌, filterb}
use monopoly_be.Gateway.Connections.{Connection, Buckets, register, unregister, local_connections}
use monopoly_be.Gateway.Backplane.{
  Broker, Node, subscribe_called, subscribe_done, unsubscribe_called, unsubscribe_done,
}

-- `_pending_removals`, by session and user
abbrev pub Pending : Type 0
Pending = List (String × String)

abbrev is_key : String → String → String × String → Bool
is_key session_id user_id (s, u) = str_eq s session_id && str_eq u user_id

-- `any(c.user_id == user_id for c in manager.local_connections(session_id))`
unfoldable pub is_live : Buckets → String → String → Bool
is_live sessions session_id user_id =
    any (λ (c : Connection). str_eq c.user_id user_id) (local_connections sessions session_id)

unfoldable pub schedule_removal : Buckets → String → String → Pending → Pending
schedule_removal sessions session_id user_id pending =
    if is_live sessions session_id user_id
    then pending
    else if any (is_key session_id user_id) pending
    then pending
    else (session_id, user_id) ∷ pending

unfoldable pub cancel_pending_removal : String → String → Pending → Pending
cancel_pending_removal session_id user_id pending =
    filterb (λ key. not (is_key session_id user_id key)) pending

module _ {Message : Type 0} (B : Broker Message) where
  -- What `ws_endpoint` does to the state of the node when a client is accepted, and at the end.
  abbrev pub Server : Type 0
  Server = Buckets × Node B × Pending

  -- Up to the await of `subscribe`, with the count that it has read, and after it.
  unfoldable pub connecting : Connection → Server → ℕ × Server
  connecting conn (sessions, node, pending) =
      let called = subscribe_called B conn.session_id node in
      (
        called.0,
        (
          register conn sessions,
          called.1,
          cancel_pending_removal conn.session_id conn.user_id pending,
        ),
      )

  unfoldable pub connected : Connection → ℕ → Server → Server
  connected conn n (sessions, node, pending) =
      (sessions, subscribe_done B conn.session_id n node, pending)

  -- Up to the await of `unsubscribe`, and after it.
  unfoldable pub disconnecting : Connection → Server → ℕ × Server
  disconnecting conn (sessions, node, pending) =
      let called = unsubscribe_called B conn.session_id node in
      (called.0, (unregister conn sessions, called.1, pending))

  unfoldable pub disconnected : Connection → ℕ → Server → Server
  disconnected conn n (sessions, node, pending) = (
    sessions,
    unsubscribe_done B conn.session_id n node,
    schedule_removal sessions conn.session_id conn.user_id pending,
  )
