-- ===== src/Gateway/Connections.antt =====
-- src/gateway/manager.py and backpressure.py: the connections of a node, by session, and the queue of
-- frames that each has.
use monopoly_be.Prelude.{
  any, ℕ, String, str_eq, Bool, true, false, not, Option, none, some, List, [], ◌∷◌, ◌++◌, ◌==◌,
  ltb, if◌then◌else◌, length, filterb,
}

-- core/constants.py
abbrev pub ws_send_queue_max_size : ℕ
ws_send_queue_max_size = 256

-- Its socket, queue and tasks are input and output.
pub record Connection : Type 0 where
  pub connection_id : ℕ
  pub session_id : String
  pub user_id : String
  pub display_name : String

-- `asyncio.Queue`: what was put and not yet got; `none` is the sentinel.
abbrev pub SendQueue : Type 0 → Type 0
SendQueue Frame = List (Option Frame)

-- `put_nowait`, which raises `QueueFull` at the maximal size.
unfoldable pub put_nowait :
    {Frame : Type 0} → Option Frame → SendQueue Frame → Bool × SendQueue Frame
put_nowait item queue =
    if ltb (length queue) ws_send_queue_max_size
    then (true, queue ++ (item ∷ []))
    else (false, queue)

unfoldable pub put : {Frame : Type 0} → Frame → SendQueue Frame → Bool × SendQueue Frame
put message queue = put_nowait (some message) queue

unfoldable pub put_sentinel : {Frame : Type 0} → SendQueue Frame → SendQueue Frame
put_sentinel queue = (put_nowait none queue).1

-- `get`, which waits at an empty queue: the item and the queue after it.
unfoldable pub get_frame :
    {Frame : Type 0} → SendQueue Frame → Option (Option Frame × SendQueue Frame)
get_frame [] = none
get_frame (item ∷ queue) = some (item, queue)

-- `_sessions`: a bucket of connections for each session.
abbrev pub Buckets : Type 0
Buckets = List (String × List Connection)

unfoldable pub is_in : List Connection → ℕ → Bool
is_in bucket connection_id = any (λ (c : Connection). c.connection_id == connection_id) bucket

-- `bucket.add(conn)` and `bucket.discard(conn)`
unfoldable pub add : Connection → List Connection → List Connection
unfolding is_in
add conn bucket = if is_in bucket conn.connection_id then bucket else conn ∷ bucket

unfoldable pub discard_connection : Connection → List Connection → List Connection
discard_connection conn bucket =
    filterb (λ (c : Connection). not (c.connection_id == conn.connection_id)) bucket

-- The bucket of a session, or an empty one.
unfoldable pub bucket_of : Buckets → String → List Connection
bucket_of [] session_id = []
bucket_of ((s, bucket) ∷ sessions) session_id =
    if str_eq s session_id then bucket else bucket_of sessions session_id

-- `_sessions[session_id] = bucket` and `del _sessions[session_id]`
unfoldable pub put_bucket : Buckets → String → List Connection → Buckets
put_bucket [] session_id bucket = (session_id, bucket) ∷ []
put_bucket ((s, old) ∷ sessions) session_id bucket =
    if str_eq s session_id
    then (s, bucket) ∷ sessions
    else (s, old) ∷ put_bucket sessions session_id bucket

unfoldable pub del_bucket : Buckets → String → Buckets
del_bucket [] session_id = []
del_bucket ((s, old) ∷ sessions) session_id =
    if str_eq s session_id
    then del_bucket sessions session_id
    else (s, old) ∷ del_bucket sessions session_id

unfoldable pub register : Connection → Buckets → Buckets
register conn sessions =
    put_bucket sessions conn.session_id (add conn (bucket_of sessions conn.session_id))

-- The bucket after `discard`: an empty one is deleted.
unfoldable pub keep_bucket : Buckets → String → List Connection → Buckets
keep_bucket sessions session_id [] = del_bucket sessions session_id
keep_bucket sessions session_id (c ∷ bucket) = put_bucket sessions session_id (c ∷ bucket)

unfoldable pub unregister : Connection → Buckets → Buckets
unregister conn sessions =
    keep_bucket sessions conn.session_id
      (discard_connection conn (bucket_of sessions conn.session_id))

unfoldable pub local_connections : Buckets → String → List Connection
local_connections sessions session_id = bucket_of sessions session_id

unfoldable pub count : Buckets → String → ℕ
count sessions session_id = length (bucket_of sessions session_id)

unfoldable pub all_connections : Buckets → List Connection
all_connections [] = []
all_connections ((s, bucket) ∷ sessions) = bucket ++ all_connections sessions
