-- ===== src/Gateway/Tracking.antt =====
-- src/gateway/router.py, manager.py and backplane.py: connections, subscriptions and the channels of
-- Redis go together, where the calls for one session do not overlap; Gateway/Race is about where they do.
use monopoly_be.Prelude.{
  ℕ, String, str_eq, eq_of_str_eq, suc, ◌+◌, ◌-◌, ◌≡◌, refl, ap, ◌∙◌, sym, subst, inl, inr, Bool,
  true, false, List, ltb, if◌then◌else◌, Bool-cases, arith, length,
}
use monopoly_be.Gateway.{
  Connection, is_in, discard_connection, bucket_of, Broker, IsBroker, subscribers, subscribe_called,
  subscribe_done, unsubscribe_called, unsubscribe_done, Server, connecting, connected,
  disconnecting, disconnected,
}
use monopoly_be.Gateway.Lookups.{IsBucket, length-discard_connection, discard_connection-IsBucket}
use monopoly_be.Gateway.Subscribed.{
  bucket_of-register, bucket_of-unregister, listening-subscribe_called,
  listening-unsubscribe_called, subscribers-subscribe_done, subscribers-unsubscribe_done,
}

-- The call for a session that awaits Redis, with the count that it has read.
pub data Flight : Type 0 where
  resting : Flight
  subscribing unsubscribing : (n : ℕ) → Flight

abbrev pub Flights : Type 0
Flights = String → Flight

abbrev pub with_flight : Flights → String → Flight → Flights
with_flight flights i flight j = if str_eq i j then flight else flights j

-- The subscriptions of a session with c connections.
abbrev pub IsCounted : Flight → (subscriptions c : ℕ) → Type 0
IsCounted resting n c = n ≡ c
IsCounted (subscribing m) n c = (n ≡ m) × (c ≡ m + 1)
IsCounted (unsubscribing m) n c = (n ≡ m) × (c + 1 ≡ m)

-- A session is subscribed to once for each of its connections, the node listens to its channel just
-- when it has a connection, and no connection is in its bucket twice.
pub record IsTrackedAt (flight : Flight) (n : ℕ) (listens : Bool) (bucket : List Connection)
    : Type 0 where
  pub counted : IsCounted flight n (length bucket)
  pub heard : listens ≡ ltb 0 (length bucket)
  pub once : IsBucket bucket

moved :
    {flight flight' : Flight} {n n' : ℕ} {listens listens' : Bool}
    {bucket bucket' : List Connection}
    → flight' ≡ flight
    → n' ≡ n
    → listens' ≡ listens
    → bucket' ≡ bucket
    → IsTrackedAt flight n listens bucket
    → IsTrackedAt flight' n' listens' bucket'
moved {flight' = flight'} {n = n} {n' = n'} {listens = listens} {listens' = listens'}
      {bucket = bucket} e1 e2 e3 e4 h =
    subst (IsTrackedAt flight' n' listens') (sym e4) (
      subst (λ x. IsTrackedAt flight' n' x bucket) (sym e3)
        (subst (λ x. IsTrackedAt flight' x listens bucket) (sym e2)
          (subst (λ x. IsTrackedAt x n listens bucket) (sym e1) h)))

flew_here :
    (flights : Flights) (i j : String) (flight : Flight)
    → str_eq i j ≡ true
    → with_flight flights i flight j ≡ flight
flew_here flights i j flight b = rw b refl

flew_past :
    (flights : Flights) (i j : String) (flight : Flight)
    → str_eq i j ≡ false
    → with_flight flights i flight j ≡ flights j
flew_past flights i j flight b = rw b refl

one_more : (c : ℕ) → (suc c ≡ c + 1) × (true ≡ ltb 0 (suc c))
one_more c = ground arith

fewer : (n c d : ℕ) → n ≡ c → d + 1 ≡ c → (d + 1 ≡ n) × (n - 1 ≡ d)
fewer n c d h k = omega arith

after_one : (n c m : ℕ) → (n ≡ m) × (c + 1 ≡ m) → m - 1 ≡ c
after_one n c m h = omega arith

after_more : (n c m : ℕ) → (n ≡ m) × (c ≡ m + 1) → m + 1 ≡ c
after_more n c m h = omega arith

module _ {Message : Type 0} (B : Broker Message) (law : IsBroker B) where
  abbrev pub IsTracked : Flights → Server B → Type 0
  IsTracked flights (sessions, node, pending) =
      (j : String)
      → IsTrackedAt (flights j) (subscribers node.0 j) (law.listening node.1 j)
          (bucket_of sessions j)

  -- The clients come with connections that are new, and go with connections that they have. A call for a
  -- session begins when none is in flight for it; between its two steps any other session may move.
  pub data Serves : Flights → Server B → Flights → Server B → Type 0 where
    idle : {flights : Flights} {server : Server B} → Serves flights server flights server
    accepts :
        {flights flights' : Flights} {server after : Server B} (conn : Connection)
        → flights conn.session_id ≡ resting
        → is_in (bucket_of server.0 conn.session_id) conn.connection_id ≡ false
        → Serves
            (with_flight flights conn.session_id (subscribing (connecting B conn server).0))
            (connecting B conn server).1
            flights'
            after
        → Serves flights server flights' after
    accepted :
        {flights flights' : Flights} {server after : Server B} (conn : Connection) (n : ℕ)
        → flights conn.session_id ≡ subscribing n
        → Serves
            (with_flight flights conn.session_id resting)
            (connected B conn n server)
            flights'
            after
        → Serves flights server flights' after
    loses :
        {flights flights' : Flights} {server after : Server B} (conn : Connection)
        → flights conn.session_id ≡ resting
        → is_in (bucket_of server.0 conn.session_id) conn.connection_id ≡ true
        → Serves
            (with_flight flights conn.session_id (unsubscribing (disconnecting B conn server).0))
            (disconnecting B conn server).1
            flights'
            after
        → Serves flights server flights' after
    lost :
        {flights flights' : Flights} {server after : Server B} (conn : Connection) (n : ℕ)
        → flights conn.session_id ≡ unsubscribing n
        → Serves
            (with_flight flights conn.session_id resting)
            (disconnected B conn n server)
            flights'
            after
        → Serves flights server flights' after

  connecting-IsTracked :
      (flights : Flights) (conn : Connection) (server : Server B)
      → flights conn.session_id ≡ resting
      → is_in (bucket_of server.0 conn.session_id) conn.connection_id ≡ false
      → IsTracked flights server
      → IsTracked
          (with_flight flights conn.session_id (subscribing (connecting B conn server).0))
          (connecting B conn server).1
  unfolding connecting subscribe_called
  connecting-IsTracked flights conn (sessions, node, pending) rests fresh tracked j =
      let i = conn.session_id in
      let here = tracked i in
      let counted : subscribers node.0 i ≡ length (bucket_of sessions i) =
        subst (λ f. IsCounted f (subscribers node.0 i) (length (bucket_of sessions i))) rests
          here.counted in
      let heard = here.heard ∙ ap (ltb 0) (sym counted) in
      let (more, some_left) = one_more (length (bucket_of sessions i)) in
      elim (Bool-cases (str_eq i j)) [
        | inl b ↦
            let same = sym (eq_of_str_eq i j b) in
            moved (flew_here flights i j _ b) (ap (subscribers node.0) same)
              ((rw b at (listening-subscribe_called B law node i j heard)))
              ((rw b at (bucket_of-register B law conn sessions j fresh)))
              (record {
                counted = (refl, more ∙ ap (λ n. n + 1) (sym counted));
                heard = some_left;
                once = (fresh, here.once);
              })
        | inr b ↦
            moved (flew_past flights i j _ b) refl
              ((rw b at (listening-subscribe_called B law node i j heard)))
              ((rw b at (bucket_of-register B law conn sessions j fresh))) (tracked j)
      ]

  connected-IsTracked :
      (flights : Flights) (conn : Connection) (n : ℕ) (server : Server B)
      → flights conn.session_id ≡ subscribing n
      → IsTracked flights server
      → IsTracked (with_flight flights conn.session_id resting) (connected B conn n server)
  unfolding connected subscribe_done
  connected-IsTracked flights conn n (sessions, node, pending) flies tracked j =
      let i = conn.session_id in
      let here = tracked i in
      let counted =
        subst (λ f. IsCounted f (subscribers node.0 i) (length (bucket_of sessions i))) flies
          here.counted in
      elim (Bool-cases (str_eq i j)) [
        | inl b ↦
            let same = sym (eq_of_str_eq i j b) in
            moved (flew_here flights i j _ b)
              ((rw b at (subscribers-subscribe_done B law node i j n)))
              (ap (law.listening node.1) same) (ap (bucket_of sessions) same)
              (record {
                counted =
                    after_more (subscribers node.0 i) (length (bucket_of sessions i)) n counted;
                heard = here.heard;
                once = here.once;
              })
        | inr b ↦
            moved (flew_past flights i j _ b)
              ((rw b at (subscribers-subscribe_done B law node i j n))) refl refl (tracked j)
      ]

  disconnecting-IsTracked :
      (flights : Flights) (conn : Connection) (server : Server B)
      → flights conn.session_id ≡ resting
      → is_in (bucket_of server.0 conn.session_id) conn.connection_id ≡ true
      → IsTracked flights server
      → IsTracked
          (with_flight flights conn.session_id (unsubscribing (disconnecting B conn server).0))
          (disconnecting B conn server).1
  unfolding disconnecting unsubscribe_called
  disconnecting-IsTracked flights conn (sessions, node, pending) rests held tracked j =
      let i = conn.session_id in
      let here = tracked i in
      let counted : subscribers node.0 i ≡ length (bucket_of sessions i) =
        subst (λ f. IsCounted f (subscribers node.0 i) (length (bucket_of sessions i))) rests
          here.counted in
      let heard = here.heard ∙ ap (ltb 0) (sym counted) in
      let left = discard_connection conn (bucket_of sessions i) in
      let (one_left, less) =
        fewer (subscribers node.0 i) (length (bucket_of sessions i)) (length left) counted
          (length-discard_connection conn (bucket_of sessions i) here.once held) in
      elim (Bool-cases (str_eq i j)) [
        | inl b ↦
            let same = sym (eq_of_str_eq i j b) in
            moved (flew_here flights i j _ b) (ap (subscribers node.0) same)
              ((rw b at (listening-unsubscribe_called B law node i j heard)))
              ((rw b at (bucket_of-unregister B law conn sessions j)))
              (record {
                counted = (refl, one_left);
                heard = ap (ltb 0) less;
                once = discard_connection-IsBucket conn (bucket_of sessions i) here.once;
              })
        | inr b ↦
            moved (flew_past flights i j _ b) refl
              ((rw b at (listening-unsubscribe_called B law node i j heard)))
              ((rw b at (bucket_of-unregister B law conn sessions j))) (tracked j)
      ]

  disconnected-IsTracked :
      (flights : Flights) (conn : Connection) (n : ℕ) (server : Server B)
      → flights conn.session_id ≡ unsubscribing n
      → IsTracked flights server
      → IsTracked (with_flight flights conn.session_id resting) (disconnected B conn n server)
  unfolding disconnected unsubscribe_done
  disconnected-IsTracked flights conn n (sessions, node, pending) flies tracked j =
      let i = conn.session_id in
      let here = tracked i in
      let counted =
        subst (λ f. IsCounted f (subscribers node.0 i) (length (bucket_of sessions i))) flies
          here.counted in
      elim (Bool-cases (str_eq i j)) [
        | inl b ↦
            let same = sym (eq_of_str_eq i j b) in
            moved (flew_here flights i j _ b)
              ((rw b at (subscribers-unsubscribe_done B law node i j n)))
              (ap (law.listening node.1) same) (ap (bucket_of sessions) same)
              (record {
                counted =
                    after_one (subscribers node.0 i) (length (bucket_of sessions i)) n counted;
                heard = here.heard;
                once = here.once;
              })
        | inr b ↦
            moved (flew_past flights i j _ b)
              ((rw b at (subscribers-unsubscribe_done B law node i j n))) refl refl (tracked j)
      ]

  -- From a node where this holds, where no two calls for one session overlap, while those of different
  -- sessions interleave as they may: at every step the node listens to the channel of a session just
  -- when it has a connection of it, and a session for which no call is in flight is subscribed to once
  -- for each of its connections.
  pub Serves-IsTracked :
      {flights flights' : Flights} {server after : Server B}
      → Serves flights server flights' after
      → IsTracked flights server
      → IsTracked flights' after
  Serves-IsTracked idle tracked = tracked
  Serves-IsTracked {flights = flights} {server = server} (accepts conn rests fresh rest) tracked =
      Serves-IsTracked rest (connecting-IsTracked flights conn server rests fresh tracked)
  Serves-IsTracked {flights = flights} {server = server} (accepted conn n flies rest) tracked =
      Serves-IsTracked rest (connected-IsTracked flights conn n server flies tracked)
  Serves-IsTracked {flights = flights} {server = server} (loses conn rests held rest) tracked =
      Serves-IsTracked rest (disconnecting-IsTracked flights conn server rests held tracked)
  Serves-IsTracked {flights = flights} {server = server} (lost conn n flies rest) tracked =
      Serves-IsTracked rest (disconnected-IsTracked flights conn n server flies tracked)
