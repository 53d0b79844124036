-- ===== src/Gateway/Backplane.antt =====
-- src/gateway/backplane.py: the messages between the nodes, over Redis. A `Broker` is what the node uses
-- of Redis, a parameter; `IsBroker` is what its documentation says of the commands.
use monopoly_be.Prelude.{
  ℕ, String, str_eq, ◌+◌, ◌-◌, ◌≡◌, Bool, true, false, List, [], ◌∷◌, ◌==◌, leb, if◌then◌else◌,
}

-- `INCR`, `PUBLISH` and `GET` on the channel and the counter of a session, and (un)subscriptions.
pub record Broker (Message : Type 0) : Type 1 where
  pub State : Type 0
  pub incr : String → State → ℕ × State
  pub current : String → State → ℕ
  pub publish : String → ℕ × Message → State → State
  pub subscribe : String → State → State
  pub unsubscribe : String → State → State

-- `published` lists what was sent on the channel of a session, the latest first.
pub record IsBroker {Message : Type 0} (B : Broker Message) : Type 1 where
  pub published : B.State → String → List (ℕ × Message)
  pub listening : B.State → String → Bool
  pub incr_reply : (i : String) (s : B.State) → (B.incr i s).0 ≡ B.current i s + 1
  pub incr_current :
      (i j : String) (s : B.State)
      → B.current j (B.incr i s).1 ≡ (if str_eq i j then B.current i s + 1 else B.current j s)
  pub incr_published : (i j : String) (s : B.State) → published (B.incr i s).1 j ≡ published s j
  pub publish_current :
      (i j : String) (m : ℕ × Message) (s : B.State) → B.current j (B.publish i m s) ≡ B.current j s
  pub publish_published :
      (i j : String) (m : ℕ × Message) (s : B.State)
      → published (B.publish i m s) j ≡ (if str_eq i j then m ∷ published s j else published s j)
  pub subscribe_listening :
      (i j : String) (s : B.State)
      → listening (B.subscribe i s) j ≡ (if str_eq i j then true else listening s j)
  pub unsubscribe_listening :
      (i j : String) (s : B.State)
      → listening (B.unsubscribe i s) j ≡ (if str_eq i j then false else listening s j)

-- `_subscriptions`: the number of local subscribers of a session.
abbrev pub Subscriptions : Type 0
Subscriptions = List (String × ℕ)

-- `.get(session_id, 0)`
unfoldable pub subscribers : Subscriptions → String → ℕ
subscribers [] session_id = 0
subscribers ((s, n) ∷ subscriptions) session_id =
    if str_eq s session_id then n else subscribers subscriptions session_id

-- `[session_id] = n` and `.pop(session_id, None)`
unfoldable pub put_subscribers : Subscriptions → String → ℕ → Subscriptions
put_subscribers [] session_id n = (session_id, n) ∷ []
put_subscribers ((s, m) ∷ subscriptions) session_id n =
    if str_eq s session_id
    then (s, n) ∷ subscriptions
    else (s, m) ∷ put_subscribers subscriptions session_id n

unfoldable pub pop_subscribers : Subscriptions → String → Subscriptions
pop_subscribers [] session_id = []
pop_subscribers ((s, m) ∷ subscriptions) session_id =
    if str_eq s session_id
    then pop_subscribers subscriptions session_id
    else (s, m) ∷ pop_subscribers subscriptions session_id

module _ {Message : Type 0} (B : Broker Message) where
  -- A started backplane: its subscriptions and the broker.
  abbrev pub Node : Type 0
  Node = Subscriptions × B.State

  -- A call that awaits Redis is two steps, and the steps of other calls may come in between: what it
  -- does up to and with the command that it sends, with the count that it has read, and what it does
  -- once the answer is there. Where no command is sent, the code does not stop between the two.
  unfoldable pub subscribe_called : String → Node → ℕ × Node
  subscribe_called session_id (subscriptions, s) =
      let n = subscribers subscriptions session_id in
      (n, (subscriptions, if n == 0 then B.subscribe session_id s else s))

  unfoldable pub subscribe_done : String → ℕ → Node → Node
  subscribe_done session_id n (subscriptions, s) =
      (put_subscribers subscriptions session_id (n + 1), s)

  unfoldable pub unsubscribe_called : String → Node → ℕ × Node
  unsubscribe_called session_id (subscriptions, s) =
      let n = subscribers subscriptions session_id in
      (n, (subscriptions, if leb n 1 then B.unsubscribe session_id s else s))

  unfoldable pub unsubscribe_done : String → ℕ → Node → Node
  unsubscribe_done session_id n (subscriptions, s) = (
    if leb n 1
        then pop_subscribers subscriptions session_id
        else put_subscribers subscriptions session_id (n - 1),
    s,
  )

  -- `publish` and `publish_game_state`: a number is taken, and then the message goes out under it.
  unfoldable pub publish_called : String → B.State → ℕ × B.State
  publish_called session_id s = B.incr session_id s

  unfoldable pub publish_done : String → ℕ → Message → B.State → B.State
  publish_done session_id seq message s = B.publish session_id (seq, message) s

  unfoldable pub current_seq : String → B.State → ℕ
  current_seq session_id s = B.current session_id s
