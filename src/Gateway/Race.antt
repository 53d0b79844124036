-- ===== src/Gateway/Race.antt =====
-- src/gateway/backplane.py: two calls of `subscribe` for one session that overlap.
use monopoly_be.Prelude.{
  ℕ, String, str_eq, str_eq_refl, ◌+◌, ◌==◌, ◌≡◌, refl, ap, ◌∙◌, sym, subst, true, false, List, [],
  ◌∷◌, arith,
}
use monopoly_be.Gateway.{
  Connection, Buckets, is_in, discard_connection, bucket_of, register, unregister, Broker, IsBroker,
  subscribers, put_subscribers, subscribe_called, subscribe_done, unsubscribe_called, Server,
  connecting, connected, disconnecting,
}
use monopoly_be.Gateway.Subscribed.{bucket_of-register, bucket_of-unregister}
use monopoly_be.Gateway.Lookups.{subscribers-put_subscribers}

module _ {Message : Type 0} (B : Broker Message) (law : IsBroker B) where
  -- Both clients of a session come while neither `subscribe` has returned, both return, and the first goes.
  abbrev pub after_overlap : Connection → Connection → Server B → Server B
  after_overlap a b server =
      let first = connecting B a server in
      let second = connecting B b first.1 in
      (disconnecting B a (connected B b second.0 (connected B a first.0 second.1))).1

  both_here :
      (a b : Connection) (sessions : Buckets)
      → str_eq a.session_id b.session_id ≡ true
      → str_eq b.session_id a.session_id ≡ true
      → (a.connection_id == b.connection_id) ≡ false
      → bucket_of sessions a.session_id ≡ []
      → is_in
          (bucket_of (unregister a (register b (register a sessions))) b.session_id)
          b.connection_id
        ≡ true
  unfolding is_in discard_connection
  both_here a b sessions same same' other nobody =
      let first : bucket_of (register a sessions) b.session_id ≡ a ∷ [] =
        bucket_of-register B law a sessions b.session_id
          (ap (λ (c : List Connection). is_in c a.connection_id) nobody)
        ∙ rw (same, nobody) refl in
      let alone : is_in (a ∷ []) b.connection_id ≡ false = rw other refl in
      let second : bucket_of (register b (register a sessions)) a.session_id ≡ b ∷ a ∷ [] =
        bucket_of-register B law b (register a sessions) a.session_id
          (ap (λ (c : List Connection). is_in c b.connection_id) first ∙ alone)
        ∙ rw (same', first) refl in
      let third : bucket_of (unregister a (register b (register a sessions))) b.session_id
          ≡ discard_connection a (b ∷ a ∷ []) =
        bucket_of-unregister B law a (register b (register a sessions)) b.session_id
        ∙ rw (same, second) refl in
      let other' : (b.connection_id == a.connection_id) ≡ false = ground (arith, other) in
      let self : (b.connection_id == b.connection_id) ≡ true = ground arith in
      ap (λ (c : List Connection). is_in c b.connection_id) third ∙ rw (other', self) refl

  deaf :
      (i j : String) (subscriptions : List (String × ℕ)) (s : B.State) (n m : ℕ)
      → str_eq j i ≡ true
      → m ≡ 0
      → (unsubscribe_called B i
          (subscribe_done B j m (subscribe_done B i n (subscriptions, s)))).1.1
        ≡ B.unsubscribe i s
  unfolding unsubscribe_called subscribe_done
  deaf i j subscriptions s n m same nobody =
      let one : subscribers (put_subscribers (put_subscribers subscriptions i (n + 1)) j (m + 1)) i
          ≡ 1 =
        subscribers-put_subscribers (put_subscribers subscriptions i (n + 1)) j i (m + 1)
        ∙ rw (same, nobody) refl in
      rw one refl

  -- Two clients of a session that has none on the node, whose calls of `subscribe` overlap: once the
  -- first of them has gone, the second still has its connection, and the node no longer listens to the
  -- channel of the session.
  pub connecting-overlap :
      (a b : Connection) (server : Server B)
      → a.session_id ≡ b.session_id
      → (a.connection_id == b.connection_id) ≡ false
      → bucket_of server.0 a.session_id ≡ []
      → subscribers server.1.0 a.session_id ≡ 0
      → (is_in (bucket_of (after_overlap a b server).0 b.session_id) b.connection_id ≡ true)
        × (law.listening (after_overlap a b server).1.1 b.session_id ≡ false)
  unfolding connecting connected disconnecting subscribe_called
  connecting-overlap a b (sessions, (subscriptions, s), pending) same other nobody none_yet =
      let here = subst (λ k. str_eq a.session_id k ≡ true) same (str_eq_refl a.session_id) in
      let here' = subst (λ k. str_eq k a.session_id ≡ true) same (str_eq_refl a.session_id) in
      let s1 = (subscribe_called B a.session_id (subscriptions, s)).1.1 in
      let s2 = (subscribe_called B b.session_id (subscriptions, s1)).1.1 in
      (
        both_here a b sessions here here' other nobody,
        ap (λ x. law.listening x b.session_id)
              (deaf a.session_id b.session_id subscriptions s2
                (subscribers subscriptions a.session_id) (subscribers subscriptions b.session_id)
                here' (ap (subscribers subscriptions) (sym same) ∙ none_yet))
            ∙ law.unsubscribe_listening a.session_id b.session_id s2
            ∙ rw here refl,
      )
