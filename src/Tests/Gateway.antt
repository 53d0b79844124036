-- ===== src/Tests/Gateway.antt =====
-- Redis as three functions, clients that come and go, messages, and a command for a game that is not there.
use monopoly_be.Prelude.{
  arith, ◌⊎◌, pos, ℤ, ℕ, String, str_eq, app_error, AppError, ◌+◌, ◌≡◌, refl, Bool, true, false,
  List, [], ◌∷◌, if◌then◌else◌,
}
use monopoly_be.Schema.{end_turn}
use monopoly_be.Sessions.{SessionDocument, session_conflicts}
use monopoly_be.Users.{user_conflicts}
use monopoly_be.Games.{apply_intent, find_by_session_id, game_conflicts}
use monopoly_be.Gateway.{
  Connection, Broker, IsBroker, Server, World, connecting, connected, disconnecting, disconnected,
  apply_and_publish, bucket_of, is_in, register, add, put_bucket, subscribe_called, subscribe_done,
  unsubscribe_called, put_subscribers, subscribers, publish_called, publish_done, Pending,
  grace_then_remove,
}
use monopoly_be.Gateway.Tracking.{
  Flights, with_flight, resting, subscribing, unsubscribing, IsTracked, Serves, accepts, accepted,
  loses, lost, Serves-IsTracked,
}
use monopoly_be.Gateway.Race.{after_overlap, connecting-overlap}
use monopoly_be.Gateway.Numbers.{
  IsNumbered, Publishes, takes, sends, times, waiting, Publishes-IsNumbered,
}
use monopoly_be.Gateway.Refused.{IsRefused, apply_and_publish-IsRefused}
use monopoly_be.Sessions.Lobby.{IsLobbies}
use monopoly_be.Gateway.{Pending, grace_then_remove}
use monopoly_be.Gateway.Cleanup.{IsAbsent, grace_then_remove-IsAbsent}
use monopoly_be.Tests.Sessions.{two_members, two_members-IsLobbies, somebody}
use monopoly_be.Tests.Stores.{listed, listed-IsCollection}
use monopoly_be.Tests.Engine.{counting, call}

abbrev redis : Broker String
redis = record {
  State = (String → ℕ) × (String → List (ℕ × String)) × (String → Bool);
  incr = λ i s. (s.0 i + 1, (λ j. if str_eq i j then s.0 i + 1 else s.0 j, s.1, s.2));
  current = λ i s. s.0 i;
  publish = λ i m s. (s.0, λ j. if str_eq i j then m ∷ s.1 j else s.1 j, s.2);
  subscribe = λ i s. (s.0, s.1, λ j. if str_eq i j then true else s.2 j);
  unsubscribe = λ i s. (s.0, s.1, λ j. if str_eq i j then false else s.2 j);
}

abbrev redis-IsBroker : IsBroker redis
redis-IsBroker = record {
  published = λ s. s.1;
  listening = λ s. s.2;
  incr_reply = λ i s. refl;
  incr_current = λ i j s. refl;
  incr_published = λ i j s. refl;
  publish_current = λ i j m s. refl;
  publish_published = λ i j m s. refl;
  subscribe_listening = λ i j s. refl;
  unsubscribe_listening = λ i j s. refl;
}

abbrev fresh_redis : Broker.State redis
fresh_redis = (λ i. 0, λ i. [], λ i. false)

abbrev ann_tab : Connection
ann_tab = record { connection_id = 1; session_id = "s1"; user_id = "ann"; display_name = "Ann" }

abbrev bob_tab : Connection
bob_tab = record { connection_id = 2; session_id = "s1"; user_id = "bob"; display_name = "Bob" }

abbrev idle_server : Server redis
idle_server = ([], ([], fresh_redis), [])

-- Ann comes, and Bob once she is in; meanwhile Cid comes to another session. Then Ann goes.
abbrev cid_tab : Connection
cid_tab = record { connection_id = 3; session_id = "s2"; user_id = "cid"; display_name = "Cid" }

abbrev ann_comes : Server redis
ann_comes = (connecting redis ann_tab idle_server).1

abbrev cid_comes : Server redis
cid_comes = (connecting redis cid_tab ann_comes).1

abbrev ann_in : Server redis
ann_in = connected redis ann_tab 0 cid_comes

abbrev bob_comes : Server redis
bob_comes = (connecting redis bob_tab ann_in).1

abbrev bob_in : Server redis
bob_in = connected redis bob_tab 1 bob_comes

abbrev ann_goes : Server redis
ann_goes = (disconnecting redis ann_tab bob_in).1

abbrev after_visits : Server redis
after_visits = disconnected redis ann_tab 2 ann_goes

abbrev no_calls : Flights
no_calls j = resting

abbrev calls_after : Flights
calls_after =
    with_flight
      (with_flight
        (with_flight
          (with_flight
            (with_flight
              (with_flight (with_flight no_calls "s1" (subscribing 0)) "s2" (subscribing 0)) "s1"
              resting)
            "s1" (subscribing 1))
          "s1" resting)
        "s1" (unsubscribing 2))
      "s1" resting

visits : Serves redis redis-IsBroker no_calls idle_server calls_after after_visits
unfolding connecting connected disconnecting is_in bucket_of register add put_bucket
    subscribe_called subscribe_done unsubscribe_called subscribers put_subscribers
visits = accepts {server = idle_server} ann_tab refl refl (
    accepts {server = ann_comes} cid_tab refl refl (
      accepted {server = cid_comes} ann_tab 0 refl (
        accepts {server = ann_in} bob_tab refl refl (
          accepted {server = bob_comes} bob_tab 1 refl (
            loses {server = bob_in} ann_tab refl refl
              (lost {server = ann_goes} ann_tab 2 refl Serves.idle))))))

Serves-IsTracked_example : IsTracked redis redis-IsBroker calls_after after_visits
unfolding subscribers bucket_of
Serves-IsTracked_example =
    Serves-IsTracked redis redis-IsBroker visits
      (λ j. record { counted = refl; heard = refl; once = tt })

-- Ann and Bob come at once.
connecting-overlap_example :
    (is_in (bucket_of (after_overlap redis redis-IsBroker ann_tab bob_tab idle_server).0 "s1") 2
      ≡ true)
    × (redis-IsBroker.listening
          (after_overlap redis redis-IsBroker ann_tab bob_tab idle_server).1.1
          "s1"
        ≡ false)
unfolding subscribers bucket_of
connecting-overlap_example =
    connecting-overlap redis redis-IsBroker ann_tab bob_tab idle_server refl refl refl refl

-- Two messages of one session, which are sent in the other order.
sendings : Publishes redis redis-IsBroker [] fresh_redis [] (
    publish_done redis "s1" 1 "a" (
      publish_done redis "s1" 2 "b"
        (publish_called redis "s1" (publish_called redis "s1" fresh_redis).1).1))
unfolding publish_called
sendings = takes "s1" "a" (
    takes "s1" "b"
      (sends [] "s1" 2 "b" (("s1", 1, "a") ∷ []) refl (sends [] "s1" 1 "a" [] refl Publishes.idle)))

Publishes-IsNumbered_example : IsNumbered redis redis-IsBroker [] (
    publish_done redis "s1" 1 "a" (
      publish_done redis "s1" 2 "b"
        (publish_called redis "s1" (publish_called redis "s1" fresh_redis).1).1))
unfolding times waiting
Publishes-IsNumbered_example =
    Publishes-IsNumbered redis redis-IsBroker sendings
      (record { once = λ j k. omega arith; counted = λ j k hi. refl })

abbrev gainless : ℤ → ℕ → ℕ → ℤ → List ℤ → ℤ
gainless k n placement rating opponents = pos 0

abbrev empty_world :
    World counting
      (listed game_conflicts)
      (listed session_conflicts)
      (listed user_conflicts)
      gainless
empty_world = record { games = []; sessions = []; users = [] }

apply_and_publish-IsRefused_example :
    IsRefused counting
      (listed game_conflicts)
      (listed-IsCollection game_conflicts)
      (listed session_conflicts)
      (listed user_conflicts)
      gainless
      (app_error (AppError.game_not_found "s1"))
      empty_world
      (apply_and_publish counting
        (listed game_conflicts)
        (listed session_conflicts)
        (listed user_conflicts)
        gainless
        ann_tab
        end_turn
        call
        empty_world)
unfolding apply_intent find_by_session_id
apply_and_publish-IsRefused_example =
    apply_and_publish-IsRefused counting (listed game_conflicts)
      (listed-IsCollection game_conflicts) (listed session_conflicts) (listed user_conflicts)
      gainless ann_tab end_turn call empty_world (app_error (AppError.game_not_found "s1")) tt refl

-- Bob stays away from a session that waits.
abbrev after_grace : Pending × List SessionDocument
after_grace =
    grace_then_remove (listed session_conflicts) somebody (λ c. c) [] "s1" "bob" (pos 30)
      (("s1", "bob") ∷ [], two_members ∷ [])

grace_then_remove-IsAbsent_example :
    IsLobbies after_grace.1
    × (after_grace.1 ≡ two_members ∷ []
        ⊎ IsAbsent
            (listed session_conflicts)
            (listed-IsCollection session_conflicts)
            somebody
            (λ c. c)
            []
            "s1"
            "bob"
            (two_members ∷ []))
grace_then_remove-IsAbsent_example =
    grace_then_remove-IsAbsent (listed session_conflicts) (listed-IsCollection session_conflicts)
      somebody (λ c. c) [] "s1" "bob" (pos 30) (("s1", "bob") ∷ []) (two_members ∷ [])
      two_members-IsLobbies
