-- ===== src/Tasks/Streaming/Tests.antt =====
-- A client that registers and starts live delivery, over the server of Redis.Toy.
use affinidi_messaging.Common.{
  true, false, ◌||◌, List, [], ◌∷◌, ◌++◌, none, some, ◌≡◌, ◌⊎◌, refl, lookup, insert, ok, Lacks,
  if◌then◌else◌,
}
use affinidi_messaging.Redis.Toy.{toy, toy-Documented, toy-Reliable, empty_world}
use affinidi_messaging.Tasks.Update.{register, start, deregister, PubSubRecord}
use affinidi_messaging.Database.Streaming.{streaming_is_client_live}
use affinidi_messaging.Tasks.Streaming.{
  State, Event, no_payload, published, command, Delivery, step, run_events,
}
use affinidi_messaging.Tasks.Streaming.Clients.{IsDue, step-IsDue, second_socket_lost}
use affinidi_messaging.Tasks.Streaming.Reached.{started-gets}
use affinidi_messaging.Tasks.Streaming.Agreement.{Agrees, Tracks, table, run_events-Agrees}
use affinidi_messaging.Tasks.Streaming.Live.{streaming_is_client_live_registered}

abbrev nobody : State toy.Db
nobody = record { clients = []; world = empty_world; deliveries = [] }

abbrev joins : List Event
joins =
    command (record { did_hash = "a"; state = register 7 })
    ∷ command (record { did_hash = "a"; state = start })
    ∷ []

abbrev joined : State toy.Db
joined = run_events toy "m1" joins nobody

abbrev hello : PubSubRecord
hello = record { did_hash = "a"; message = "hello"; force_delivery = false }

joined_clients : lookup "a" joined.clients ≡ some (7, true)
unfolding run_events lookup insert
joined_clients = refl

nobody-Agrees : Agrees toy toy-Documented toy-Reliable "m1" nobody
unfolding lookup
nobody-Agrees did = tt

run_events-Agrees_example :
    Tracks "m1" (lookup "a" joined.clients) (toy-Documented.hashes joined.world.db table "a")
run_events-Agrees_example =
    run_events-Agrees toy toy-Documented toy-Reliable "m1" joins nobody nobody-Agrees "a"

step-IsDue_example :
    ((step toy "m1" (published hello true) joined).deliveries ≡ joined.deliveries)
    ⊎ ((d : Delivery) × ((step toy "m1" (published hello true) joined).deliveries
          ≡ joined.deliveries ++ d ∷ [])
        × IsDue joined (published hello true) d)
step-IsDue_example = step-IsDue toy "m1" (published hello true) joined

abbrev others : List Event
others = no_payload ∷ command (record { did_hash = "b"; state = register 9 }) ∷ []

started-gets_example :
    (run_events toy "m1" (joins ++ others ++ published hello true ∷ []) nobody).deliveries
    ≡ (run_events toy "m1" (joins ++ others) nobody).deliveries
      ++ record { channel = 7; message = "hello" } ∷ []
started-gets_example = started-gets toy "m1" others hello 7 nobody (tt, (refl, tt))

abbrev two_sockets : List Event
two_sockets =
    command (record { did_hash = "a"; state = register 7 })
    ∷ command (record { did_hash = "a"; state = register 8 })
    ∷ command (record { did_hash = "a"; state = deregister })
    ∷ []

second_socket_lost_example :
    (lookup "a" (run_events toy "m1" two_sockets nobody).clients ≡ none)
    × ((step toy "m1" (published hello true) (run_events toy "m1" two_sockets nobody)).deliveries
        ≡ (run_events toy "m1" two_sockets nobody).deliveries)
second_socket_lost_example = second_socket_lost toy "m1" "a" 7 8 nobody hello refl

m1-Lacks : Lacks b':' "m1"
m1-Lacks = (refl, (refl, tt))

streaming_is_client_live_registered_example :
    (streaming_is_client_live toy "a" false joined.world).0
    ≡ ok (if true || false then some "m1" else none)
streaming_is_client_live_registered_example =
    streaming_is_client_live_registered toy toy-Documented toy-Reliable "m1" "a" 7 true false joined
      (run_events-Agrees toy toy-Documented toy-Reliable "m1" joins nobody nobody-Agrees) m1-Lacks
      joined_clients
