-- ===== src/Tasks/Streaming.antt =====
-- affinidi-messaging-mediator/src/tasks/websocket_streaming.rs: the task that forwards pub/sub
-- messages to the clients' web sockets. Its loop is a step function over the events that `select!`
-- takes; the connection to the pub/sub channel is not modelled.
pub mod Clients
pub mod Reached
pub mod Agreement
pub mod Live
pub mod Tests
use affinidi_messaging.Common.{
  ℕ, String, Bool, true, false, ◌||◌, List, [], ◌∷◌, ◌++◌, Option, none, some, lookup, insert,
  remove, Result, ok, err, panic, Action, pure, handle, ◌>>=◌, ◌>>◌, if◌then◌else◌,
}
use affinidi_messaging.Errors.{MediatorError}
use affinidi_messaging.Redis.{Redis, World, M}
use affinidi_messaging.Tasks.Update.{
  StreamingUpdateState, register, start, stop, deregister, StreamingUpdate, PubSubRecord,
}
use affinidi_messaging.Database.Streaming.{
  streaming_register_client, streaming_start_live, streaming_stop_live, streaming_deregister_client,
  streaming_clean_start,
}

-- Who is registered: the channel of the client's web socket, and whether the client is active.
abbrev pub Clients : Type 0
Clients = List (String × (ℕ × Bool))

-- What one round of the loop takes up: a pub/sub record, with whether the receiver of the client's
-- channel is still there for it, a text that is no record, a payload that is no text, the end of
-- the Redis connection, or a command.
pub data Event : Type 0 where
  published : PubSubRecord → Bool → Event
  not_a_record no_payload reconnect : Event
  command : StreamingUpdate → Event

-- A message that a web socket's channel takes.
pub record Delivery : Type 0 where
  pub channel : ℕ
  pub message : String

pub record State (Db : Type 0) : Type 0 where
  pub clients : Clients
  pub world : World Db
  pub deliveries : List Delivery

abbrev pub set_active : String → Bool → Clients → Clients
set_active did_hash active clients = elim (lookup did_hash clients) [
  | none ↦ clients
  | some (tx, old) ↦ insert did_hash (tx, active) clients
]

module _ (r : Redis) (uuid : String) where
  open r use {Db}

  -- The world after a database call whose error is only logged.
  abbrev after : M r (Unit {0}) → World Db → World Db
  after m w = (m w).1

  -- `tx.send(..)`, whose error is only logged.
  abbrev pub send : Bool → ℕ → String → State Db → State Db
  send true tx message s = record s {
    deliveries = s.deliveries ++ record { channel = tx; message = message } ∷ [];
  }
  send false tx message s = s

  unfoldable pub publish : PubSubRecord → Bool → State Db → State Db
  publish payload received s = elim (lookup payload.did_hash s.clients) [
    | none ↦ s
    | some (tx, active) ↦
        if payload.force_delivery || active
        then send received tx payload.message s
        else record s { world = after (streaming_stop_live r payload.did_hash uuid) s.world }
  ]

  unfoldable pub update : String → StreamingUpdateState → State Db → State Db
  update did_hash (register tx) s = record s {
    clients = insert did_hash (tx, false) s.clients;
    world = after (streaming_register_client r did_hash uuid) s.world;
  }
  update did_hash start s = record s {
    clients = set_active did_hash true s.clients;
    world = after (streaming_start_live r did_hash uuid) s.world;
  }
  update did_hash stop s = record s {
    clients = set_active did_hash false s.clients;
    world = after (streaming_stop_live r did_hash uuid) s.world;
  }
  update did_hash deregister s = record s {
    clients = remove did_hash s.clients;
    world = after (streaming_deregister_client r did_hash uuid) s.world;
  }

  -- `serde_json::from_str(..).unwrap()` on a text that is no record ends the task.
  unfoldable pub step : Event → State Db → State Db
  unfolding publish update
  step (published payload received) s = publish payload received s
  step not_a_record s = record s { world = record s.world { task_runs = false } }
  step no_payload s = s
  step reconnect s = s
  step (command u) s = update u.did_hash u.state s

  abbrev pub ends_task : Event → Bool
  ends_task not_a_record = true
  ends_task _ = false

  unfoldable pub run_events : List Event → State Db → State Db
  unfolding step
  run_events [] s = s
  run_events (e ∷ es) s = elim (ends_task e) [ true ↦ step e s | false ↦ run_events es (step e s) ]
