-- ===== src/Handlers/Websocket.antt =====
-- affinidi-messaging-mediator/src/handlers/websocket.rs: one web socket, and the two counters of
-- database/stats.rs that it increments. The loop is a function of the events that `select!` takes.
pub mod Laws
pub mod Tests
use Prim.Native.String.{len}
use affinidi_messaging.Common.{
  ℕ, String, Bool, true, false, List, [], ◌∷◌, ◌++◌, ltb, Result, ok, err, panic, ◌>>◌, Action,
  if◌then◌else◌,
}
use affinidi_messaging.Errors.{MediatorError, Session, database_error}
use affinidi_messaging.Redis.{Redis, World, text, num, cmd, M, get_async_connection, run}
use affinidi_messaging.Tasks.Update.{StreamingUpdateState, register, deregister}
use affinidi_messaging.Messages.{Outside, Clock, Config}
use affinidi_messaging.Messages.Inbound.{Crypto, InboundMessageResponse, handle_inbound}

-- What the loop takes up: from the client a text, another frame, an error or the end, and from the
-- streaming task a message or the end of the channel. A text comes with the clock's readings while
-- it is handled, a message with whether the socket takes it.
pub data SocketEvent : Type 0 where
  text_message : String → Clock → SocketEvent
  other_message receive_error closed : SocketEvent
  task_message : String → Bool → SocketEvent
  task_closed : SocketEvent

-- The world, and the frames that the socket took.
pub record Socket (Db : Type 0) : Type 0 where
  pub world : World Db
  pub sent : List String

-- How the loop ends: not yet, by `break`, or by a panic, which ends the task of the socket.
pub data Ending : Type 0 where
  still_open left panicked : Ending

module _ (r : Redis) where
  abbrev pub increment : String → String → M r (Unit {0})
  increment counter problem =
      get_async_connection r
      >> run r (database_error "INTERNAL" problem)
          (cmd "HINCRBY" (text "GLOBAL" ∷ text counter ∷ num 1 ∷ []) ∷ [])

  unfoldable pub global_stats_increment_websocket_open : M r (Unit {0})
  global_stats_increment_websocket_open =
      increment "WEBSOCKET_OPEN" "Couldn't update GLOBAL(WEBSOCKET_OPEN) stats. Reason: {}"

  unfoldable pub global_stats_increment_websocket_close : M r (Unit {0})
  global_stats_increment_websocket_close =
      increment "WEBSOCKET_CLOSE" "Couldn't update GLOBAL(WEBSOCKET_CLOSE) stats. Reason: {}"

module _ (r : Redis) (o : Outside) (crypto : Crypto) (config : Config) (ws_size_limit : ℕ)
    (session : Session) where
  -- What an answer means for the loop: a panic ends it, anything else is only logged.
  abbrev pub went_on :
      Result MediatorError InboundMessageResponse × World r.Db
      → (World r.Db → Ending × Socket r.Db)
      → List String
      → Ending × Socket r.Db
  went_on (panic, w) continue sent = (panicked, record { world = w; sent = sent })
  went_on (_, w) continue sent = continue w

  -- `socket.send(..)`, whose error is passed over.
  abbrev pub send : Bool → String → List String → List String
  send true msg sent = sent ++ msg ∷ []
  send false msg sent = sent

  unfoldable pub socket_loop : List SocketEvent → World r.Db → List String → Ending × Socket r.Db
  socket_loop [] w sent = (still_open, record { world = w; sent = sent })
  socket_loop (text_message msg clock ∷ events) w sent =
      if ltb ws_size_limit (len msg)
      then (left, record { world = w; sent = sent })
      else went_on (handle_inbound r o crypto config clock session msg w)
          (λ w'. socket_loop events w' sent) sent
  socket_loop (other_message ∷ events) w sent = socket_loop events w sent
  socket_loop (receive_error ∷ events) w sent = socket_loop events w sent
  socket_loop (closed ∷ events) w sent = (left, record { world = w; sent = sent })
  socket_loop (task_message msg taken ∷ events) w sent = socket_loop events w (send taken msg sent)
  socket_loop (task_closed ∷ events) w sent = (left, record { world = w; sent = sent })

  -- `streaming.channel.send(..)`, where there is a streaming task. It fails once the task has
  -- ended.
  abbrev pub queued : StreamingUpdateState → World r.Db → World r.Db
  queued state w = record w {
    updates = w.updates ++ record { did_hash = session.did_hash; state = state } ∷ [];
  }

  abbrev pub tell : Bool → Bool → StreamingUpdateState → World r.Db → World r.Db
  tell true true state w = queued state w
  tell _ _ state w = w

  abbrev pub told : StreamingUpdateState → World r.Db → World r.Db
  told state w = tell config.streaming_task w.task_runs state w

  abbrev pub refused : Bool → Bool → Bool
  refused true false = true
  refused _ _ = false

  -- What follows the loop. A panic skips it.
  abbrev pub leave : Ending × Socket r.Db → Ending × Socket r.Db
  leave (left, s) = (
    left,
    record s { world = (global_stats_increment_websocket_close r (told deregister s.world)).1 },
  )
  leave (ending, s) = (ending, s)

  -- `channel` is the channel that the socket makes for itself.
  unfoldable pub handle_socket : ℕ → List SocketEvent → World r.Db → Ending × Socket r.Db
  unfolding socket_loop
  handle_socket channel events w =
      if refused config.streaming_task w.task_runs
      then (left, record { world = w; sent = [] })
      else leave (
          socket_loop events (global_stats_increment_websocket_open r (told (register channel) w)).1
            [])
