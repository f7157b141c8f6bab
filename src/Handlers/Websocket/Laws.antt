-- ===== src/Handlers/Websocket/Laws.antt =====
-- What a web socket passes on, and what a panic in its loop leaves behind.
use Prim.Native.String.{len}
use affinidi_messaging.Common.{
  ℕ, ◌≤◌, String, Bool, true, false, List, [], ◌∷◌, ◌++◌, append_assoc, append-nil, ltb, le→ltb,
  ◌≡◌, refl, sym, ap, ◌∙◌, inl, inr, Bool-cases, Result, ok, err, panic, if◌then◌else◌,
}
use affinidi_messaging.Errors.{MediatorError, Session}
use affinidi_messaging.Didcomm.Message.{Message}
use affinidi_messaging.Redis.{Redis, World, get_async_connection, query_async}
use affinidi_messaging.Tasks.Update.{register}
use affinidi_messaging.Messages.{
  Outside, Clock, Config, message_pickup_status_request, from_str, check_expiry,
}
use affinidi_messaging.Messages.Process.{process, process_type}
use affinidi_messaging.Messages.Pickup.{validate_msg}
use affinidi_messaging.Messages.Pickup.Validation.{invalid_request_panics}
use affinidi_messaging.Messages.Inbound.{Crypto, InboundMessageResponse, unpacked, handle_inbound}
use affinidi_messaging.Handlers.Websocket.{
  SocketEvent, text_message, other_message, receive_error, closed, task_message, task_closed,
  Socket, Ending, still_open, left, panicked, increment, global_stats_increment_websocket_open,
  went_on, socket_loop, queued, tell, refused, leave, handle_socket,
}

-- The messages of the streaming task among the events that the socket takes, in order.
abbrev pub task_messages : List SocketEvent → List String
task_messages [] = []
task_messages (task_message msg true ∷ events) = msg ∷ task_messages events
task_messages (_ ∷ events) = task_messages events

left-ne-open : left ≡ still_open → ⊥
left-ne-open h = cc

panicked-ne-open : panicked ≡ still_open → ⊥
panicked-ne-open h = cc

module _ (r : Redis) (o : Outside) (crypto : Crypto) (config : Config) (ws_size_limit : ℕ)
    (session : Session) where
  abbrev Passes : List SocketEvent → World r.Db → List String → Type 0
  Passes events w sent =
      (socket_loop r o crypto config ws_size_limit session events w sent).0 ≡ still_open
      → (socket_loop r o crypto config ws_size_limit session events w sent).1.sent
        ≡ sent ++ task_messages events

  went_on_sent :
      (p : Result MediatorError InboundMessageResponse × World r.Db) (events : List SocketEvent)
      (sent : List String)
      → ((w : World r.Db) → Passes events w sent)
      → let q =
          went_on r o crypto config ws_size_limit session p
            (λ w'. socket_loop r o crypto config ws_size_limit session events w' sent)
            sent in
        q.0 ≡ still_open → q.1.sent ≡ sent ++ task_messages events
  went_on_sent (ok a, w) events sent later h = later w h
  went_on_sent (err e, w) events sent later h = later w h
  went_on_sent (panic, w) events sent later h = absurd (panicked-ne-open h)

  -- As long as the socket is open, what it took for the client is every message that came from the
  -- streaming task and that it did not refuse, and nothing else, in order; a message that it refused
  -- is not sent again.
  pub socket_loop_sent :
      (events : List SocketEvent) (w : World r.Db) (sent : List String)
      → (socket_loop r o crypto config ws_size_limit session events w sent).0 ≡ still_open
      → (socket_loop r o crypto config ws_size_limit session events w sent).1.sent
        ≡ sent ++ task_messages events
  unfolding socket_loop
  socket_loop_sent [] w sent h = sym (append-nil sent)
  socket_loop_sent (text_message msg clock ∷ events) w sent h =
      elim (Bool-cases (ltb ws_size_limit (len msg))) [
        | inl long ↦ absurd (left-ne-open (rw long at h))
        | inr short ↦ rw short (
            went_on_sent (handle_inbound r o crypto config clock session msg w) events sent
              (λ w'. socket_loop_sent events w' sent) (rw short at h))
      ]
  socket_loop_sent (other_message ∷ events) w sent h = socket_loop_sent events w sent h
  socket_loop_sent (receive_error ∷ events) w sent h = socket_loop_sent events w sent h
  socket_loop_sent (closed ∷ events) w sent h = absurd (left-ne-open h)
  socket_loop_sent (task_message msg false ∷ events) w sent h = socket_loop_sent events w sent h
  socket_loop_sent (task_message msg true ∷ events) w sent h =
      socket_loop_sent events w (sent ++ msg ∷ []) h
      ∙ append_assoc sent (msg ∷ []) (task_messages events)
  socket_loop_sent (task_closed ∷ events) w sent h = absurd (left-ne-open h)

  increment_updates :
      (counter problem : String) (w : World r.Db)
      → (increment r counter problem w).1.updates ≡ w.updates
  unfolding get_async_connection query_async
  increment_updates counter problem w = elim (Bool-cases (r.connects w.db)) [
    | inl up ↦ rw up refl
    | inr down ↦ rw down refl
  ]

  handle_inbound-panics :
      (msg : String) (clock : Clock) (m : Message) (encrypted : Bool) (e : MediatorError)
      (w : World r.Db)
      → crypto.unpack config.crypto_operations_per_message_limit msg ≡ unpacked m encrypted
      → from_str m.type_ ≡ ok message_pickup_status_request
      → check_expiry "-1" clock.on_process m.expires_time ≡ ok tt
      → validate_msg clock.on_validate config.mediator_did m session ≡ err e
      → handle_inbound r o crypto config clock session msg w ≡ (panic, w)
  unfolding handle_inbound process process_type
  handle_inbound-panics msg clock m encrypted e w open' known fresh bad =
      let (panics, _, _, _) = invalid_request_panics r o config clock m session e w bad in
      rw (open', handle_inbound, known, fresh, panics)

  -- The loop that starts with such a message.
  socket_loop-panics :
      (msg : String) (clock : Clock) (events : List SocketEvent) (w : World r.Db)
      → len msg ≤ ws_size_limit
      → handle_inbound r o crypto config clock session msg w ≡ (panic, w)
      → socket_loop r o crypto config ws_size_limit session (text_message msg clock ∷ events) w []
        ≡ (panicked, record { world = w; sent = [] })
  unfolding socket_loop
  socket_loop-panics msg clock events w short panics =
      rw (le→ltb ws_size_limit (len msg) short, panics)

  -- A socket whose registration is taken up starts its loop after it.
  registered :
      (b c : Bool) (channel : ℕ) (events : List SocketEvent) (w : World r.Db)
      (start : World r.Db → World r.Db) (other : Ending × Socket r.Db)
      → b ≡ true
      → c ≡ true
      → (if refused r o crypto config ws_size_limit session b c
          then other
          else leave r o crypto config ws_size_limit session (
              socket_loop r o crypto config ws_size_limit session events
                (start (tell r o crypto config ws_size_limit session b c (register channel) w))
                []))
        ≡ leave r o crypto config ws_size_limit session (
            socket_loop r o crypto config ws_size_limit session events
              (start (queued r o crypto config ws_size_limit session (register channel) w))
              [])
  registered true true channel events w start other task runs = refl
  registered true false channel events w start other task runs = cc
  registered false c channel events w start other task runs = cc

  -- A status request that is unpacked and has not expired but fails its check, sent over a web
  -- socket in a text within the size limit, ends the socket's task by a panic. Where the
  -- streaming task runs, the client stays registered with it, since the registration is the only
  -- command that the socket has sent.
  pub panic_stays_registered :
      (channel : ℕ) (msg : String) (clock : Clock) (events : List SocketEvent) (m : Message)
      (encrypted : Bool) (e : MediatorError) (w : World r.Db)
      → config.streaming_task ≡ true
      → w.task_runs ≡ true
      → len msg ≤ ws_size_limit
      → crypto.unpack config.crypto_operations_per_message_limit msg ≡ unpacked m encrypted
      → from_str m.type_ ≡ ok message_pickup_status_request
      → check_expiry "-1" clock.on_process m.expires_time ≡ ok tt
      → validate_msg clock.on_validate config.mediator_did m session ≡ err e
      → let run =
          handle_socket r o crypto config ws_size_limit session channel
            (text_message msg clock ∷ events)
            w in
        (run.0 ≡ panicked)
        × (run.1.world.updates
            ≡ w.updates ++ record { did_hash = session.did_hash; state = register channel } ∷ [])
  unfolding handle_socket global_stats_increment_websocket_open
  panic_stays_registered channel msg clock events m encrypted e w task runs short open' known fresh
        bad =
      let opened : World r.Db → World r.Db = λ v.
        (increment r "WEBSOCKET_OPEN" "Couldn't update GLOBAL(WEBSOCKET_OPEN) stats. Reason: {}"
          v).1 in
      let w₁ = opened (queued r o crypto config ws_size_limit session (register channel) w) in
      let loop =
        socket_loop-panics msg clock events w₁ short
          (handle_inbound-panics msg clock m encrypted e w₁ open' known fresh bad) in
      let ran =
        registered config.streaming_task w.task_runs channel (text_message msg clock ∷ events) w
          opened (left, record { world = w; sent = [] }) task runs
        ∙ ap (leave r o crypto config ws_size_limit session) loop in
      (
        ap (λ q. q.0) ran,
        ap (λ q. q.1.world.updates) ran
            ∙ increment_updates _ _
                (queued r o crypto config ws_size_limit session (register channel) w),
      )
