-- ===== src/Handlers/Websocket/Tests.antt =====
-- One web socket of the client of Messages.Tests.
use affinidi_messaging.Common.{true, false, List, [], ◌∷◌, some, ◌≡◌, refl, arith, ok}
use affinidi_messaging.Redis.Toy.{toy, empty_world}
use affinidi_messaging.Tasks.Update.{register}
use affinidi_messaging.Messages.{message_pickup_status_request, from_str}
use affinidi_messaging.Messages.Tests.{alice, outside, config, clock, no_route, no_route_invalid}
use affinidi_messaging.Messages.Inbound.{Crypto, unpacked}
use affinidi_messaging.Handlers.Websocket.{
  SocketEvent, text_message, other_message, task_message, still_open, panicked, socket_loop,
  handle_socket,
}
use affinidi_messaging.Handlers.Websocket.Laws.{socket_loop_sent, panic_stays_registered}

abbrev crypto : Crypto
crypto = record {
  unpack = λ limit s. unpacked no_route true;
  pack_encrypted = λ msg to from mediator limit. some to;
}

abbrev two_messages : List SocketEvent
two_messages =
    task_message "one" true
    ∷ other_message
    ∷ task_message "lost" false
    ∷ task_message "two" true
    ∷ []

two_messages_open :
    (socket_loop toy outside crypto config 100 alice two_messages empty_world []).0 ≡ still_open
unfolding socket_loop
two_messages_open = refl

socket_loop_sent_example :
    (socket_loop toy outside crypto config 100 alice two_messages empty_world []).1.sent
    ≡ "one" ∷ "two" ∷ []
socket_loop_sent_example =
    socket_loop_sent toy outside crypto config 100 alice two_messages empty_world []
      two_messages_open

status_known : from_str no_route.type_ ≡ ok message_pickup_status_request
unfolding from_str
status_known = refl

panic_stays_registered_example :
    ((handle_socket toy outside crypto config 100 alice 7
        (text_message "jwe" clock ∷ [])
        empty_world).0
      ≡ panicked)
    × ((handle_socket toy outside crypto config 100 alice 7
          (text_message "jwe" clock ∷ [])
          empty_world).1.world.updates
        ≡ record { did_hash = "a"; state = register 7 } ∷ [])
panic_stays_registered_example =
    panic_stays_registered toy outside crypto config 100 alice 7 "jwe" clock [] no_route true _
      empty_world refl refl (omega arith) refl status_known refl no_route_invalid
