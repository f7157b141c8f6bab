-- ===== src/Messages/Tests.antt =====
-- Requests of alice to the mediator, over a server that answers every call with an empty list.
use affinidi_messaging.Common.{
  String, Bool, true, false, List, [], ◌∷◌, Option, none, some, ◌≡◌, ◌≢◌, ◌≤◌, refl, lookup, Result,
  ok, err,
}
use affinidi_messaging.Errors.{MediatorError, Session, request_data_error}
use affinidi_messaging.Json.{null, string}
use affinidi_messaging.Didcomm.Message.{Message, build, add_to, set_from, finalize}
use affinidi_messaging.Redis.{World, get_async_connection, query_async}
use affinidi_messaging.Redis.Toy.{toy, empty_world}
use affinidi_messaging.Messages.{
  trust_ping, from_str, Outside, Clock, Config, message, packed_message, ProcessMessageResponse,
}
use affinidi_messaging.Messages.Pickup.{validate_msg, parse_and_validate_delivery_request_body}
use affinidi_messaging.Messages.Pickup.Status.{StatusReply, generate_status_reply}
use affinidi_messaging.Messages.Pickup.Handlers.{status_request, send_update, toggle_live_delivery}
use affinidi_messaging.Messages.Pickup.Validation.{
  IsRequest, validate_msg-iff-IsRequest, delivery_request_body_iff,
}
use affinidi_messaging.Messages.Pickup.Replies.{
  IsReply, Replies, toggled, status_request-answers, toggle_live_delivery-answers,
}
use affinidi_messaging.Messages.Inbound.{Crypto, unpacked, to_did_packed}
use affinidi_messaging.Messages.Inbound.Delivery.{
  StoresAll, to_did_packed-recipients, store_all-total,
}

abbrev pub alice : Session
alice = record {
  session_id = "s";
  challenge_sent = none;
  authenticated = true;
  did = "did:a";
  did_hash = "a";
}

abbrev pub outside : Outside
outside = record {
  ping = λ v. some false;
  status_request = λ v. some none;
  live_delivery = λ v. some true;
  delivery_request = λ v. some ("did:a", 10);
  messages_received = λ v. some [];
  digest = λ s. s;
  base64_encode = λ s. s;
  value_to_string = λ v. "";
  record_to_string = λ p. none;
  uuid = "id-2";
}

abbrev pub config : Config
config = record {
  mediator_did = "did:m";
  to_recipients_limit = 100;
  to_keys_per_recipient_limit = 100;
  crypto_operations_per_message_limit = 1000;
  streaming_task = true;
}

abbrev pub clock : Clock
clock = record { on_process = 10; on_validate = 10; on_reply = 10 }

abbrev ask : String → Message
ask type_ = record (finalize (set_from "did:a" (add_to "did:m" (build "id-1" type_ null)))) {
  extra_headers = ("return_route", string "all") ∷ [];
}

abbrev expired_ping : Message
expired_ping = record (ask "https://didcomm.org/trust-ping/2.0/ping") { expires_time = some 9 }

ping_known : from_str "https://didcomm.org/trust-ping/2.0/ping" ≡ ok trust_ping
unfolding from_str
ping_known = refl

abbrev status_msg : Message
status_msg = ask "https://didcomm.org/messagepickup/3.0/status-request"

validate_msg-iff-IsRequest_example :
    (validate_msg 10 "did:m" status_msg alice ≡ ok tt → IsRequest 10 "did:m" status_msg)
    × (IsRequest 10 "did:m" status_msg → validate_msg 10 "did:m" status_msg alice ≡ ok tt)
validate_msg-iff-IsRequest_example = validate_msg-iff-IsRequest 10 "did:m" status_msg alice

abbrev pub no_route : Message
no_route = record status_msg { extra_headers = [] }

pub no_route_invalid :
    validate_msg 10 "did:m" no_route alice
    ≡ err (request_data_error "s" "return_route: extra-header does not exist! It should!")
unfolding validate_msg lookup
no_route_invalid = refl

delivery_request_body_iff_example :
    (parse_and_validate_delivery_request_body outside alice status_msg ≡ ok ("did:a", 10)
      → (outside.delivery_request null ≡ some ("did:a", 10))
        × ("did:a" ≡ alice.did)
        × (1 ≤ 10)
        × (10 ≤ 100))
    × ((outside.delivery_request null ≡ some ("did:a", 10))
          × ("did:a" ≡ alice.did)
          × (1 ≤ 10)
          × (10 ≤ 100)
        → parse_and_validate_delivery_request_body outside alice status_msg ≡ ok ("did:a", 10))
delivery_request_body_iff_example = delivery_request_body_iff outside alice status_msg "did:a" 10

abbrev answer_in :
    Result MediatorError (Option ProcessMessageResponse) → Option ProcessMessageResponse
answer_in (ok answer) = answer
answer_in _ = none

abbrev status_answer : Option ProcessMessageResponse
status_answer = answer_in (status_request toy outside config clock status_msg alice empty_world).0

status_ran :
    status_request toy outside config clock status_msg alice empty_world
    ≡ (ok status_answer, empty_world)
unfolding status_request validate_msg lookup generate_status_reply get_async_connection query_async
status_ran = refl

status_request-answers_example :
    (validate_msg 10 "did:m" status_msg alice ≡ ok tt)
    × ((d : String) → outside.status_request null ≡ some (some d) → d ≡ "did:a")
    × Replies toy outside "did:m" 10 alice "id-1" false none status_answer empty_world empty_world
status_request-answers_example =
    status_request-answers toy outside config clock status_msg alice status_answer empty_world
      empty_world status_ran

abbrev live_msg : Message
live_msg = ask "https://didcomm.org/messagepickup/3.0/live-delivery-change"

abbrev live_run : Result MediatorError (Option ProcessMessageResponse) × World toy.Db
live_run = toggle_live_delivery toy outside config clock live_msg alice empty_world

live_ran :
    toggle_live_delivery toy outside config clock live_msg alice empty_world
    ≡ (ok (answer_in live_run.0), live_run.1)
unfolding toggle_live_delivery validate_msg lookup send_update generate_status_reply
    get_async_connection query_async
live_ran = refl

toggle_live_delivery-answers_example :
    (live : Bool) × (status : StatusReply) × (outside.live_delivery null ≡ some live)
    × (live_run.1.updates ≡ toggled toy outside config clock live alice empty_world)
    × IsReply "did:m" 10 alice "id-1" true status (answer_in live_run.0)
    × (status.live_delivery ≡ live)
toggle_live_delivery-answers_example =
    toggle_live_delivery-answers toy outside config clock live_msg alice (answer_in live_run.0)
      empty_world live_run.1 refl live_ran

abbrev ping : Message
ping = ask "https://didcomm.org/trust-ping/2.0/ping"

abbrev crypto : Crypto
crypto = record {
  unpack = λ limit s. unpacked ping true;
  pack_encrypted = λ msg to from mediator limit. some to;
}

packed_for_bob :
    to_did_packed toy outside crypto config clock alice true (packed_message "bob" "text")
    ≡ ok (("bob", "text") ∷ [])
unfolding to_did_packed
packed_for_bob = refl

to_did_packed-recipients_example :
    ◌≡◌ {A = Option (List String)} (some ("bob" ∷ [])) (some ("bob" ∷ []))
    × ◌≢◌ {A = List (String × String)} (("bob", "text") ∷ []) []
    × ((msg : Message) → packed_message "bob" "text" ≡ message msg → 1 ≤ 100)
to_did_packed-recipients_example =
    to_did_packed-recipients toy outside crypto config clock alice true
      (packed_message "bob" "text") (("bob", "text") ∷ []) packed_for_bob

abbrev two_packed : List (String × String)
two_packed = ("bob", "text") ∷ ("carol", "text") ∷ []

store_all-total_example :
    StoresAll toy outside crypto config clock alice two_packed
      (record { messages = []; errors = [] })
      empty_world
store_all-total_example =
    store_all-total toy outside crypto config clock alice two_packed
      (record { messages = []; errors = [] }) empty_world
