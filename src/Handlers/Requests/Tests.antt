-- ===== src/Handlers/Requests/Tests.antt =====
-- Requests of alice at and beyond the limits, over the server of Redis.Toy.
use affinidi_messaging.Common.{◌≤◌, String, true, List, [], none, some, ◌≡◌, refl, ok}
use affinidi_messaging.Errors.{Session}
use affinidi_messaging.Redis.{get_async_connection, query_async}
use affinidi_messaging.Redis.Toy.{toy, empty_world}
use affinidi_messaging.Database.Elements.{
  MessageListElement, GetMessagesResponse, empty_response, FetchOptions, do_not_delete, inbox,
}
use affinidi_messaging.Database.Messages.{fetch_items, fetch_messages, list_messages}
use affinidi_messaging.Handlers.Requests.{
  SuccessResponse, success, inbox_fetch_handler, message_list_handler,
}
use affinidi_messaging.Handlers.Requests.Limits.{
  inbox_fetch_handler-checks, message_list_handler-own,
}

abbrev alice : Session
alice = record {
  session_id = "s";
  challenge_sent = none;
  authenticated = true;
  did = "did:a";
  did_hash = "a";
}

abbrev ten : FetchOptions
ten = record { limit = 10; start_id = none; delete_policy = do_not_delete }

abbrev fetched : SuccessResponse GetMessagesResponse
fetched = success alice empty_response

inbox_ten : inbox_fetch_handler toy (λ s. true) alice ten empty_world ≡ (ok fetched, empty_world)
unfolding inbox_fetch_handler fetch_messages fetch_items get_async_connection query_async
inbox_ten = refl

inbox_fetch_handler-checks_example :
    (1 ≤ 10)
    × (10 ≤ 100)
    × ((id : String) → ten.start_id ≡ some id → true ≡ true)
    × (fetch_messages toy "s" "a" ten empty_world ≡ (ok empty_response, empty_world))
inbox_fetch_handler-checks_example =
    inbox_fetch_handler-checks toy (λ s. true) alice ten fetched empty_world empty_world inbox_ten

abbrev listed : SuccessResponse (List MessageListElement)
listed = success alice []

listed_own : message_list_handler toy 100 alice "a" inbox empty_world ≡ (ok listed, empty_world)
unfolding message_list_handler list_messages get_async_connection query_async
listed_own = refl

message_list_handler-own_example :
    ◌≡◌ {A = String} "a" "a"
    × (list_messages toy "a" inbox none 100 empty_world ≡ (ok [], empty_world))
message_list_handler-own_example =
    message_list_handler-own toy 100 alice "a" inbox listed empty_world empty_world listed_own
