-- ===== src/Didcomm/Routing/Services.antt =====
-- affinidi-messaging-didcomm/src/protocols/routing/mod.rs: the services of a recipient, which say
-- whether its messages are wrapped in forwards, and the wrapping.
pub mod Chain
use affinidi_messaging.Common.{zero, suc, not, ltb, length}
use affinidi_messaging.Common.{
  ℕ, String, Bool, true, false, List, [], ◌∷◌, ◌++◌, map, any, find, Option, none, some, ◌=ₛ◌,
  Result, ok, err, panic, then_ok, ensure, if◌then◌else◌,
}
use affinidi_messaging.Json.{Value, Fields, get}
use affinidi_messaging.Didcomm.Error.{ErrorKind, ok_or}
use affinidi_messaging.Didcomm.Keys.{Service, Endpoint, Document, is_did}
use affinidi_messaging.Didcomm.Crypto.{Resolvers}
use affinidi_messaging.Didcomm.Routing.{Outside, wrap_in_forward}

pub record DidcommMessagingService : Type 0 where
  pub uri : String
  pub accept : Option (List String)
  pub routing_keys : List String

-- What serde_json reads in an endpoint.
pub record ServiceSerde : Type 0 where
  pub read_accept : Value → Option (List String)
  pub read_service : Fields → Option DidcommMessagingService

pub record MessagingServiceMetadata : Type 0 where
  pub id : String
  pub service_endpoint : String

abbrev pub Found : Type 0
Found = String × DidcommMessagingService

-- `first().map(..).is_some()`: the comparison with "DIDCommMessaging" is mapped over, not tested.
abbrev pub check_service_type : Service → Result ErrorKind (Unit {0})
check_service_type service = elim service.type_ [
  | [] ↦ err ErrorKind.invalid_state
  | t ∷ ts ↦ ok tt
]

module _ (serde : ServiceSerde) where
  abbrev accepts : Option Value → Bool
  accepts none = true
  accepts (some accept) = elim (serde.read_accept accept) [
    | some profiles ↦ any (λ p. p =ₛ "didcomm/v2") profiles
    | none ↦ false
  ]

  abbrev accepts_didcomm : Endpoint → Bool
  accepts_didcomm (Endpoint.uri u) = false
  accepts_didcomm (Endpoint.map fs) = accepts (get "accept" fs)

  abbrev read_endpoint : Service → Option Endpoint → Result ErrorKind (Option Found)
  read_endpoint service none = err ErrorKind.illegal_argument
  read_endpoint service (some (Endpoint.uri u)) = err ErrorKind.invalid_state
  read_endpoint service (some (Endpoint.map fs)) =
      then_ok (ok_or ErrorKind.invalid_state (serde.read_service fs))
        λ found. ok (some (service.id, found))

  unfoldable pub check_service : Service → Result ErrorKind (Option Found)
  unfolding get
  check_service service = then_ok (check_service_type service) λ _.
      then_ok (ok_or ErrorKind.invalid_state service.service_endpoint)
        λ endpoints. read_endpoint service (find accepts_didcomm endpoints)

  abbrev or_rest : Result ErrorKind (Option Found) → Option Found → Option Found
  or_rest (ok (some found)) rest = some found
  or_rest _ rest = rest

  -- `find_map` over the services, whose errors are passed over.
  unfoldable pub first_service : List Service → Option Found
  unfolding check_service
  first_service [] = none
  first_service (service ∷ services) = or_rest (check_service service) (first_service services)

  module _ (resolvers : Resolvers) where
    unfoldable pub find_did_comm_service :
        Document → Option String → Result ErrorKind (Option Found)
    unfolding check_service first_service
    find_did_comm_service did_doc (some service_id) =
        then_ok (ok_or ErrorKind.invalid_state (resolvers.service did_doc service_id)) check_service
    find_did_comm_service did_doc none = ok (first_service did_doc.service)

    -- What a round of the loop puts in front of the services, where `service` was put last.
    abbrev pub next_service : Found → List Found → Result ErrorKind Found
    next_service service services =
        then_ok (ensure (not (ltb 1 (length services))) ErrorKind.invalid_state) λ _.
          then_ok (ok_or ErrorKind.did_not_resolved (resolvers.resolve service.1.uri)) λ doc.
            then_ok (find_did_comm_service doc none) λ found. ok_or ErrorKind.invalid_state found

    -- The loop, by fuel: the services at its end, or `none` when the fuel runs out.
    unfoldable pub follow : ℕ → Found → List Found → Result ErrorKind (Option (List Found))
    unfolding find_did_comm_service is_did
    follow zero service services = ok none
    follow (suc fuel) service services = elim (is_did service.1.uri) [
      | false ↦ ok (some services)
      | true ↦ then_ok (next_service service services) λ next. follow fuel next (next ∷ services)
    ]

    -- Out of fuel stands for a loop that does not end.
    abbrev pub at_end : Option (List Found) → Result ErrorKind (List Found)
    at_end (some services) = ok services
    at_end none = panic

    -- The fuel is for three rounds: the guard on the length lets the first one through.
    abbrev pub chain_of : Option Found → Result ErrorKind (List Found)
    chain_of none = ok []
    chain_of (some service) = then_ok (follow 3 service (service ∷ [])) at_end

    unfoldable pub resolve_did_comm_services_chain :
        String → Option String → Result ErrorKind (List Found)
    unfolding find_did_comm_service follow
    resolve_did_comm_services_chain to service_id =
        then_ok (ok_or ErrorKind.did_not_resolved (resolvers.resolve to))
          λ doc. then_ok (find_did_comm_service doc service_id) chain_of

    abbrev pub last_of : Found → List Found → Found
    last_of service [] = service
    last_of service (next ∷ services) = last_of next services

    -- The DIDs of the mediators behind the first service, and the keys of the last.
    abbrev pub routing_keys_of : Found → List Found → List String
    routing_keys_of service services =
        map (λ s. s.1.uri) services ++ (last_of service services).1.routing_keys

    abbrev wrapped :
        Outside
        → String
        → String
        → Option (List (String × Value))
        → Found
        → List Found
        → List String
        → Result ErrorKind (Option (String × MessagingServiceMetadata))
    wrapped o msg to headers service services [] = ok none
    wrapped o msg to headers service services (key ∷ keys) =
        then_ok (wrap_in_forward o msg headers to (key ∷ keys)) λ forward_msg. ok (
          some (
            forward_msg,
            record { id = (last_of service services).0; service_endpoint = service.1.uri },
          ))

    abbrev wrap_chain :
        Outside
        → String
        → String
        → Option (List (String × Value))
        → List Found
        → Result ErrorKind (Option (String × MessagingServiceMetadata))
    wrap_chain o msg to headers [] = ok none
    wrap_chain o msg to headers (service ∷ services) =
        wrapped o msg to headers service services (routing_keys_of service services)

    unfoldable pub wrap_in_forward_if_needed :
        Outside
        → String
        → String
        → Bool
        → Option (List (String × Value))
        → Option String
        → Result ErrorKind (Option (String × MessagingServiceMetadata))
    unfolding resolve_did_comm_services_chain wrap_in_forward
    wrap_in_forward_if_needed o msg to false headers messaging_service = ok none
    wrap_in_forward_if_needed o msg to true headers messaging_service =
        then_ok (resolve_did_comm_services_chain to messaging_service) (wrap_chain o msg to headers)
