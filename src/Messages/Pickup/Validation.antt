-- ===== src/Messages/Pickup/Validation.antt =====
-- Which requests the pickup protocol accepts.
use affinidi_messaging.Common.{
  ℕ, ◌<◌, ◌≤◌, String, Bool, true, false, List, [], ◌∷◌, Option, none, some, ◌≡◌, refl, ap, ◌∙◌,
  arith, eq_iff, eq_refl, lookup, ok, err, panic, then_ok-eq-ok, ensure,
}
use affinidi_messaging.Errors.{MediatorError, Session}
use affinidi_messaging.Json.{Value, string}
use affinidi_messaging.Didcomm.Message.{Message}
use affinidi_messaging.Redis.{Redis, World}
use affinidi_messaging.Messages.{Outside, Clock, Config, check_expiry}
use affinidi_messaging.Messages.Ping.{first_to}
use affinidi_messaging.Messages.Pickup.{
  validate_msg, check_return_route, check_from, parse_and_validate_delivery_request_body,
  check_delivery_request, or_invalid,
}
use affinidi_messaging.Messages.Pickup.Handlers.{
  status_request, delivery_request, messages_received, toggle_live_delivery,
}

-- A request is in time, goes to the mediator first, names its sender, and asks for all answers on
-- the same route.
pub record IsRequest (now : ℕ) (mediator_did : String) (msg : Message) : Type 0 where
  pub in_time : (expires : ℕ) → msg.expires_time ≡ some expires → now < expires
  pub others : List String
  pub addressed : msg.to ≡ some (mediator_did ∷ others)
  pub sender : String
  pub signed : msg.from ≡ some sender
  pub return_route : lookup "return_route" msg.extra_headers ≡ some (string "all")

check_expiry-in_time :
    (sid : String) (now : ℕ) (e : Option ℕ)
    → ((expires : ℕ) → e ≡ some expires → now < expires)
    → check_expiry sid now e ≡ ok tt
check_expiry-in_time sid now none h = refl
check_expiry-in_time sid now (some expires) h = ground (arith, h expires)

check_expiry-eq-ok :
    (sid : String) (now : ℕ) (e : Option ℕ)
    → check_expiry sid now e ≡ ok tt
    → (expires : ℕ) → e ≡ some expires
    → now < expires
check_expiry-eq-ok sid now e h expires same = ground arith

first_to-eq-ok :
    (sid : String) (to : Option (List String)) (first : String)
    → first_to sid to ≡ ok first
    → (others : List String) × (to ≡ some (first ∷ others))
first_to-eq-ok sid none first h = cc
first_to-eq-ok sid (some []) first h = cc
first_to-eq-ok sid (some (x ∷ xs)) first h = (xs, ground arith)

check_from-eq-ok :
    (sid : String) (from : Option String)
    → check_from sid from ≡ ok tt
    → (sender : String) × (from ≡ some sender)
check_from-eq-ok sid none h = cc
check_from-eq-ok sid (some sender) h = (sender, refl)

check_return_route-eq-ok :
    (sid : String) (header : Option Value)
    → check_return_route sid header ≡ ok tt
    → header ≡ some (string "all")
check_return_route-eq-ok sid none h = cc
check_return_route-eq-ok sid (some (string s)) h = ground (arith, eq_iff s "all")
check_return_route-eq-ok sid (some v) h = cc

ensure-eq-ok : {E : Type 0} (b : Bool) (e : E) → ensure b e ≡ ok tt → b ≡ true
ensure-eq-ok true e h = refl
ensure-eq-ok false e h = cc

pub validate_msg_sound :
    (now : ℕ) (mediator_did : String) (msg : Message) (session : Session)
    → validate_msg now mediator_did msg session ≡ ok tt
    → IsRequest now mediator_did msg
unfolding validate_msg
validate_msg_sound now mediator_did msg session h =
    let (u₁, in_time, h₁) = then_ok-eq-ok _ _ h in
    let (to, named, h₂) = then_ok-eq-ok _ _ h₁ in
    let (u₂, addressed, h₃) = then_ok-eq-ok _ _ h₂ in
    let (u₃, signed, route) = then_ok-eq-ok _ _ h₃ in
    let (others, to_list) = first_to-eq-ok session.session_id msg.to to named in
    let same = (eq_iff to mediator_did).0 (ensure-eq-ok _ _ addressed) in
    let (sender, from) = check_from-eq-ok session.session_id msg.from signed in
    record {
      in_time = check_expiry-eq-ok session.session_id now msg.expires_time in_time;
      others = others;
      addressed = to_list ∙ ap (λ first. some (first ∷ others)) same;
      sender = sender;
      signed = from;
      return_route =
          check_return_route-eq-ok session.session_id (lookup "return_route" msg.extra_headers)
            route;
    }

validate_msg_complete :
    (now : ℕ) (mediator_did : String) (msg : Message) (session : Session)
    → IsRequest now mediator_did msg
    → validate_msg now mediator_did msg session ≡ ok tt
unfolding validate_msg
validate_msg_complete now mediator_did msg session q = rw (
  check_expiry-in_time session.session_id now msg.expires_time q.in_time,
  q.addressed,
  eq_refl mediator_did,
  q.signed,
  q.return_route,
)

-- The check of a request passes for exactly the requests of that form: not expired, addressed
-- first to the mediator, with a sender, and with the header `return_route` set to "all".
pub validate_msg-iff-IsRequest :
    (now : ℕ) (mediator_did : String) (msg : Message) (session : Session)
    → (validate_msg now mediator_did msg session ≡ ok tt → IsRequest now mediator_did msg)
      × (IsRequest now mediator_did msg → validate_msg now mediator_did msg session ≡ ok tt)
validate_msg-iff-IsRequest now mediator_did msg session = (
  validate_msg_sound now mediator_did msg session,
  validate_msg_complete now mediator_did msg session,
)

module _ (r : Redis) (o : Outside) (config : Config) (clock : Clock) where
  -- A request that fails the check is no error that the client is told of: each of the four
  -- handlers panics, with nothing changed.
  pub invalid_request_panics :
      (msg : Message) (session : Session) (e : MediatorError) (w : World r.Db)
      → validate_msg clock.on_validate config.mediator_did msg session ≡ err e
      → (status_request r o config clock msg session w ≡ (panic, w))
        × (delivery_request r o config clock msg session w ≡ (panic, w))
        × (messages_received r o config clock msg session w ≡ (panic, w))
        × (toggle_live_delivery r o config clock msg session w ≡ (panic, w))
  unfolding status_request delivery_request messages_received toggle_live_delivery
  invalid_request_panics msg session e w h = (rw h, rw h, rw h, rw h)

check_delivery_request-eq-ok :
    (session : Session) (asked : String) (n : ℕ) (did : String) (limit : ℕ)
    → check_delivery_request session asked n ≡ ok (did, limit)
    → (asked ≡ did) × (n ≡ limit) × (did ≡ session.did) × (1 ≤ limit) × (limit ≤ 100)
check_delivery_request-eq-ok session asked n did limit h = ground (arith, eq_iff session.did asked)

check_delivery_request-ok :
    (session : Session) (did : String) (limit : ℕ)
    → did ≡ session.did
    → 1 ≤ limit
    → limit ≤ 100
    → check_delivery_request session did limit ≡ ok (did, limit)
check_delivery_request-ok session did limit same low high = ground (arith, eq_iff session.did did)

or_invalid-eq-ok :
    {A : Type 0} (e : MediatorError) (o : Option A) {a : A} → or_invalid e o ≡ ok a → o ≡ some a
or_invalid-eq-ok e none h = cc
or_invalid-eq-ok e (some a) h = cc

-- A delivery request is accepted exactly when its body can be read, it asks for the queue of the
-- session's own DID, and its limit is between 1 and 100.
pub delivery_request_body_iff :
    (o : Outside) (session : Session) (msg : Message) (did : String) (limit : ℕ)
    → (parse_and_validate_delivery_request_body o session msg ≡ ok (did, limit)
        → (o.delivery_request msg.body ≡ some (did, limit))
          × (did ≡ session.did)
          × (1 ≤ limit)
          × (limit ≤ 100))
      × ((o.delivery_request msg.body ≡ some (did, limit))
            × (did ≡ session.did)
            × (1 ≤ limit)
            × (limit ≤ 100)
          → parse_and_validate_delivery_request_body o session msg ≡ ok (did, limit))
unfolding parse_and_validate_delivery_request_body
delivery_request_body_iff o session msg did limit = (
  (λ h.
      let (body, read, checked) = then_ok-eq-ok _ _ h in
      let (same_did, same_limit, own, low, high) =
        check_delivery_request-eq-ok session body.0 body.1 did limit checked in
      (or_invalid-eq-ok _ _ read ∙ (λ i. some (same_did i, same_limit i)), own, low, high)),
  (λ q. rw q.0 (check_delivery_request-ok session did limit q.1 q.2 q.3)),
)
