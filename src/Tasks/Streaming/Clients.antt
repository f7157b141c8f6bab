-- ===== src/Tasks/Streaming/Clients.antt =====
-- Who gets what: the clients map of the streaming task by itself.
use affinidi_messaging.Common.{
  ℕ, String, Bool, true, false, ◌||◌, [], ◌∷◌, ◌++◌, Option, none, some, ◌≡◌, ◌⊎◌, inl, inr, refl,
  ◌∙◌, arith, ◌=ₛ◌, eq_iff, eq_refl, lookup, insert, lookup-insert, lookup-remove, if◌then◌else◌,
  Bool-cases,
}
use affinidi_messaging.Redis.{Redis}
use affinidi_messaging.Tasks.Update.{
  StreamingUpdateState, register, start, stop, deregister, PubSubRecord,
}
use affinidi_messaging.Tasks.Streaming.{
  Clients, Event, published, not_a_record, no_payload, reconnect, command, Delivery, State,
  set_active, publish, update, step, run_events,
}

abbrev pub with_active : Bool → Option (ℕ × Bool) → Option (ℕ × Bool)
with_active active none = none
with_active active (some (tx, old)) = some (tx, active)

pub lookup-set_active :
    (did j : String) (active : Bool) (clients : Clients)
    → lookup j (set_active did active clients)
      ≡ (if did =ₛ j then with_active active (lookup j clients) else lookup j clients)
lookup-set_active did j active clients = by_client (lookup did clients) refl
  where
    by_client :
        (o : Option (ℕ × Bool))
        → lookup did clients ≡ o
        → lookup j (set_active did active clients)
          ≡ (if did =ₛ j then with_active active (lookup j clients) else lookup j clients)
    by_client none e = ground (arith, eq_iff did j)
    by_client (some (tx, old)) e =
        rw (e, set_active) (lookup-insert did j (tx, active) clients ∙ ground (arith, eq_iff did j))

-- Why a round sends a message: its addressee is registered under that channel, whose receiver is
-- there, and is active or the delivery is forced.
pub record IsDue {Db : Type 0} (s : State Db) (e : Event) (d : Delivery) : Type 0 where
  pub payload : PubSubRecord
  pub active : Bool
  pub event : e ≡ published payload true
  pub registered : lookup payload.did_hash s.clients ≡ some (d.channel, active)
  pub wanted : (payload.force_delivery ≡ true) ⊎ (active ≡ true)
  pub text : d.message ≡ payload.message

module _ (r : Redis) (uuid : String) where
  -- A round of the task sends at most one message, and only one that is due: to the channel under
  -- which the addressee is registered, if the client is active or the delivery is forced, and the
  -- channel's receiver is there.
  pub step-IsDue :
      (e : Event) (s : State r.Db)
      → ((step r uuid e s).deliveries ≡ s.deliveries)
        ⊎ ((d : Delivery) × ((step r uuid e s).deliveries ≡ s.deliveries ++ d ∷ []) × IsDue s e d)
  unfolding step publish update
  step-IsDue no_payload s = inl refl
  step-IsDue not_a_record s = inl refl
  step-IsDue reconnect s = inl refl
  step-IsDue (command u) s = by_state u.state
    where
      by_state :
          (t : StreamingUpdateState)
          → ((update r uuid u.did_hash t s).deliveries ≡ s.deliveries)
            ⊎ ((d : Delivery) × ((update r uuid u.did_hash t s).deliveries ≡ s.deliveries ++ d ∷ [])
                × IsDue s (command u) d)
      by_state (register tx) = inl refl
      by_state start = inl refl
      by_state stop = inl refl
      by_state deregister = inl refl
  step-IsDue (published p received) s = by_client (lookup p.did_hash s.clients) received refl
    where
      by_client :
          (o : Option (ℕ × Bool)) (b : Bool)
          → lookup p.did_hash s.clients ≡ o
          → ((publish r uuid p b s).deliveries ≡ s.deliveries)
            ⊎ ((d : Delivery) × ((publish r uuid p b s).deliveries ≡ s.deliveries ++ d ∷ [])
                × IsDue s (published p b) d)
      by_client none b e = inl (rw (e, publish))
      by_client (some (tx, active)) false e = elim (Bool-cases (p.force_delivery || active)) [
        | inl due ↦ inl (rw (e, publish, due))
        | inr idle ↦ inl (rw (e, publish, idle))
      ]
      by_client (some (tx, active)) true e = elim (Bool-cases (p.force_delivery || active)) [
        | inl due ↦ inr (
          record { channel = tx; message = p.message },
          rw (e, publish, due),
          record {
            payload = p;
            active = active;
            event = refl;
            registered = e;
            wanted = ground arith;
            text = refl;
          },
        )
        | inr idle ↦ inl (rw (e, publish, idle))
      ]

  -- Two web sockets of one DID: the second registration replaces the first, and when the first
  -- socket then closes, its deregistration removes the second, which no message reaches any more.
  pub second_socket_lost :
      (did_hash : String) (old new : ℕ) (s : State r.Db) (p : PubSubRecord)
      → p.did_hash ≡ did_hash
      → let s' =
          run_events r uuid
            (command (record { did_hash = did_hash; state = register old })
              ∷ command (record { did_hash = did_hash; state = register new })
              ∷ command (record { did_hash = did_hash; state = deregister })
              ∷ [])
            s in
        (lookup did_hash s'.clients ≡ none)
        × ((step r uuid (published p true) s').deliveries ≡ s'.deliveries)
  unfolding run_events step update publish
  second_socket_lost did_hash old new s p same =
      let gone =
        lookup-remove did_hash did_hash
          (insert did_hash (new, false) (insert did_hash (old, false) s.clients))
        ∙ rw (eq_refl did_hash) in
      (gone, rw (same, gone, publish))
