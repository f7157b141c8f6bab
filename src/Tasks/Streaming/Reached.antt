-- ===== src/Tasks/Streaming/Reached.antt =====
-- A client that has registered and started live delivery gets what is published for it.
use affinidi_messaging.Common.{
  ℕ, String, Bool, true, false, ◌||◌, List, [], ◌∷◌, ◌++◌, Option, none, some, ◌≡◌, inl, inr, refl,
  ◌∙◌, ap, ◌=ₛ◌, eq_refl, lookup, insert, lookup-insert, lookup-remove, Bool-cases, All,
}
use affinidi_messaging.Redis.{Redis}
use affinidi_messaging.Tasks.Update.{
  StreamingUpdateState, register, start, stop, deregister, PubSubRecord,
}
use affinidi_messaging.Tasks.Streaming.{
  Event, published, not_a_record, no_payload, reconnect, command, Delivery, State, send, publish,
  update, step, ends_task, run_events,
}
use affinidi_messaging.Tasks.Streaming.Clients.{lookup-set_active}

-- The event leaves the client alone: it does not end the task, and is no command for the client.
abbrev pub Spares : String → Event → Type 0
Spares did not_a_record = ⊥
Spares did (command u) = (u.did_hash =ₛ did) ≡ false
Spares did _ = Unit

module _ (r : Redis) (uuid : String) where
  -- What a client is registered as.
  abbrev Is : String → ℕ → Bool → State r.Db → Type 0
  Is did tx active s = lookup did s.clients ≡ some (tx, active)

  publish-clients :
      (p : PubSubRecord) (received : Bool) (s : State r.Db)
      → (publish r uuid p received s).clients ≡ s.clients
  unfolding publish
  publish-clients p received s = by_client (lookup p.did_hash s.clients) received refl
    where
      by_client :
          (o : Option (ℕ × Bool)) (b : Bool)
          → lookup p.did_hash s.clients ≡ o
          → (publish r uuid p b s).clients ≡ s.clients
      by_client none b e = rw (e, publish) refl
      by_client (some (tx, active)) b e = elim (Bool-cases (p.force_delivery || active)) [
        | inl due ↦ rw (e, publish, due) (sent b tx)
        | inr idle ↦ rw (e, publish, idle) refl
      ]
        where
          sent : (b : Bool) (tx : ℕ) → (send r uuid b tx p.message s).clients ≡ s.clients
          sent true tx = refl
          sent false tx = refl

  update-Is :
      (did other : String) (t : StreamingUpdateState) (tx : ℕ) (active : Bool) (s : State r.Db)
      → (other =ₛ did) ≡ false
      → Is did tx active s
      → Is did tx active (update r uuid other t s)
  unfolding update
  update-Is did other (register c) tx active s ne h =
      lookup-insert other did (c, false) s.clients ∙ rw ne h
  update-Is did other start tx active s ne h = lookup-set_active other did true s.clients ∙ rw ne h
  update-Is did other stop tx active s ne h = lookup-set_active other did false s.clients ∙ rw ne h
  update-Is did other deregister tx active s ne h = lookup-remove other did s.clients ∙ rw ne h

  step-Is :
      (did : String) (tx : ℕ) (active : Bool) (e : Event) (s : State r.Db)
      → Spares did e
      → Is did tx active s
      → Is did tx active (step r uuid e s)
  unfolding step
  step-Is did tx active (published p received) s ok h =
      ap (lookup did) (publish-clients p received s) ∙ h
  step-Is did tx active not_a_record s ok h = absurd ok
  step-Is did tx active no_payload s ok h = h
  step-Is did tx active reconnect s ok h = h
  step-Is did tx active (command u) s ne h = update-Is did u.did_hash u.state tx active s ne h

  Spares-goes_on : (did : String) (e : Event) → Spares did e → ends_task r uuid e ≡ false
  Spares-goes_on did (published p received) h = refl
  Spares-goes_on did not_a_record h = absurd h
  Spares-goes_on did no_payload h = refl
  Spares-goes_on did reconnect h = refl
  Spares-goes_on did (command u) h = refl

  abbrev delivery : ℕ → PubSubRecord → Delivery
  delivery tx p = record { channel = tx; message = p.message }

  publish-active :
      (p : PubSubRecord) (tx : ℕ) (s : State r.Db)
      → Is p.did_hash tx true s
      → (publish r uuid p true s).deliveries ≡ s.deliveries ++ delivery tx p ∷ []
  unfolding publish
  publish-active p tx s known = elim (Bool-cases p.force_delivery) [
    | inl forced ↦ rw (known, publish, forced) refl
    | inr plain ↦ rw (known, publish, plain) refl
  ]

  run_events-active :
      (es : List Event) (p : PubSubRecord) (tx : ℕ) (s : State r.Db)
      → All (Spares p.did_hash) es
      → Is p.did_hash tx true s
      → (run_events r uuid (es ++ published p true ∷ []) s).deliveries
        ≡ (run_events r uuid es s).deliveries ++ delivery tx p ∷ []
  unfolding run_events step
  run_events-active [] p tx s spared known = publish-active p tx s known
  run_events-active (e ∷ es) p tx s (spares, spared) known =
      rw (run_events, Spares-goes_on p.did_hash e spares)
        (run_events-active es p tx (step r uuid e s) spared
          (step-Is p.did_hash tx true e s spares known))

  -- A client that registers and then starts live delivery gets what is published for it later, on
  -- the channel that it registered, as long as its receiver is there, no command for this client
  -- comes in between, and no text that is no record ends the task.
  pub started-gets :
      (es : List Event) (p : PubSubRecord) (tx : ℕ) (s : State r.Db)
      → All (Spares p.did_hash) es
      → let joins =
          command (record { did_hash = p.did_hash; state = register tx })
          ∷ command (record { did_hash = p.did_hash; state = start })
          ∷ es in
        (run_events r uuid (joins ++ published p true ∷ []) s).deliveries
        ≡ (run_events r uuid joins s).deliveries ++ delivery tx p ∷ []
  unfolding run_events step update
  started-gets es p tx s spared =
      run_events-active es p tx
        (update r uuid p.did_hash start (update r uuid p.did_hash (register tx) s)) spared
        (lookup-set_active p.did_hash p.did_hash true (insert p.did_hash (tx, false) s.clients)
          ∙ rw
              (
                eq_refl p.did_hash,
                lookup-insert p.did_hash p.did_hash (tx, false) s.clients,
                eq_refl p.did_hash,
              )
              refl)
