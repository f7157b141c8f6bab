-- ===== src/Tasks/Streaming/Agreement.antt =====
-- The task's own map and the rows that the mediators share in Redis tell the same.
use affinidi_messaging.Common.{
  ℕ, String, Bool, true, false, List, [], ◌∷◌, Option, none, some, ◌≡◌, ◌⊎◌, inl, inr, refl, ap,
  ◌∙◌, ◌=ₛ◌, eq_iff, lookup, lookup-insert, lookup-remove, if◌then◌else◌, Bool-cases, ◌⧺◌,
  text_append_assoc, All, ◌>>◌,
}
use affinidi_messaging.Errors.{MediatorError}
use affinidi_messaging.Redis.{Redis, World, Command, run, get_async_connection, query_async}
use affinidi_messaging.Redis.Documented.{Hashes, effects, is_plain, Documented, Reliable}
use affinidi_messaging.Database.Streaming.{
  streaming_register_client, streaming_start_live, streaming_stop_live, streaming_deregister_client,
}
use affinidi_messaging.Tasks.Update.{
  StreamingUpdateState, register, start, stop, deregister, PubSubRecord,
}
use affinidi_messaging.Tasks.Streaming.{
  Event, published, not_a_record, no_payload, ends_task, send, reconnect, command, State, after,
  publish, update, step, run_events,
}
use affinidi_messaging.Tasks.Streaming.Clients.{with_active, lookup-set_active}

-- The row of GLOBAL_STREAMING for a client of this mediator.
abbrev pub row : String → Bool → String
row uuid true = uuid ⧺ ":" ⧺ "TRUE"
row uuid false = uuid ⧺ ":FALSE"

abbrev pub table : String
table = "GLOBAL_STREAMING"

-- The row of a client, if it is registered, says whether it is active.
abbrev pub Tracks : String → Option (ℕ × Bool) → Option String → Type 0
Tracks uuid none shared = Unit {0}
Tracks uuid (some (tx, active)) shared = shared ≡ some (row uuid active)

stop_row : (uuid : String) → uuid ⧺ ":" ⧺ "FALSE" ≡ row uuid false
stop_row uuid = text_append_assoc uuid ":" "FALSE"

Tracks-with_active :
    (uuid : String) (b active : Bool) (o : Option (ℕ × Bool)) (shared : Option String)
    → Tracks uuid o shared
    → Tracks uuid
        (if b then with_active active o else o)
        (if b then some (row uuid active) else shared)
Tracks-with_active uuid true active none shared h = tt
Tracks-with_active uuid true active (some (tx, old)) shared h = refl
Tracks-with_active uuid false active o shared h = h

Tracks-remove :
    (uuid : String) (b : Bool) (o : Option (ℕ × Bool)) (shared : Option String)
    → Tracks uuid o shared
    → Tracks uuid (if b then none else o) (if b then none else shared)
Tracks-remove uuid true o shared h = tt
Tracks-remove uuid false o shared h = h

Tracks-insert :
    (uuid : String) (b active : Bool) (tx : ℕ) (o : Option (ℕ × Bool)) (shared : Option String)
    → Tracks uuid o shared
    → Tracks uuid
        (if b then some (tx, active) else o)
        (if b then some (row uuid active) else shared)
Tracks-insert uuid true active tx o shared h = refl
Tracks-insert uuid false active tx o shared h = h

module _ (r : Redis) (doc : Documented r) (rel : Reliable r) where
  open doc use {hashes, plus, query_effects}

  -- A database call that only sends plain commands has their effects.
  run-effects :
      (e : MediatorError) (cs : List Command) (w : World r.Db)
      → All (λ c. is_plain c.name ≡ true) cs
      → hashes (((get_async_connection r) >> run r e cs) w).1.db ≡ effects plus cs (hashes w.db)
  unfolding get_async_connection query_async
  run-effects e cs w plain =
      let (v, d, answered) = rel.answered cs w.db in
      rw (rel.connected w.db, answered) (query_effects cs w.db d v plain answered)

  module _ (uuid : String) (did j : String) (w : World r.Db) where
    register_row :
        hashes (streaming_register_client r did uuid w).1.db table j
        ≡ (if did =ₛ j then some (row uuid false) else hashes w.db table j)
    unfolding streaming_register_client
    register_row = ap (λ (g : Hashes). g table j) (run-effects _ _ w (refl, (refl, tt)))

    start_row :
        hashes (streaming_start_live r did uuid w).1.db table j
        ≡ (if did =ₛ j then some (row uuid true) else hashes w.db table j)
    unfolding streaming_start_live
    start_row = ap (λ (g : Hashes). g table j) (run-effects _ _ w (refl, tt))

    stop_live_row :
        hashes (streaming_stop_live r did uuid w).1.db table j
        ≡ (if did =ₛ j then some (row uuid false) else hashes w.db table j)
    unfolding streaming_stop_live
    stop_live_row =
        ap (λ (g : Hashes). g table j) (run-effects _ _ w (refl, tt)) ∙ rw (stop_row uuid)

    deregister_row :
        hashes (streaming_deregister_client r did uuid w).1.db table j
        ≡ (if did =ₛ j then none else hashes w.db table j)
    unfolding streaming_deregister_client
    deregister_row = ap (λ (g : Hashes). g table j) (run-effects _ _ w (refl, (refl, tt)))

  module _ (uuid : String) where
    -- The invariant of the task: the row of every registered client is this mediator's, and says
    -- whether the client is active.
    abbrev pub Agrees : State r.Db → Type 0
    Agrees s = (j : String) → Tracks uuid (lookup j s.clients) (hashes s.world.db table j)

    update-Agrees :
        (did : String) (t : StreamingUpdateState) (s : State r.Db)
        → Agrees s
        → Agrees (update r uuid did t s)
    unfolding update
    update-Agrees did (register tx) s h j =
        rw (lookup-insert did j (tx, false) s.clients, register_row uuid did j s.world)
          (Tracks-insert uuid (did =ₛ j) false tx _ _ (h j))
    update-Agrees did start s h j =
        rw (lookup-set_active did j true s.clients, start_row uuid did j s.world)
          (Tracks-with_active uuid (did =ₛ j) true _ _ (h j))
    update-Agrees did stop s h j =
        rw (lookup-set_active did j false s.clients, stop_live_row uuid did j s.world)
          (Tracks-with_active uuid (did =ₛ j) false _ _ (h j))
    update-Agrees did deregister s h j =
        rw (lookup-remove did j s.clients, deregister_row uuid did j s.world)
          (Tracks-remove uuid (did =ₛ j) _ _ (h j))

    -- A message that comes for an idle client leads to the same row again.
    idle-Agrees :
        (did : String) (tx : ℕ) (s : State r.Db)
        → lookup did s.clients ≡ some (tx, false)
        → Agrees s
        → Agrees (record s { world = after r uuid (streaming_stop_live r did uuid) s.world })
    idle-Agrees did tx s known h j =
        rw (stop_live_row uuid did j s.world) (by_did (Bool-cases (did =ₛ j)))
      where
        by_did :
            ((did =ₛ j) ≡ true) ⊎ ((did =ₛ j) ≡ false)
            → Tracks uuid
                (lookup j s.clients)
                (if did =ₛ j then some (row uuid false) else hashes s.world.db table j)
        by_did (inl same) = rw (same, ← (eq_iff did j).0 same, known) refl
        by_did (inr other) = rw other (h j)

    send-Agrees :
        (received : Bool) (tx : ℕ) (message : String) (s : State r.Db)
        → Agrees s
        → Agrees (send r uuid received tx message s)
    send-Agrees true tx message s h = h
    send-Agrees false tx message s h = h

    publish-Agrees :
        (p : PubSubRecord) (received : Bool) (s : State r.Db)
        → Agrees s
        → Agrees (publish r uuid p received s)
    unfolding publish
    publish-Agrees p received s h = by_client (lookup p.did_hash s.clients) refl
      where
        by_client :
            (o : Option (ℕ × Bool))
            → lookup p.did_hash s.clients ≡ o
            → Agrees (publish r uuid p received s)
        by_client none e = rw (e, publish) h
        by_client (some (tx, true)) e = elim (Bool-cases p.force_delivery) [
          | inl forced ↦ rw (e, publish, forced) (send-Agrees received tx p.message s h)
          | inr plain ↦ rw (e, publish, plain) (send-Agrees received tx p.message s h)
        ]
        by_client (some (tx, false)) e = elim (Bool-cases p.force_delivery) [
          | inl forced ↦ rw (e, publish, forced) (send-Agrees received tx p.message s h)
          | inr plain ↦ rw (e, publish, plain) (idle-Agrees p.did_hash tx s e h)
        ]

    step-Agrees : (e : Event) (s : State r.Db) → Agrees s → Agrees (step r uuid e s)
    unfolding step
    step-Agrees (published p received) s h = publish-Agrees p received s h
    step-Agrees not_a_record s h = h
    step-Agrees no_payload s h = h
    step-Agrees reconnect s h = h
    step-Agrees (command u) s h = update-Agrees u.did_hash u.state s h

    -- Whatever commands and messages the task takes up, in whatever order, its map and the shared
    -- rows keep agreeing: the row of each registered client says whether the client is active.
    -- The server must behave as documented and answer every call.
    pub run_events-Agrees :
        (es : List Event) (s : State r.Db) → Agrees s → Agrees (run_events r uuid es s)
    unfolding run_events
    run_events-Agrees [] s h = h
    run_events-Agrees (e ∷ es) s h = elim (Bool-cases (ends_task r uuid e)) [
      | inl last ↦ rw (run_events, last) (step-Agrees e s h)
      | inr more ↦
          rw (run_events, more) (run_events-Agrees es (step r uuid e s) (step-Agrees e s h))
    ]
