-- ===== src/Tasks/Streaming/Live.antt =====
-- What a mediator that wants to deliver a message finds in the shared rows.
use affinidi_messaging.Common.{
  ℕ, String, Bool, true, false, ◌||◌, [], ◌∷◌, none, some, ◌≡◌, ap, split, split-append, Lacks,
  lookup, ok, text_append_assoc, if◌then◌else◌,
}
use affinidi_messaging.Redis.{Redis, cmd, text, get_async_connection, query_async}
use affinidi_messaging.Redis.Documented.{Documented, Reliable}
use affinidi_messaging.Database.Streaming.{live_row, row_of, streaming_is_client_live}
use affinidi_messaging.Tasks.Streaming.{State}
use affinidi_messaging.Tasks.Streaming.Agreement.{row, table, Agrees}

split-row :
    (uuid : String) (active : Bool)
    → Lacks b':' uuid
    → split b':' (row uuid active) ≡ uuid ∷ (if active then "TRUE" else "FALSE") ∷ []
unfolding split
split-row uuid true h = rw (text_append_assoc uuid ":" "TRUE") (split-append uuid "TRUE" ":" h)
split-row uuid false h = split-append uuid "FALSE" ":" h

row_of-row :
    (uuid : String) (active force : Bool)
    → Lacks b':' uuid
    → row_of (some (row uuid active)) force ≡ (if active || force then some uuid else none)
unfolding live_row
row_of-row uuid true force h = rw (split-row uuid true h)
row_of-row uuid false true h = rw (split-row uuid false h)
row_of-row uuid false false h = rw (split-row uuid false h)

-- For a client that is registered with the task the lookup answers with the task's mediator if
-- the client is active or the delivery is forced, and with nothing otherwise. The map and the rows
-- must agree, the server must answer, and the mediator's name must hold no colon.
pub streaming_is_client_live_registered :
    (r : Redis) (doc : Documented r) (rel : Reliable r) (uuid did : String) (tx : ℕ)
    (active force : Bool) (s : State r.Db)
    → Agrees r doc rel uuid s
    → Lacks b':' uuid
    → lookup did s.clients ≡ some (tx, active)
    → (streaming_is_client_live r did force s.world).0
      ≡ ok (if active || force then some uuid else none)
unfolding streaming_is_client_live get_async_connection query_async
streaming_is_client_live_registered r doc rel uuid did tx active force s agrees plain known =
    let (v, d, answered) = rel.answered (cmd "HGET" (text table ∷ text did ∷ []) ∷ []) s.world.db in
    let shared : doc.hashes s.world.db table did ≡ some (row uuid active) =
      rw known at (agrees did) in
    let (here, value) = doc.hget table did (row uuid active) s.world.db d v answered shared in
    rw (rel.connected s.world.db, answered, here, value)
      (ap ok (row_of-row uuid active force plain))
