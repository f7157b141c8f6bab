-- ===== src/Database/Session/Tests.antt =====
-- One session, from its challenge to its authentication.
use affinidi_messaging.Common.{String, none, some, ◌≡◌, ◌≢◌, inl, refl, ok, eq_iff, arith}
use affinidi_messaging.Redis.{World, get_async_connection, query_async}
use affinidi_messaging.Redis.Documented.{Hashes}
use affinidi_messaging.Redis.Toy.{toy, toy-Documented, toy-Reliable, empty_world}
use affinidi_messaging.Database.Session.{
  challenge_sent, Session, key, create_session, get_session, update_session_authenticated,
}
use affinidi_messaging.Database.Session.Laws.{
  get_session-create_session, update_session_authenticated-renames,
}

abbrev pub alice : Session
alice = record { session_id = "s1"; challenge = "c"; state = challenge_sent; did = "did:a" }

abbrev pub after_create : World Hashes
after_create = (create_session toy alice empty_world).1

created : create_session toy alice empty_world ≡ (ok tt, after_create)
unfolding create_session get_async_connection query_async
created = refl

abbrev after_update : World Hashes
after_update = (update_session_authenticated toy "s1" "s2" after_create).1

updated : update_session_authenticated toy "s1" "s2" after_create ≡ (ok tt, after_update)
unfolding create_session update_session_authenticated get_async_connection query_async
updated = refl

get_session-create_session_example : (get_session toy "s1" after_create).0 ≡ ok alice
get_session-create_session_example =
    get_session-create_session toy toy-Documented toy-Reliable alice empty_world after_create
      (inl refl) created

s1-ne-s2 : ◌≢◌ {A = String} "s1" "s2"
s1-ne-s2 h = ground (arith, eq_iff "s1" "s2")

update_session_authenticated-renames_example :
    ((f : String) → toy-Documented.hashes after_update.db (key "s1") f ≡ none)
    × (toy-Documented.hashes after_update.db (key "s2") "state" ≡ some "Authenticated")
    × (toy-Documented.hashes after_update.db (key "s2") "challenge"
        ≡ toy-Documented.hashes after_create.db (key "s1") "challenge")
    × (toy-Documented.hashes after_update.db (key "s2") "did"
        ≡ toy-Documented.hashes after_create.db (key "s1") "did")
update_session_authenticated-renames_example =
    update_session_authenticated-renames toy toy-Documented "s1" "s2" after_create after_update
      s1-ne-s2 updated
