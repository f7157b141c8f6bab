-- ===== src/Database/Session/Laws.antt =====
-- What the session store promises, over a server that behaves as documented.
use affinidi_messaging.Common.{
  err-ne-ok, some-injective, =ₛ-false, >>=-eq-ok, append-ne, append_cancel_left, String, [], ◌∷◌,
  Option, none, some, ◌≡◌, ◌≢◌, refl, sym, ap, ◌∙◌, arith, eq_refl, ok, err, ◌⊎◌,
}
use affinidi_messaging.Errors.{session_error}
use affinidi_messaging.Redis.{
  Redis, World, cmd, text, get_async_connection, query_async, query_async-eq-ok,
  get_async_connection-eq-ok,
}
use affinidi_messaging.Redis.Documented.{Hashes, Documented, Reliable}
use affinidi_messaging.Database.Session.{
  SessionState, unknown, challenge_sent, authenticated, blocked, to_string, try_from, Session,
  session_try_from, key, create_session, get_session, update_session_authenticated,
}

-- A state that was printed is read back, if it is one of the two states that a session passes
-- through; the texts of the other two are errors.
pub try_from-to_string :
    (s : SessionState)
    → ((s ≡ challenge_sent) ⊎ (s ≡ authenticated) → try_from (to_string s) ≡ ok s)
      × ((s ≡ unknown) ⊎ (s ≡ blocked)
          → try_from (to_string s) ≡ err (session_error "NA" "Unknown SessionState: ({})"))
unfolding try_from to_string
try_from-to_string unknown = (λ h. ground arith, λ h. refl)
try_from-to_string challenge_sent = (λ h. refl, λ h. ground arith)
try_from-to_string authenticated = (λ h. refl, λ h. ground arith)
try_from-to_string blocked = (λ h. ground arith, λ h. refl)

key-ne-global : (sid : String) → key sid ≢ "GLOBAL"
key-ne-global sid = append-ne "S" "ESSION:" sid "G" "LOBAL" (omega arith)

key_injective : (a b : String) → key a ≡ key b → a ≡ b
key_injective a b e = append_cancel_left "SESSION:" a b e

module _ (r : Redis) (doc : Documented r) where
  open doc use {hashes, query_effects}

  -- What the store holds of a session.
  pub record Stored (d : r.Db) (s : Session) : Type 0 where
    pub challenge : hashes d (key s.session_id) "challenge" ≡ some s.challenge
    pub state : hashes d (key s.session_id) "state" ≡ some (to_string s.state)
    pub did : hashes d (key s.session_id) "did" ≡ some s.did

  -- A session that is created without an error, over a server that behaves as documented, is
  -- stored with its three fields.
  pub create_session-Stored :
      (s : Session) (w w' : World r.Db) → create_session r s w ≡ (ok tt, w') → Stored w'.db s
  unfolding create_session
  create_session-Stored s w w' h =
      let (_, w₁, connected, sent) = >>=-eq-ok (get_async_connection r) _ w h in
      let (v, answered, _, _) = query_async-eq-ok r _ _ _ w₁ w' sent in
      let effect = query_effects _ w₁.db w'.db v (refl, (refl, (refl, tt))) answered in
      let self = eq_refl (key s.session_id) in
      let other = =ₛ-false "GLOBAL" (key s.session_id) (λ e. key-ne-global s.session_id (sym e)) in
      record {
        challenge = ap (λ (g : Hashes). g (key s.session_id) "challenge") effect ∙ rw (self, other);
        state = ap (λ (g : Hashes). g (key s.session_id) "state") effect ∙ rw (self, other);
        did = ap (λ (g : Hashes). g (key s.session_id) "did") effect ∙ rw (self, other);
      }

  -- A session that is stored, and whose state is one that a session passes through, is what
  -- `get_session` makes of the answer.
  session_try_from-Stored :
      (d : r.Db) (s : Session)
      → Stored d s
      → (s.state ≡ challenge_sent) ⊎ (s.state ≡ authenticated)
      → session_try_from s.session_id (hashes d (key s.session_id)) ≡ ok s
  unfolding session_try_from
  session_try_from-Stored d s st live =
      rw (st.challenge, st.state, st.did, (try_from-to_string s.state).0 live)

  -- If the server behaves as documented and answers every call, a session that was created
  -- without an error, in a state that a session passes through, is read back as it was.
  pub get_session-create_session :
      Reliable r
      → (s : Session) (w w' : World r.Db) → (s.state ≡ challenge_sent) ⊎ (s.state ≡ authenticated)
      → create_session r s w ≡ (ok tt, w')
      → (get_session r s.session_id w').0 ≡ ok s
  unfolding get_session get_async_connection query_async
  get_session-create_session rel s w w' live h =
      let st = create_session-Stored s w w' h in
      let (v, d, answered) =
        rel.answered (cmd "HGETALL" (text (key s.session_id) ∷ []) ∷ []) w'.db in
      rw (rel.connected w'.db, answered, doc.hgetall (key s.session_id) w'.db d v answered)
        (session_try_from-Stored w'.db s st live)

  -- A session that was authenticated without an error, over a server that behaves as documented,
  -- is gone under its old id, if the new id differs; under the new id are its challenge and its
  -- DID, with the state `Authenticated`.
  pub update_session_authenticated-renames :
      (old new : String) (w w' : World r.Db)
      → old ≢ new
      → update_session_authenticated r old new w ≡ (ok tt, w')
      → ((f : String) → hashes w'.db (key old) f ≡ none)
        × (hashes w'.db (key new) "state" ≡ some "Authenticated")
        × (hashes w'.db (key new) "challenge" ≡ hashes w.db (key old) "challenge")
        × (hashes w'.db (key new) "did" ≡ hashes w.db (key old) "did")
  unfolding update_session_authenticated
  update_session_authenticated-renames old new w w' differ h =
      let (_, w₁, connected, sent) = >>=-eq-ok (get_async_connection r) _ w h in
      let (v, answered, _, _) = query_async-eq-ok r _ _ _ w₁ w' sent in
      let effect = query_effects _ w₁.db w'.db v (refl, (refl, (refl, (refl, tt)))) answered in
      let same = get_async_connection-eq-ok r w w₁ connected in
      let self = eq_refl (key new) in
      let self_old = eq_refl (key old) in
      let other = =ₛ-false "GLOBAL" (key new) (λ e. key-ne-global new (sym e)) in
      let other_old = =ₛ-false "GLOBAL" (key old) (λ e. key-ne-global old (sym e)) in
      let apart = =ₛ-false (key new) (key old) (λ e. differ (key_injective old new (sym e))) in
      (
        (λ f. ap (λ (g : Hashes). g (key old) f) effect ∙ rw (apart, other_old, self_old)),
        ap (λ (g : Hashes). g (key new) "state") effect ∙ rw (self, other),
        ap (λ (g : Hashes). g (key new) "challenge") effect ∙ rw (self, other, same),
        ap (λ (g : Hashes). g (key new) "did") effect ∙ rw (self, other, same),
      )

  -- A session that `get_session` returns is what the database holds under its id.
  pub get_session-eq-ok :
      (sid : String) (w w' : World r.Db) (s : Session)
      → get_session r sid w ≡ (ok s, w')
      → (session_try_from sid (hashes w.db (key sid)) ≡ ok s) × (hashes w'.db ≡ hashes w.db)
  unfolding get_session
  get_session-eq-ok sid w w' s h =
      let (_, w₁, connected, sent) = >>=-eq-ok (get_async_connection r) _ w h in
      let (m, w₂, asked, read) = >>=-eq-ok (query_async r r.to_map _ _) _ w₁ sent in
      let (v, answered, converted, _) = query_async-eq-ok r _ _ _ w₁ w₂ asked in
      let same = get_async_connection-eq-ok r w w₁ connected in
      let whole = doc.hgetall (key sid) w₁.db w₂.db v answered in
      let content = some-injective m (hashes w₁.db (key sid)) (sym converted ∙ whole) in
      let kept = query_effects _ w₁.db w₂.db v (refl, tt) answered in
      (
        rw (← same, ← content) (ap (λ q. q.0) read),
        ap (λ (q : World r.Db). hashes q.db) (sym (ap (λ q. q.1) read))
            ∙ kept
            ∙ ap (λ (q : World r.Db). hashes q.db) same,
      )

  -- After the renaming nothing is a session under the old id.
  pub session_try_from-ne-ok :
      (sid : String) (d : r.Db) (s : Session)
      → ((f : String) → hashes d (key sid) f ≡ none)
      → session_try_from sid (hashes d (key sid)) ≢ ok s
  unfolding session_try_from
  session_try_from-ne-ok sid d s gone h = err-ne-ok (rw (gone "challenge") at h)

-- The id of a session that was read is the one that was asked for.
pub session_try_from-session_id :
    (sid : String) (hash : String → Option String) (s : Session)
    → session_try_from sid hash ≡ ok s
    → s.session_id ≡ sid
unfolding session_try_from try_from
session_try_from-session_id sid hash s h = ground arith
