-- ===== src/Database/Session.antt =====
-- affinidi-messaging-mediator/src/database/session.rs: authentication sessions. The session's
-- expiry after 900 or 86400 seconds is the server's, asked for by EXPIRE.
pub mod Laws
pub mod Tests
use affinidi_messaging.Common.{
  ℕ, String, List, [], ◌∷◌, Option, none, some, lookup, ◌=ₛ◌, Result, ok, err, panic, then_ok,
  if◌then◌else◌, Action, lift, ◌>>=◌, ◌>>◌, ◌⧺◌,
}
use affinidi_messaging.Errors.{MediatorError, session_error}
use affinidi_messaging.Redis.{Redis, text, num, cmd, M, get_async_connection, query_async, run}

pub data SessionState : Type 0 where
  unknown challenge_sent authenticated blocked : SessionState

-- `Display`, which prints the constructor's name as `Debug` does.
unfoldable pub to_string : SessionState → String
to_string unknown = "Unknown"
to_string challenge_sent = "ChallengeSent"
to_string authenticated = "Authenticated"
to_string blocked = "Blocked"

unfoldable pub try_from : String → Result MediatorError SessionState
try_from value =
    if value =ₛ "ChallengeSent"
    then ok challenge_sent
    else if value =ₛ "Authenticated"
    then ok authenticated
    else err (session_error "NA" "Unknown SessionState: ({})")

pub record Session : Type 0 where
  pub session_id : String
  pub challenge : String
  pub state : SessionState
  pub did : String

pub record SessionClaims : Type 0 where
  pub aud : String
  pub sub : String
  pub session_id : String
  pub exp : ℕ

abbrev or_missing : Option String → MediatorError → Result MediatorError String
or_missing none e = err e
or_missing (some v) e = ok v

-- `TryFrom` on the hash of a session: the three fields must be there, and are looked for in turn.
unfoldable pub session_try_from : String → (String → Option String) → Result MediatorError Session
unfolding try_from
session_try_from sid hash =
    then_ok
      (or_missing (hash "challenge")
        (session_error sid "No challenge found when retrieving session!"))
      λ challenge.
        then_ok
          (then_ok
            (or_missing (hash "state")
              (session_error sid "No state found when retrieving session!"))
            try_from)
          λ state.
            then_ok
              (or_missing (hash "did") (session_error sid "No DID found when retrieving session!"))
              λ did.
                ok (record { session_id = sid; challenge = challenge; state = state; did = did })

abbrev pub key : String → String
key sid = "SESSION:" ⧺ sid

module _ (r : Redis) where
  open r use {Reply, to_map}

  unfoldable pub create_session : Session → M r (Unit {0})
  unfolding to_string
  create_session session = do
    get_async_connection r
    let sid = key session.session_id
    run r (session_error sid "tried to create new session ({})! Error: {}") (
        cmd "HSET" (
          text sid
          ∷ text "challenge"
          ∷ text session.challenge
          ∷ text "state"
          ∷ text (to_string session.state)
          ∷ text "did"
          ∷ text session.did
          ∷ [])
        ∷ cmd "HINCRBY" (text "GLOBAL" ∷ text "SESSIONS_CREATED" ∷ num 1 ∷ [])
        ∷ cmd "EXPIRE" (text sid ∷ num 900 ∷ [])
        ∷ [])

  unfoldable pub get_session : String → M r Session
  unfolding session_try_from
  get_session session_id = do
    get_async_connection r
    result ←
        query_async r to_map (session_error session_id "tried to retrieve session({}). Error: {}")
          (cmd "HGETALL" (text (key session_id) ∷ []) ∷ [])
    lift (session_try_from session_id result)

  unfoldable pub update_session_authenticated : String → String → M r (Unit {0})
  unfolding to_string
  update_session_authenticated old_session_id new_session_id = do
    get_async_connection r
    let old_sid = key old_session_id
    let new_sid = key new_session_id
    run r (session_error old_session_id "tried to retrieve session({}). Error: {}") (
        cmd "RENAME" (text old_sid ∷ text new_sid ∷ [])
        ∷ cmd "HSET" (text new_sid ∷ text "state" ∷ text (to_string authenticated) ∷ [])
        ∷ cmd "HINCRBY" (text "GLOBAL" ∷ text "SESSIONS_SUCCESS" ∷ num 1 ∷ [])
        ∷ cmd "EXPIRE" (text new_sid ∷ num 86400 ∷ [])
        ∷ [])
