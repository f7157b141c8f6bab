-- ===== src/Redis.antt =====
-- The Redis server, which the mediator reaches through deadpool_redis. It is no code of the
-- repository: a parameter that answers lists of commands, with what its documentation says of the
-- commands that the mediator sends as hypotheses.
pub mod Documented
pub mod Toy
use affinidi_messaging.Common.{
  NoPanic, inl, inr, Bool-cases, refl, sym, ap, err-ne-ok, ◌∙◌, ℕ, ◌-◌, ◌^◌, ltb, String, Bool,
  true, false, List, [], ◌∷◌, ◌++◌, Option, none, some, ◌≡◌, ◌≢◌, lookup, Result, ok, err, panic,
  Action, if◌then◌else◌,
}
use affinidi_messaging.Errors.{MediatorError, database_error}
use affinidi_messaging.Tasks.Update.{StreamingUpdate}

-- An argument of a command: a text, an integer, or the integer -n.
pub data Arg : Type 0 where
  text : String → Arg
  num neg : ℕ → Arg

-- `n as i64`, for an `n` that a `u64` holds.
abbrev pub as_i64 : ℕ → Arg
as_i64 n = if ltb n (2 ^ 63) then num n else neg (2 ^ 64 - n)

pub record Command : Type 0 where
  pub name : String
  pub args : List Arg

abbrev pub cmd : String → List Arg → Command
cmd name args = record { name = name; args = args }

-- The server. `query` runs a pipe of commands, atomically where there are several, and answers
-- nothing where `query_async` is an error; the `to_` functions are `from_redis_value`, where a
-- `HashMap` is read as its `get`.
pub record Redis : Type 1 where
  pub Db : Type 0
  pub Reply : Type 0
  pub connects : Db → Bool
  pub query : List Command → Db → Option Reply × Db
  pub is_nil : Reply → Bool
  pub to_text : Reply → Option String
  pub to_vec : Reply → Option (List Reply)
  pub to_texts : Reply → Option (List String)
  pub to_map : Reply → Option (String → Option String)
  pub to_bool : Reply → Option Bool
  pub to_number : Reply → Option ℕ

-- What a handler can change: the database, and the queue of commands to the streaming task, which
-- takes no more once the task has ended.
pub record World (Db : Type 0) : Type 0 where
  pub db : Db
  pub task_runs : Bool
  pub updates : List StreamingUpdate

module _ (r : Redis) where
  open r use {Db, Reply, connects, query}

  -- Code that may fail, over the state that it shares with others.
  abbrev pub M : Type 0 → Type 0
  M A = Action (World Db) MediatorError A

  unfoldable pub get_async_connection : M (Unit {0})
  get_async_connection w =
      if connects w.db
      then (ok tt, w)
      else (err (database_error "NA" "Couldn't get database connection: {}"), w)

  abbrev convert : {A : Type 0} → (Reply → Option A) → Option Reply → Option A
  convert f none = none
  convert f (some v) = f v

  abbrev or_err : {A : Type 0} → MediatorError → Option A → Result MediatorError A
  or_err e none = err e
  or_err e (some a) = ok a

  -- `query_async(..).await.map_err(..)?`, at a type that the reply is converted to.
  unfoldable pub query_async :
      {A : Type 0} → (Reply → Option A) → MediatorError → List Command → M A
  query_async f e cs w =
      let (reply, d) = query cs w.db in (or_err e (convert f reply), record w { db = d })

  -- A command whose reply is not looked at.
  abbrev pub run : MediatorError → List Command → M (Unit {0})
  run e cs = query_async (λ v. some tt) e cs

  -- Inversion of the two steps that every database call makes.
  pub get_async_connection-eq-ok :
      (w w' : World Db) {a : Unit {0}} → get_async_connection w ≡ (ok a, w') → w' ≡ w
  unfolding get_async_connection
  get_async_connection-eq-ok w w' h = elim (Bool-cases (connects w.db)) [
    | inl up ↦ sym (ap (λ q. q.1) (rw up at h))
    | inr down ↦ absurd (err-ne-ok (ap (λ q. q.0) (rw down at h)))
  ]

  convert-eq-some :
      {A : Type 0} (f : Reply → Option A) (o : Option Reply) {a : A}
      → convert f o ≡ some a
      → (v : Reply) × (o ≡ some v) × (f v ≡ some a)
  convert-eq-some f none h = cc
  convert-eq-some f (some v) h = (v, refl, h)

  or_err-eq-ok :
      {A : Type 0} (e : MediatorError) (o : Option A) {a : A} → or_err e o ≡ ok a → o ≡ some a
  or_err-eq-ok e none h = cc
  or_err-eq-ok e (some a) h = cc

  pub query_async-eq-ok :
      {A : Type 0} (f : Reply → Option A) (e : MediatorError) (cs : List Command) (w w' : World Db)
      {a : A}
      → query_async f e cs w ≡ (ok a, w')
      → (v : Reply) × (query cs w.db ≡ (some v, w'.db))
        × (f v ≡ some a)
        × (w' ≡ record w { db = w'.db })
  unfolding query_async
  query_async-eq-ok f e cs w w' h =
      let same = ap (λ q. q.1) h in
      let (v, answered, read) =
        convert-eq-some f (query cs w.db).0 (or_err-eq-ok e _ (ap (λ q. q.0) h)) in
      (
        v,
        (λ i. (answered i, (same i).db)),
        read,
        sym same ∙ ap (λ (d : Db). record w { db = d }) (ap (λ s. s.db) same),
      )

  -- Neither of the two steps panics.
  pub get_async_connection-NoPanic : NoPanic get_async_connection
  unfolding get_async_connection
  get_async_connection-NoPanic w = elim (Bool-cases (connects w.db)) [
    | inl up ↦ rw up (λ h. cc)
    | inr down ↦ rw down (λ h. cc)
  ]

  or_err-ne-panic : {A : Type 0} (e : MediatorError) (o : Option A) → or_err e o ≢ panic
  or_err-ne-panic e none h = cc
  or_err-ne-panic e (some a) h = cc

  pub query_async-NoPanic :
      {A : Type 0} (f : Reply → Option A) (e : MediatorError) (cs : List Command)
      → NoPanic (query_async f e cs)
  unfolding query_async
  query_async-NoPanic f e cs w = or_err-ne-panic e (convert f (query cs w.db).0)
