-- ===== src/Redis/Documented.antt =====
-- What Redis documents of the commands that write hashes, as hypotheses on a server.
use affinidi_messaging.Common.{
  String, Bool, true, false, ◌||◌, ◌&&◌, List, [], ◌∷◌, Option, none, some, ◌≡◌, ◌=ₛ◌, All,
  if◌then◌else◌,
}
use affinidi_messaging.Redis.{Redis, Arg, text, Command, cmd}

-- The hashes of a database: the value of a key's field.
abbrev pub Hashes : Type 0
Hashes = String → String → Option String

abbrev put : String → String → Option String → Hashes → Hashes
put key field value h k f = if key =ₛ k && field =ₛ f then value else h k f

-- HSET: the pairs are written in order.
abbrev hset : String → List Arg → Hashes → Hashes
hset key (text field ∷ text value ∷ more) h = hset key more (put key field (some value) h)
hset key _ h = h

-- RENAME: the new key has the old one's fields and the old key is gone.
abbrev rename : String → String → Hashes → Hashes
rename old new h k f = if new =ₛ k then h old f else if old =ₛ k then none else h k f

abbrev hset_args : List Arg → Hashes → Hashes
hset_args (text key ∷ pairs) h = hset key pairs h
hset_args _ h = h

abbrev hdel_args : List Arg → Hashes → Hashes
hdel_args (text key ∷ text field ∷ []) h = put key field none h
hdel_args _ h = h

abbrev rename_args : List Arg → Hashes → Hashes
rename_args (text old ∷ text new ∷ []) h = rename old new h
rename_args _ h = h

-- The effect of a command on the hashes. `plus` adds to the integer that a field holds.
module _ (plus : Option String → Arg → Option String) where
  abbrev hincrby_args : List Arg → Hashes → Hashes
  hincrby_args (text key ∷ text field ∷ n ∷ []) h = put key field (plus (h key field) n) h
  hincrby_args _ h = h

  abbrev pub effect : Command → Hashes → Hashes
  effect c h =
      if c.name =ₛ "HSET"
      then hset_args c.args h
      else if c.name =ₛ "HDEL"
      then hdel_args c.args h
      else if c.name =ₛ "RENAME"
      then rename_args c.args h
      else if c.name =ₛ "HINCRBY"
      then hincrby_args c.args h
      else h

  abbrev pub effects : List Command → Hashes → Hashes
  effects [] h = h
  effects (c ∷ cs) h = effects cs (effect c h)

-- The commands that change hashes only as `effect` says: no script.
abbrev pub is_plain : String → Bool
is_plain name =
    name =ₛ "HSET"
    || name =ₛ "HDEL"
    || name =ₛ "RENAME"
    || name =ₛ "HINCRBY"
    || name =ₛ "HGETALL"
    || name =ₛ "HGET"
    || name =ₛ "EXPIRE"
    || name =ₛ "SADD"
    || name =ₛ "SREM"
    || name =ₛ "PUBLISH"

-- A pipe that is answered has had the effects of its commands, in order; HGETALL and HGET answer
-- with what the key holds.
pub record Documented (r : Redis) : Type 0 where
  pub hashes : r.Db → Hashes
  pub plus : Option String → Arg → Option String
  pub query_effects :
      (cs : List Command) (d d' : r.Db) (v : r.Reply)
      → All (λ c. is_plain c.name ≡ true) cs
      → r.query cs d ≡ (some v, d')
      → hashes d' ≡ effects plus cs (hashes d)
  pub hgetall :
      (k : String) (d d' : r.Db) (v : r.Reply)
      → r.query (cmd "HGETALL" (text k ∷ []) ∷ []) d ≡ (some v, d')
      → r.to_map v ≡ some (hashes d k)
  pub hget_nil :
      (k f : String) (d d' : r.Db) (v : r.Reply)
      → r.query (cmd "HGET" (text k ∷ text f ∷ []) ∷ []) d ≡ (some v, d')
      → hashes d k f ≡ none
      → r.is_nil v ≡ true
  pub hget :
      (k f value : String) (d d' : r.Db) (v : r.Reply)
      → r.query (cmd "HGET" (text k ∷ text f ∷ []) ∷ []) d ≡ (some v, d')
      → hashes d k f ≡ some value
      → (r.is_nil v ≡ false) × (r.to_text v ≡ some value)

-- A server that always answers: every connection is made and every pipe is answered.
pub record Reliable (r : Redis) : Type 0 where
  pub connected : (d : r.Db) → r.connects d ≡ true
  pub answered :
      (cs : List Command) (d : r.Db) → (v : r.Reply) × (d' : r.Db) × (r.query cs d ≡ (some v, d'))
