-- ===== src/Redis/Toy.antt =====
-- A server that keeps hashes only: it shows that the documented behaviour can be had.
use affinidi_messaging.Common.{
  some-injective, String, Bool, true, false, List, [], ◌∷◌, Option, none, some, ◌≡◌, refl, sym, ap,
  ◌∙◌, ◌=ₛ◌, if◌then◌else◌, is_some, not,
}
use affinidi_messaging.Redis.{World, Redis, Arg, text, Command, cmd}
use affinidi_messaging.Redis.Documented.{Hashes, effects, Documented, Reliable}

-- The answers of the toy server: what a key holds, a field's value, or a status.
pub data Answer : Type 0 where
  whole : (String → Option String) → Answer
  value : Option String → Answer
  status : Answer

abbrev plus_none : Option String → Arg → Option String
plus_none old n = old

abbrev answer_args : Hashes → String → List Arg → Answer
answer_args h name (text k ∷ []) = if name =ₛ "HGETALL" then whole (h k) else status
answer_args h name (text k ∷ text f ∷ []) = if name =ₛ "HGET" then value (h k f) else status
answer_args h name _ = status

abbrev answer : List Command → Hashes → Answer
answer (c ∷ []) h = answer_args h c.name c.args
answer cs h = status

abbrev nil : Answer → Bool
nil (value v) = not (is_some v)
nil _ = false

abbrev texts : Answer → Option String
texts (value v) = v
texts _ = some "OK"

abbrev maps : Answer → Option (String → Option String)
maps (whole m) = some m
maps _ = none

abbrev pub toy : Redis
toy = record {
  Db = Hashes;
  Reply = Answer;
  connects = λ d. true;
  query = λ cs d. (some (answer cs d), effects plus_none cs d);
  is_nil = nil;
  to_text = texts;
  to_vec = λ v. some [];
  to_texts = λ v. some [];
  to_map = maps;
  to_bool = λ v. none;
  to_number = λ v. none;
}

maps-eq : (m : String → Option String) (v : Answer) → whole m ≡ v → maps v ≡ some m
maps-eq m v e = ap maps (sym e)

nil-eq : (o : Option String) (v : Answer) → value o ≡ v → nil v ≡ not (is_some o)
nil-eq o v e = ap nil (sym e)

texts-eq : (o : Option String) (v : Answer) → value o ≡ v → texts v ≡ o
texts-eq o v e = ap texts (sym e)

answered-eq :
    (cs : List Command) (d d' : Hashes) (v : Answer)
    → toy.query cs d ≡ (some v, d')
    → answer cs d ≡ v
answered-eq cs d d' v h = some-injective _ _ (ap (λ p. p.0) h)

pub toy-Documented : Documented toy
toy-Documented = record {
  hashes = λ d. d;
  plus = plus_none;
  query_effects = λ cs d d' v plain h. sym (ap (λ p. p.1) h);
  hgetall = λ k d d' v h. maps-eq (d k) v (answered-eq (cmd "HGETALL" (text k ∷ []) ∷ []) d d' v h);
  hget_nil = λ k f d d' v h e.
      nil-eq (d k f) v (answered-eq (cmd "HGET" (text k ∷ text f ∷ []) ∷ []) d d' v h)
      ∙ ap (λ o. not (is_some o)) e;
  hget = λ k f value d d' v h e. (
    nil-eq (d k f) v (answered-eq (cmd "HGET" (text k ∷ text f ∷ []) ∷ []) d d' v h)
        ∙ ap (λ o. not (is_some o)) e,
    texts-eq (d k f) v (answered-eq (cmd "HGET" (text k ∷ text f ∷ []) ∷ []) d d' v h) ∙ e,
  );
}

pub toy-Reliable : Reliable toy
toy-Reliable = record {
  connected = λ d. refl;
  answered = λ cs d. (answer cs d, effects plus_none cs d, refl);
}

abbrev pub empty_world : World Hashes
empty_world = record { db = λ k f. none; task_runs = true; updates = [] }
