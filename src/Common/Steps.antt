-- ===== src/Common/Steps.antt =====
-- Chains of steps that stay shut, and the properties of the state that they keep, whether they
-- succeed or not.
use mathlib.Core.Path.{◌≡◌, refl, ap}
use affinidi_messaging.Common.Results.{
  Result, ok, err, panic, Action, bind_result, lift, >>=-eq-ok, err-ne-ok, panic-ne-ok,
}

module _ {S E : Type 0} where
  infixl 5 ◌>>=◌ ◌>>◌
  unfoldable pub ◌>>=◌ : {A B : Type 0} → Action S E A → (A → Action S E B) → Action S E B
  ◌>>=◌ m f s = bind_result f (m s)

  abbrev pub ◌>>◌ : {B : Type 0} → Action S E (Unit {0}) → Action S E B → Action S E B
  ◌>>◌ m k = m >>= λ u. k

  unfoldable pub modify : (S → S) → Action S E (Unit {0})
  modify f s = (ok tt, f s)

-- Inversion of a chain that succeeds.
pub >>=-eq-ok_shut :
    {S E A B : Type 0} (m : Action S E A) (f : A → Action S E B) (s : S) {b : B} {s' : S}
    → (m >>= f) s ≡ (ok b, s')
    → (a : A) × (s₁ : S) × (m s ≡ (ok a, s₁)) × (f a s₁ ≡ (ok b, s'))
unfolding ◌>>=◌
>>=-eq-ok_shut m f s h = >>=-eq-ok m f s h

-- A chain that begins with a result and succeeds: the result is a success.
pub lift-eq-ok :
    {S E A B : Type 0} (r : Result E A) (f : A → Action S E B) (s : S) {b : B} {s' : S}
    → (lift r >>= f) s ≡ (ok b, s')
    → (a : A) × (r ≡ ok a) × (f a s ≡ (ok b, s'))
unfolding ◌>>=◌
lift-eq-ok (ok a) f s h = (a, refl, h)
lift-eq-ok (err e) f s h = absurd (err-ne-ok (ap (λ q. q.0) h))
lift-eq-ok panic f s h = absurd (panic-ne-ok (ap (λ q. q.0) h))

-- A chain that begins with a reading of the state.
pub reading-eq-ok :
    {S E A B : Type 0} (g : S → Result E A) (f : A → Action S E B) (s : S) {b : B} {s' : S}
    → ((λ t. (g t, t)) >>= f) s ≡ (ok b, s')
    → (a : A) × (g s ≡ ok a) × (f a s ≡ (ok b, s'))
unfolding ◌>>=◌
reading-eq-ok g f s h = lift-eq-ok (g s) f s h

-- A chain that begins with a change of the state.
pub modify-eq :
    {S E B : Type 0} (g : S → S) (k : Action S E B) (s : S) → (modify g >> k) s ≡ k (g s)
unfolding ◌>>=◌ modify
modify-eq g k s = refl

pub record Keeps {S E A : Type 0} (P : S → Type 0) (m : Action S E A) : Type 0 where
  pub holds : (s : S) → P s → P (m s).1

module _ {S E A B : Type 0} {P : S → Type 0} where
  bind_result-keeps :
      (f : A → Action S E B) (p : Result E A × S)
      → ((a : A) → p.0 ≡ ok a → Keeps P (f a))
      → P p.1
      → P (bind_result f p).1
  bind_result-keeps f (ok a, s) k h = (k a refl).holds s h
  bind_result-keeps f (err e, s) k h = h
  bind_result-keeps f (panic, s) k h = h

  pub >>=-Keeps :
      {m : Action S E A} {f : A → Action S E B}
      → Keeps P m
      → ((a : A) → Keeps P (f a))
      → Keeps P (m >>= f)
  unfolding ◌>>=◌
  >>=-Keeps {m} {f} k l = record {
    holds = λ s h. bind_result-keeps f (m s) (λ a e. l a) (k.holds s h);
  }

  -- A chain that begins with a result goes on only where this is a success.
  pub lift-Keeps :
      {r : Result E A} {f : A → Action S E B}
      → ((a : A) → r ≡ ok a → Keeps P (f a))
      → Keeps P (lift r >>= f)
  unfolding ◌>>=◌
  lift-Keeps {r} {f} l = record { holds = λ s h. bind_result-keeps f (r, s) l h }

module _ {S E A : Type 0} {P : S → Type 0} where
  -- A step that reads the state and leaves it.
  pub reading-Keeps : {g : S → Result E A} → Keeps P (λ s. (g s, s))
  reading-Keeps = record { holds = λ s h. h }

  -- A change of the state before a step.
  pub modify-Keeps :
      {f : S → S} {k : Action S E A}
      → Keeps P k
      → ((s : S) → P s → P (f s))
      → Keeps P (modify f >> k)
  unfolding modify ◌>>=◌
  modify-Keeps l k = record { holds = λ s h. l.holds _ (k s h) }

module _ {S E : Type 0} {P : S → Type 0} where
  pub change-Keeps : (f : S → S) → ((s : S) → P s → P (f s)) → Keeps P (modify {E = E} f)
  unfolding modify
  change-Keeps f k = record { holds = k }

pub ruleset keeping = (modify-Keeps, lift-Keeps, >>=-Keeps, reading-Keeps, change-Keeps)

-- Steps all of whose results have a property.
pub record Yields {S E A : Type 0} (Q : Result E A → Type 0) (m : Action S E A) : Type 0 where
  pub results : (s : S) → Q (m s).0

module _ {S E A B : Type 0} {Q : Result E B → Type 0} where
  bind_result-yields :
      (f : A → Action S E B) (p : Result E A × S)
      → ((a : A) → p.0 ≡ ok a → Yields Q (f a))
      → ((e : E) → Q (err e))
      → Q panic
      → Q (bind_result f p).0
  bind_result-yields f (ok a, s) k fails panics = (k a refl).results s
  bind_result-yields f (err e, s) k fails panics = fails e
  bind_result-yields f (panic, s) k fails panics = panics

  -- A chain ends in an error of its first step, or as the rest does.
  pub >>=-Yields :
      (m : Action S E A) (f : A → Action S E B)
      → ((e : E) → Q (err e))
      → Q panic
      → ((a : A) → Yields Q (f a))
      → Yields Q (m >>= f)
  unfolding ◌>>=◌
  >>=-Yields m f fails panics k = record {
    results = λ s. bind_result-yields f (m s) (λ a e. k a) fails panics;
  }

  pub lift-Yields :
      (r : Result E A) (f : A → Action S E B)
      → ((e : E) → Q (err e))
      → Q panic
      → ((a : A) → r ≡ ok a → Yields Q (f a))
      → Yields Q (lift r >>= f)
  unfolding ◌>>=◌
  lift-Yields r f fails panics k = record {
    results = λ s. bind_result-yields f (r, s) k fails panics;
  }
