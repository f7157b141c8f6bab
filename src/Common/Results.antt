-- ===== src/Common/Results.antt =====
-- The results of fallible code. `panic` stands for a call of `unwrap` on an error.
use mathlib.Core.Bool.{Bool, true, false}
use mathlib.Core.Path.{◌≡◌, refl, ap, sym}

pub data Result {ℓ κ} (E : Type ℓ) (A : Type κ) : Type (ℓ ⊔ κ) where
  ok : A → Result E A
  err : E → Result E A
  panic : Result E A

-- A step that reads and writes a state, which an error leaves as it then is.
abbrev pub Action : Type 0 → Type 0 → Type 0 → Type 0
Action S E A = S → Result E A × S

module _ {S E : Type 0} where
  abbrev pub bind_result : {A B : Type 0} → (A → Action S E B) → Result E A × S → Result E B × S
  bind_result f (ok a, s) = f a s
  bind_result f (err e, s) = (err e, s)
  bind_result f (panic, s) = (panic, s)

  infixl 5 ◌>>=◌ ◌>>◌
  abbrev pub ◌>>=◌ : {A B : Type 0} → Action S E A → (A → Action S E B) → Action S E B
  ◌>>=◌ m f s = bind_result f (m s)

  abbrev pub ◌>>◌ : {B : Type 0} → Action S E (Unit {0}) → Action S E B → Action S E B
  ◌>>◌ m k s = bind_result (λ _. k) (m s)

  abbrev pub pure : {A : Type 0} → A → Action S E A
  pure a s = (ok a, s)

  abbrev pub fail : {A : Type 0} → E → Action S E A
  fail e s = (err e, s)

  -- A step that leaves the state alone.
  abbrev pub lift : {A : Type 0} → Result E A → Action S E A
  lift r s = (r, s)

  abbrev unwrap_result : {A : Type 0} → Result E A × S → Result E A × S
  unwrap_result (ok a, s) = (ok a, s)
  unwrap_result (err e, s) = (panic, s)
  unwrap_result (panic, s) = (panic, s)

  abbrev pub unwrap : {A : Type 0} → Action S E A → Action S E A
  unwrap m s = unwrap_result (m s)

  -- `match m.await { Ok(a) => on_ok, Err(e) => on_err }`: the error is handled on the spot.
  abbrev pub handle_result :
      {A B : Type 0} → (A → Action S E B) → (E → Action S E B) → Result E A × S → Result E B × S
  handle_result on_ok on_err (ok a, s) = on_ok a s
  handle_result on_ok on_err (err e, s) = on_err e s
  handle_result on_ok on_err (panic, s) = (panic, s)

  abbrev pub handle :
      {A B : Type 0} → Action S E A → (A → Action S E B) → (E → Action S E B) → Action S E B
  handle m on_ok on_err s = handle_result on_ok on_err (m s)

-- The same chain without a state.
module _ {E : Type 0} where
  abbrev pub then_ok : {A B : Type 0} → Result E A → (A → Result E B) → Result E B
  then_ok (ok a) f = f a
  then_ok (err e) f = err e
  then_ok panic f = panic

  abbrev pub ensure : Bool → E → Result E (Unit {0})
  ensure true e = ok tt
  ensure false e = err e

-- Inversion of a chain that succeeds.
pub then_ok-eq-ok :
    {E A B : Type 0} (m : Result E A) (f : A → Result E B) {b : B}
    → then_ok m f ≡ ok b
    → (a : A) × (m ≡ ok a) × (f a ≡ ok b)
then_ok-eq-ok (ok a) f h = (a, refl, h)
then_ok-eq-ok (err e) f h = cc
then_ok-eq-ok panic f h = cc

pub then_ok_assoc :
    {E A B C : Type 0} (m : Result E A) (f : A → Result E B) (g : B → Result E C)
    → then_ok (then_ok m f) g ≡ then_ok m (λ a. then_ok (f a) g)
then_ok_assoc (ok a) f g = refl
then_ok_assoc (err e) f g = refl
then_ok_assoc panic f g = refl

pub then_ok_cong :
    {E A B : Type 0} (m : Result E A) (f g : A → Result E B)
    → ((a : A) → f a ≡ g a)
    → then_ok m f ≡ then_ok m g
then_ok_cong (ok a) f g h = h a
then_ok_cong (err e) f g h = refl
then_ok_cong panic f g h = refl

pub err-ne-ok : {E A : Type 0} {e : E} {a : A} → Path (Result E A) (err e) (ok a) → ⊥
err-ne-ok h = cc

pub ok-injective : {E A : Type 0} (a b : A) → Path (Result E A) (ok a) (ok b) → a ≡ b
ok-injective a b h = cc

pub panic-ne-ok : {E A : Type 0} {a : A} → Path (Result E A) panic (ok a) → ⊥
panic-ne-ok h = cc

module _ {S E A B : Type 0} (f : A → Action S E B) {b : B} {s' : S} where
  bind_result-eq-ok :
      (p : Result E A × S)
      → bind_result f p ≡ (ok b, s')
      → (a : A) × (s₁ : S) × (p ≡ (ok a, s₁)) × (f a s₁ ≡ (ok b, s'))
  bind_result-eq-ok (ok a, s) h = (a, s, refl, h)
  bind_result-eq-ok (err e, s) h = absurd (err-ne-ok (ap (λ q. q.0) h))
  bind_result-eq-ok (panic, s) h = absurd (panic-ne-ok (ap (λ q. q.0) h))

-- Inversion of a step that succeeds, for proofs where its parts stay shut.
pub >>=-eq-ok :
    {S E A B : Type 0} (m : Action S E A) (f : A → Action S E B) (s : S) {b : B} {s' : S}
    → (m >>= f) s ≡ (ok b, s')
    → (a : A) × (s₁ : S) × (m s ≡ (ok a, s₁)) × (f a s₁ ≡ (ok b, s'))
>>=-eq-ok m f s h = bind_result-eq-ok f (m s) h

handle_result-pure-eq-ok :
    {S E A B : Type 0} (a b : A) (s' : S) (p : Result E B × S)
    → handle_result (λ _. pure a) (λ _. pure a) p ≡ (ok b, s')
    → b ≡ a
handle_result-pure-eq-ok a b s' (ok x, s) h = ok-injective b a (ap (λ q. q.0) (sym h))
handle_result-pure-eq-ok a b s' (err e, s) h = ok-injective b a (ap (λ q. q.0) (sym h))
handle_result-pure-eq-ok a b s' (panic, s) h = absurd (panic-ne-ok (ap (λ q. q.0) h))

-- A step whose result is passed over.
pub handle-pure-eq-ok :
    {S E A B : Type 0} (m : Action S E B) (a b : A) (s s' : S)
    → handle m (λ _. pure a) (λ _. pure a) s ≡ (ok b, s')
    → b ≡ a
handle-pure-eq-ok m a b s s' h = handle_result-pure-eq-ok a b s' (m s) h

unwrap_result-eq-ok :
    {S E A : Type 0} (a : A) (s' : S) (p : Result E A × S)
    → unwrap_result p ≡ (ok a, s')
    → p ≡ (ok a, s')
unwrap_result-eq-ok a s' (ok b, s) h = h
unwrap_result-eq-ok a s' (err e, s) h = absurd (panic-ne-ok (ap (λ q. q.0) h))
unwrap_result-eq-ok a s' (panic, s) h = absurd (panic-ne-ok (ap (λ q. q.0) h))

pub unwrap-eq-ok :
    {S E A : Type 0} (m : Action S E A) (a : A) (s s' : S)
    → unwrap m s ≡ (ok a, s')
    → m s ≡ (ok a, s')
unwrap-eq-ok m a s s' h = unwrap_result-eq-ok a s' (m s) h
