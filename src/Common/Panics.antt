-- ===== src/Common/Panics.antt =====
-- Steps that never panic, whatever the state.
use mathlib.Core.Path.{◌≡◌, refl}
use mathlib.Core.Logic.{◌≢◌, ◌⊎◌, inl, inr}
use affinidi_messaging.Common.Results.{
  Result, ok, err, panic, Action, bind_result, ◌>>=◌, handle, handle_result, pure,
}

abbrev pub NoPanic : {S E A : Type 0} → Action S E A → Type 0
NoPanic {S} m = (s : S) → (m s).0 ≢ panic

module _ {S E A B : Type 0} where
  bind_result-ne-panic :
      (f : A → Action S E B)
      → ((a : A) → NoPanic (f a))
      → (p : Result E A × S) → p.0 ≢ panic
      → (bind_result f p).0 ≢ panic
  bind_result-ne-panic f safe (ok a, s) h = safe a s
  bind_result-ne-panic f safe (err e, s) h = λ q. cc
  bind_result-ne-panic f safe (panic, s) h = absurd (h refl)

  pub >>=-NoPanic :
      (m : Action S E A) (f : A → Action S E B)
      → NoPanic m
      → ((a : A) → NoPanic (f a))
      → NoPanic (m >>= f)
  >>=-NoPanic m f safe safe_f s = bind_result-ne-panic f safe_f (m s) (safe s)

  handle_result-eq-ok :
      (f : A → B) (g : E → B) (p : Result E A × S)
      → p.0 ≢ panic
      → ((a : A) × (handle_result (λ a. pure (f a)) (λ e. pure (g e)) p ≡ (ok (f a), p.1)))
        ⊎ ((e : E) × (handle_result (λ a. pure (f a)) (λ e. pure (g e)) p ≡ (ok (g e), p.1)))
  handle_result-eq-ok f g (ok a, s) h = inl (a, refl)
  handle_result-eq-ok f g (err e, s) h = inr (e, refl)
  handle_result-eq-ok f g (panic, s) h = absurd (h refl)

  -- A step whose errors are handled on the spot has a result.
  pub handle-eq-ok :
      (m : Action S E A) (f : A → B) (g : E → B) (s : S)
      → NoPanic m
      → ((a : A) × (handle m (λ a. pure (f a)) (λ e. pure (g e)) s ≡ (ok (f a), (m s).1)))
        ⊎ ((e : E) × (handle m (λ a. pure (f a)) (λ e. pure (g e)) s ≡ (ok (g e), (m s).1)))
  handle-eq-ok m f g s safe = handle_result-eq-ok f g (m s) (safe s)
