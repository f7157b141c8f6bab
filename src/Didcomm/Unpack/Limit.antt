-- ===== src/Didcomm/Unpack/Limit.antt =====
-- affinidi-messaging-didcomm/src/message/unpack/mod.rs: the loop of `unpack` ends, and counts its
-- rounds below the limit.
use affinidi_messaging.Common.{
  ℕ, zero, suc, ◌+◌, ◌≤◌, ◌<◌, leb, not, String, Option, none, some, ◌≡◌, sym, ap, ◌∙◌, arith,
  Bool-cases, inl, inr, Result, ok, err, panic, ensure,
}
use affinidi_messaging.Common.Steps.{Yields, >>=-Yields, lift-Yields}
use affinidi_messaging.Didcomm.Error.{ErrorKind}
use affinidi_messaging.Didcomm.Wire.{ParsedEnvelope}
use affinidi_messaging.Didcomm.Crypto.{Crates}
use affinidi_messaging.Didcomm.Envelope.{MetaEnvelope}
use affinidi_messaging.Didcomm.Unpack.Steps.{UnpackOptions}
use affinidi_messaging.Didcomm.Unpack.{loop_on, unpack_loop}

-- The loop did not run out of fuel, and its count at a success lies above `count` and below `limit`.
abbrev pub EndsWithin : ℕ → ℕ → Result ErrorKind (Option (ParsedEnvelope × ℕ)) → Type 0
EndsWithin count limit (ok none) = ⊥
EndsWithin count limit (ok (some (e, n))) = (count < n) × (n < limit)
EndsWithin count limit (err e) = Unit
EndsWithin count limit panic = Unit

room :
    (limit count : ℕ) (e : ErrorKind) {u : Unit {0}}
    → ensure (not (leb limit (count + 1))) e ≡ ok u
    → count + 1 < limit
room limit count e h = elim (Bool-cases (leb limit (count + 1))) [
  | inl full ↦ absurd (refused e (ap (λ b. ensure (not b) e) (sym full) ∙ h))
  | inr fits ↦ ground arith
]
  where
    refused : (e : ErrorKind) {u : Unit {0}} → Path (Result ErrorKind (Unit {0})) (err e) (ok u) → ⊥
    refused e h = cc

module _ {K : Type 0} (crates : Crates K) (opts : UnpackOptions) where
  EndsWithin-weaken :
      (count : ℕ) (r : Result ErrorKind (Option (ParsedEnvelope × ℕ)))
      → EndsWithin (count + 1) opts.crypto_operations_limit_per_message r
      → EndsWithin count opts.crypto_operations_limit_per_message r
  EndsWithin-weaken count (ok (some (e, n))) (low, high) = (omega arith, high)
  EndsWithin-weaken count (ok none) h = h
  EndsWithin-weaken count (err e) h = h
  EndsWithin-weaken count panic h = h

  loop_on-ends :
      (count fuel : ℕ) (end : ParsedEnvelope) (text : Option String)
      → count + 1 < opts.crypto_operations_limit_per_message
      → ((next : ParsedEnvelope)
          → Yields
              (EndsWithin (count + 1) opts.crypto_operations_limit_per_message)
              (unpack_loop crates opts fuel (count + 1) next))
      → Yields
          (EndsWithin count opts.crypto_operations_limit_per_message)
          (loop_on crates opts (unpack_loop crates opts fuel (count + 1)) (end, count + 1) text)
  loop_on-ends count fuel end none within k = record { results = λ s. (omega arith, within) }
  loop_on-ends count fuel end (some text) within k =
      >>=-Yields _ _ (λ e. tt) tt
        λ u.
          lift-Yields _ _ (λ e. tt) tt
            λ next e. record {
              results = λ s.
                  EndsWithin-weaken count (unpack_loop crates opts fuel (count + 1) next s).0
                    ((k next).results s);
            }

  unpack_loop-Yields :
      (fuel count : ℕ) (parsed : ParsedEnvelope)
      → opts.crypto_operations_limit_per_message ≤ fuel + count + 1
      → Yields
          (EndsWithin count opts.crypto_operations_limit_per_message)
          (unpack_loop crates opts (suc fuel) count parsed)
  unfolding unpack_loop
  unpack_loop-Yields zero count parsed enough =
      lift-Yields _ _ (λ e. tt) tt
        λ u fits.
          let within = room opts.crypto_operations_limit_per_message count _ fits in
          absurd (omega arith)
  unpack_loop-Yields (suc fuel) count parsed enough =
      lift-Yields _ _ (λ e. tt) tt
        λ u fits.
          >>=-Yields _ _ (λ e. tt) tt
            λ anoncrypted.
              lift-Yields _ _ (λ e. tt) tt
                λ forwarded e.
                  loop_on-ends count (suc fuel) _ forwarded
                    (room opts.crypto_operations_limit_per_message count _ fits)
                    λ next. unpack_loop-Yields fuel (count + 1) next (omega arith)

  -- From every state, the loop of `unpack` over any envelope ends within as many rounds as the
  -- limit on cryptographic operations allows: it never runs out of the fuel that the model gives
  -- it, and where it succeeds it has counted at least one round and fewer than the limit.
  pub unpack_loop_ends :
      (parsed : ParsedEnvelope) (s : MetaEnvelope K)
      → EndsWithin 0 opts.crypto_operations_limit_per_message
          (unpack_loop crates opts (suc opts.crypto_operations_limit_per_message) 0 parsed s).0
  unpack_loop_ends parsed s =
      (unpack_loop-Yields opts.crypto_operations_limit_per_message 0 parsed (omega arith)).results s
