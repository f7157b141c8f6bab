-- ===== src/Didcomm/Unpack/Signed.antt =====
-- affinidi-messaging-didcomm/src/message/unpack/mod.rs: the whole of the unpacking keeps what the
-- metadata say of a signature.
use affinidi_messaging.Didcomm.Unpack.NonRepudiation.{
  IsSigned, SignedIfSaid, false-ne-true, anoncrypt-Keeps, from_parsed-Keeps, authcrypt-Keeps,
  try_sign-Keeps, plaintext-Keeps,
}
use affinidi_messaging.Common.{
  ℕ, zero, suc, ◌+◌, String, true, Option, none, some, ◌≡◌, ap, subst, Result, ok, err, panic,
  then_ok, then_ok-eq-ok,
}
use affinidi_messaging.Common.Steps.{
  >>=-eq-ok_shut, Keeps, >>=-Keeps, lift-Keeps, reading-Keeps, modify-Keeps,
}
use affinidi_messaging.Didcomm.Error.{ErrorKind, to_didcomm}
use affinidi_messaging.Didcomm.Message.{Message}
use affinidi_messaging.Didcomm.Wire.{ParsedEnvelope}
use affinidi_messaging.Didcomm.Crypto.{Crates}
use affinidi_messaging.Didcomm.Envelope.{
  UnpackMetadata, MetaEnvelope, Step, from_parsed, state_if_ok, new, default_envelope,
  parse_envelope, verify_didcomm,
}
use affinidi_messaging.Didcomm.Unpack.Steps.{UnpackOptions}
use affinidi_messaging.Didcomm.Unpack.{
  unpack_loop, loop_on, at_end, current, unpack_layers, unpack, unpack_string,
}

module _ {K : Type 0} (crates : Crates K) where
  module _ (opts : UnpackOptions) where
    loop_on-Keeps :
        (again : ParsedEnvelope → Step K (Option (ParsedEnvelope × ℕ))) (end : ParsedEnvelope × ℕ)
        (forwarded : Option String)
        → ((next : ParsedEnvelope) → Keeps (SignedIfSaid crates) (again next))
        → Keeps (SignedIfSaid crates) (loop_on crates opts again end forwarded)
    loop_on-Keeps again end none k = reading-Keeps
    loop_on-Keeps again end (some text) k = modify-Keeps (lift-Keeps λ next e. k next) λ s h. h

    loop-Keeps :
        (fuel count : ℕ) (parsed : ParsedEnvelope)
        → Keeps (SignedIfSaid crates) (unpack_loop crates opts fuel count parsed)
    unfolding unpack_loop
    loop-Keeps zero count parsed = reading-Keeps
    loop-Keeps (suc fuel) count parsed = lift-Keeps λ u within.
        >>=-Keeps (anoncrypt-Keeps crates opts parsed) λ anoncrypted.
          lift-Keeps
            λ forwarded e. loop_on-Keeps _ _ forwarded λ next. loop-Keeps fuel (count + 1) next

    at_end-Keeps :
        (end : Option (ParsedEnvelope × ℕ)) → Keeps (SignedIfSaid crates) (at_end crates opts end)
    at_end-Keeps (some end) = reading-Keeps
    at_end-Keeps none = reading-Keeps

    layers-Keeps :
        (parsed : ParsedEnvelope) → Keeps (SignedIfSaid crates) (unpack_layers crates opts parsed)
    unfolding unpack_layers
    layers-Keeps parsed =
        >>=-Keeps (loop-Keeps (suc opts.crypto_operations_limit_per_message) 0 parsed) λ looped.
          >>=-Keeps (at_end-Keeps looped) λ end.
            >>=-Keeps (authcrypt-Keeps crates opts end.0 end.1) λ authcrypted.
              >>=-Keeps (try_sign-Keeps crates (current crates opts authcrypted end.0)) λ signed.
                >>=-Keeps
                  (plaintext-Keeps crates
                    (current crates opts signed (current crates opts authcrypted end.0)))
                  λ msg. reading-Keeps

    unpack-Keeps : Keeps (SignedIfSaid crates) (unpack crates opts)
    unfolding unpack
    unpack-Keeps =
        >>=-Keeps reading-Keeps λ parsed. >>=-Keeps (layers-Keeps parsed) λ msg. reading-Keeps

    unpack-metadata :
        (s s' : MetaEnvelope K) {msg : Message} {md : UnpackMetadata}
        → unpack crates opts s ≡ (ok (msg, md), s')
        → md ≡ s'.metadata
    unfolding unpack
    unpack-metadata s s' h =
        let (parsed, s₁, e₁, h₁) = >>=-eq-ok_shut _ _ s h in
        let (m, s₂, e₂, h₂) = >>=-eq-ok_shut _ _ s₁ h₁ in last h₂
      where
        last :
            {m msg : Message} {md : UnpackMetadata} {s₂ : MetaEnvelope K}
            → Path
                (Result ErrorKind (Message × UnpackMetadata) × MetaEnvelope K)
                (ok (m, s₂.metadata), s₂)
                (ok (msg, md), s')
            → md ≡ s'.metadata
        last h = cc

    unpack-IsSigned :
        (s : MetaEnvelope K) {msg : Message} {md : UnpackMetadata}
        → (SignedIfSaid crates) s
        → (unpack crates opts s).0 ≡ ok (msg, md)
        → md.non_repudiation ≡ true
        → IsSigned crates md.sign_from md.signed_message
    unpack-IsSigned s h e =
        rw (unpack-metadata s (unpack crates opts s).1 (ap (λ r. (r, (unpack crates opts s).1)) e))
          (unpack-Keeps.holds s h)

    state_if_ok-eq-ok :
        (p : Result ErrorKind (Unit {0}) × MetaEnvelope K) (s : MetaEnvelope K)
        → state_if_ok crates p ≡ ok s
        → p.1 ≡ s
    state_if_ok-eq-ok (ok u, s') s h = cc
    state_if_ok-eq-ok (err e, s') s h = cc
    state_if_ok-eq-ok (panic, s') s h = cc

    fill_new-SignedIfSaid :
        (parsed : ParsedEnvelope) (s s' : MetaEnvelope K)
        → (SignedIfSaid crates) s
        → state_if_ok crates (from_parsed crates parsed s) ≡ ok s'
        → (SignedIfSaid crates) s'
    fill_new-SignedIfSaid parsed s s' h e =
        subst (SignedIfSaid crates) (state_if_ok-eq-ok (from_parsed crates parsed s) s' e)
          ((from_parsed-Keeps crates parsed).holds s h)

    new-SignedIfSaid :
        (text : String) (s : MetaEnvelope K) → new crates text ≡ ok s → (SignedIfSaid crates) s
    unfolding new
    new-SignedIfSaid text s h =
        let (envelope, e₁, h₁) = then_ok-eq-ok (to_didcomm (crates.serde.read_envelope text)) _ h in
        let (parsed, e₂, h₂) =
          then_ok-eq-ok (then_ok (parse_envelope crates envelope) (verify_didcomm crates)) _ h₁ in
        fill_new-SignedIfSaid parsed
          (record default_envelope { envelope = some envelope; parsed_envelope = some parsed }) s
          (λ said. absurd (false-ne-true crates said)) h₂

  -- A message that `unpack_string` returns with metadata that claim non-repudiation has metadata
  -- that hold a JWS and a key id, and the signature of this JWS under this key id is valid for the
  -- key of a method that the document of the key's DID has and lists for authentication.
  pub unpack_string-IsSigned :
      (opts : UnpackOptions) (text : String) (msg : Message) (md : UnpackMetadata)
      → unpack_string crates opts text ≡ ok (msg, md)
      → md.non_repudiation ≡ true
      → IsSigned crates md.sign_from md.signed_message
  unfolding unpack_string
  unpack_string-IsSigned opts text msg md h =
      let (s, e, h₁) = then_ok-eq-ok _ _ h in
      unpack-IsSigned opts s (new-SignedIfSaid opts text s e) h₁
