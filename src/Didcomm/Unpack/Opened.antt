-- ===== src/Didcomm/Unpack/Opened.antt =====
-- affinidi-messaging-didcomm/src/message/unpack/anoncrypt.rs: the layer of
-- anonymous encryption that is taken off.
use affinidi_messaging.Didcomm.Unpack.Decrypted.{
  DecryptedBy, DecryptedByAll, anon_loop-Some, anon_loop-All,
}
use affinidi_messaging.Common.{lift}
use affinidi_messaging.Common.{
  ℕ, String, true, List, [], ◌∷◌, Option, none, some, from_utf8, ◌≡◌, refl, ap, ◌∙◌, sym, subst,
  ◌⊎◌, inl, inr, Result, ok, err, panic, then_ok, then_ok-eq-ok, Bool-cases,
}
use affinidi_messaging.Common.Steps.{
  >>=-eq-ok_shut, lift-eq-ok, modify-eq, Keeps, >>=-Keeps, reading-Keeps, keeping,
}
use affinidi_messaging.Didcomm.Error.{ErrorKind, ensure-eq-ok, ok_or-eq-ok}
use affinidi_messaging.Didcomm.Wire.{Algorithm, ParsedJwe, ParsedEnvelope}
use affinidi_messaging.Didcomm.Crypto.{Crates}
use affinidi_messaging.Didcomm.Envelope.{MetaEnvelope, Step, within_did, first, open_envelope}
use affinidi_messaging.Didcomm.Unpack.Steps.{
  UnpackOptions, anon_decrypt, anon_loop, reopen, anon_jwe, if_anon, try_unpack_anoncrypt,
}

module _ {K : Type 0} (crates : Crates K) (opts : UnpackOptions) where
  -- What the metadata say of an anonymous layer.
  abbrev pub IsMarked : ParsedJwe → MetaEnvelope K → Type 0
  IsMarked jwe s =
      (s.metadata.encrypted ≡ true)
      × (s.metadata.anonymous_sender ≡ true)
      × (s.metadata.encrypted_to_kids ≡ some jwe.to_kids)

  anon_decrypt-Keeps :
      (jwe : ParsedJwe) (kid : String) → Keeps (IsMarked jwe) (anon_decrypt crates opts jwe kid)
  unfolding anon_decrypt
  anon_decrypt-Keeps jwe kid = search keeping

  anon_loop-Keeps :
      (jwe : ParsedJwe) (kids : List String) (payload : Option (List ℕ))
      → Keeps (IsMarked jwe) (anon_loop crates opts jwe kids payload)
  unfolding anon_loop
  anon_loop-Keeps jwe [] payload = reading-Keeps
  anon_loop-Keeps jwe (kid ∷ kids) payload = >>=-Keeps (anon_decrypt-Keeps jwe kid) λ found.
      elim (Bool-cases opts.expect_decrypt_by_all_keys) [
        | inl e ↦ rw e (anon_loop-Keeps jwe kids (some found))
        | inr e ↦ rw e reading-Keeps
      ]

  -- The JWE is for keys of one DID, of which some are ours; one of them decrypts the text of the
  -- envelope, and every one decrypts where this is asked for.
  pub record IsOpened (jwe : ParsedJwe) (e : ParsedEnvelope) : Type 0 where
    pub to_kid : String
    pub found : List String
    pub bytes : List ℕ
    pub text : String
    pub to : first jwe.to_kids ≡ some to_kid
    pub one_did : within_did to_kid jwe.to_kids ≡ true
    pub ours : crates.resolvers.find_secrets jwe.to_kids ≡ ok found
    pub decrypted : DecryptedBy crates opts jwe found bytes
    pub by_all : opts.expect_decrypt_by_all_keys ≡ true → DecryptedByAll crates opts jwe found
    pub is_text : from_utf8 bytes ≡ some text
    pub envelope : open_envelope crates text ≡ ok e

  or_none : {P : Type 0} (bytes : List ℕ) → P ⊎ Path (Option (List ℕ)) none (some bytes) → P
  or_none bytes (inl p) = p
  or_none bytes (inr h) = cc

  opened :
      (r : Result ErrorKind ParsedEnvelope) {e : ParsedEnvelope}
      → Path (Result ErrorKind (Option ParsedEnvelope)) (then_ok r λ a. ok (some a)) (ok (some e))
      → r ≡ ok e
  opened (ok a) h = cc
  opened (err x) h = cc
  opened panic h = cc

  pub reopen-eq-ok :
      (payload : Option (List ℕ)) {e : ParsedEnvelope}
      → reopen crates opts payload ≡ ok (some e)
      → (bytes : List ℕ) × (text : String) × (payload ≡ some bytes)
        × (from_utf8 bytes ≡ some text)
        × (open_envelope crates text ≡ ok e)
  reopen-eq-ok payload h =
      let (bytes, e₁, h₁) = then_ok-eq-ok _ _ h in
      let (text, e₂, h₂) = then_ok-eq-ok _ _ h₁ in
      (bytes, text, ok_or-eq-ok _ _ e₁, ok_or-eq-ok _ _ e₂, opened (open_envelope crates text) h₂)

  loop-IsOpened :
      (jwe : ParsedJwe) (to_kid : String) (found : List String) (payload : Option (List ℕ))
      (s s₁ s' : MetaEnvelope K) {e : ParsedEnvelope}
      → first jwe.to_kids ≡ some to_kid
      → within_did to_kid jwe.to_kids ≡ true
      → crates.resolvers.find_secrets jwe.to_kids ≡ ok found
      → IsMarked jwe s
      → anon_loop crates opts jwe found none s ≡ (ok payload, s₁)
      → lift (reopen crates opts payload) s₁ ≡ (ok (some e), s')
      → IsOpened jwe e × IsMarked jwe s'
  loop-IsOpened jwe to_kid found payload s s₁ s' to one_did ours marked e₁ h =
      let (bytes, text, is_payload, is_text, envelope) = reopen-eq-ok payload (ap (λ q. q.0) h) in
      let loop = subst (λ p. anon_loop crates opts jwe found none s ≡ (ok p, s₁)) is_payload e₁ in
      (
        record {
          to_kid = to_kid;
          found = found;
          bytes = bytes;
          text = text;
          to = to;
          one_did = one_did;
          ours = ours;
          decrypted = or_none bytes (anon_loop-Some crates opts jwe found none s s₁ loop);
          by_all = λ t. anon_loop-All crates opts jwe found none s s₁ t loop;
          is_text = is_text;
          envelope = envelope;
        },
        subst (IsMarked jwe) (ap (λ q. q.1) e₁ ∙ ap (λ q. q.1) h)
            ((anon_loop-Keeps jwe found none).holds s marked),
      )

  anon_jwe-IsOpened :
      (jwe : ParsedJwe) (s s' : MetaEnvelope K) {e : ParsedEnvelope}
      → anon_jwe crates opts jwe s ≡ (ok (some e), s')
      → IsOpened jwe e × IsMarked jwe s'
  unfolding anon_jwe
  anon_jwe-IsOpened jwe s s' h =
      let (to_kid, to, h₁) = lift-eq-ok _ _ s h in
      let (u, one_did, h₂) = lift-eq-ok _ _ s h₁ in
      let (found, ours, h₃) = lift-eq-ok _ _ _ (sym (modify-eq _ _ s) ∙ h₂) in
      let (v, some_ours, h₄) = lift-eq-ok _ _ _ h₃ in
      let (payload, s₁, e₁, h₅) = >>=-eq-ok_shut _ _ _ h₄ in
      loop-IsOpened jwe to_kid found payload _ s₁ s' (ok_or-eq-ok _ _ to) (ensure-eq-ok _ _ one_did)
        ours (refl, refl, refl) e₁ h₅

  if_anon-eq-ok :
      (alg : Algorithm) (step : Step K (Option ParsedEnvelope)) (s s' : MetaEnvelope K)
      {e : ParsedEnvelope}
      → if_anon crates opts alg step s ≡ (ok (some e), s')
      → (alg ≡ Algorithm.ecdh_es_a256kw) × (step s ≡ (ok (some e), s'))
  if_anon-eq-ok Algorithm.ecdh_es_a256kw step s s' h = (refl, h)
  if_anon-eq-ok Algorithm.ecdh1pu_a256kw step s s' h = cc
  if_anon-eq-ok (Algorithm.other x) step s s' h = cc

  -- Where the layer of anonymous encryption of a JWE is taken off, its algorithm is that of
  -- anonymous encryption, its recipients are keys of one DID, and the new envelope is read from the
  -- text that one of our keys among them decrypts without a sender's key; every one of these keys
  -- decrypts where the options ask for it. The metadata then say that the message was encrypted by
  -- an anonymous sender for these recipients.
  pub try_unpack_anoncrypt-IsOpened :
      (jwe : ParsedJwe) (e : ParsedEnvelope) (s s' : MetaEnvelope K)
      → try_unpack_anoncrypt crates opts (ParsedEnvelope.jwe jwe) s ≡ (ok (some e), s')
      → (jwe.protected.alg ≡ Algorithm.ecdh_es_a256kw) × IsOpened jwe e × IsMarked jwe s'
  unfolding try_unpack_anoncrypt
  try_unpack_anoncrypt-IsOpened jwe e s s' h =
      let (alg, h₁) = if_anon-eq-ok jwe.protected.alg (anon_jwe crates opts jwe) s s' h in
      let (opens, marks) = anon_jwe-IsOpened jwe s s' h₁ in (alg, opens, marks)
