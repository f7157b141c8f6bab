-- ===== src/Didcomm/Unpack/NonRepudiation.antt =====
-- affinidi-messaging-didcomm/src/message/unpack: what the metadata of a message says of its
-- signature is what was checked.
use affinidi_messaging.Common.{
  ℕ, ◌+◌, String, Bool, true, false, List, [], ◌∷◌, find, Option, none, some, ◌≡◌, refl, ap, ◌∙◌,
  ◌=ₛ◌, ok, then_ok-eq-ok, Bool-cases, inl, inr,
}
use affinidi_messaging.Common.Steps.{
  Keeps, >>=-Keeps, lift-Keeps, reading-Keeps, modify-Keeps, change-Keeps, keeping,
}
use affinidi_messaging.Didcomm.Error.{ensure-eq-ok, ok_or-eq-ok}
use affinidi_messaging.Didcomm.Keys.{
  Curve, Params, VerificationMethod, Document, did_or_url, is_url,
}
use affinidi_messaging.Didcomm.Keys.Methods.{get_jwk, as_curve}
use affinidi_messaging.Didcomm.Wire.{Jws, ParsedJws, ParsedJwe, ParsedEnvelope, Algorithm}
use affinidi_messaging.Didcomm.Crypto.{Crates}
use affinidi_messaging.Didcomm.Jws.{verify}
use affinidi_messaging.Didcomm.Envelope.{
  MetaEnvelope, Step, fill_envelope_from, fill_sender, fill_recipients, sender_or_anonymous,
  from_parsed,
}
use affinidi_messaging.Didcomm.Unpack.Steps.{
  UnpackOptions, if_anon, if_auth, refill, anon_decrypt, anon_loop, anon_jwe, auth_decrypt,
  auth_loop, auth_jwe, try_unpack_anoncrypt, try_unpack_authcrypt,
}
use affinidi_messaging.Didcomm.Unpack.{
  signer_key, unpack_jws, try_unpack_sign, try_unpack_plaintext, unpack_prior,
}

module _ {K : Type 0} (crates : Crates K) where
  -- The key id is a URL, whose DID has a document that lists it for authentication and has the
  -- method.
  pub record IsSigner (kid : String) (vm : VerificationMethod) : Type 0 where
    pub doc : Document
    pub url : is_url kid ≡ true
    pub resolved : crates.resolvers.resolve (did_or_url kid).0 ≡ some doc
    pub listed : crates.resolvers.contains_authentication doc kid ≡ true
    pub method : find (λ v. v.id =ₛ kid) doc.verification_method ≡ some vm

  -- The signature of the JWS under the key id is valid for the key of such a method.
  pub record IsVerified (jws : Jws) (kid : String) : Type 0 where
    pub parsed : ParsedJws
    pub vm : VerificationMethod
    pub curve : Curve
    pub jwk : Params
    pub key : K
    pub signed : parsed.jws ≡ jws
    pub signer : IsSigner kid vm
    pub has_jwk : get_jwk crates.keys vm ≡ ok (some jwk)
    pub has_key : as_curve crates.keys curve jwk ≡ ok key
    pub valid : verify crates.crypto parsed curve kid key ≡ ok true

  pub record IsSigned (sign_from : Option String) (signed_message : Option Jws) : Type 0 where
    pub jws : Jws
    pub kid : String
    pub by : sign_from ≡ some kid
    pub whole : signed_message ≡ some jws
    pub verified : IsVerified jws kid

  abbrev pub SignedIfSaid : MetaEnvelope K → Type 0
  SignedIfSaid s =
      s.metadata.non_repudiation ≡ true → IsSigned s.metadata.sign_from s.metadata.signed_message

  pub false-ne-true : Path Bool false true → ⊥
  false-ne-true h = cc

  signer_key-IsSigner :
      (kid : String) {vm : VerificationMethod} → signer_key crates kid ≡ ok vm → IsSigner kid vm
  unfolding signer_key
  signer_key-IsSigner kid h =
      let (u, is_url, h₁) = then_ok-eq-ok _ _ h in
      let (doc, resolved, h₂) = then_ok-eq-ok _ _ h₁ in
      let (v, listed, h₃) = then_ok-eq-ok _ _ h₂ in
      record {
        doc = doc;
        url = ensure-eq-ok _ _ is_url;
        resolved = ok_or-eq-ok _ _ resolved;
        listed = ensure-eq-ok _ _ listed;
        method = ok_or-eq-ok _ _ h₃;
      }

  module _ (opts : UnpackOptions) where
    anon_decrypt-Keeps :
        (jwe : ParsedJwe) (kid : String) → Keeps SignedIfSaid (anon_decrypt crates opts jwe kid)
    unfolding anon_decrypt
    anon_decrypt-Keeps jwe kid = search keeping

    anon_loop-Keeps :
        (jwe : ParsedJwe) (kids : List String) (payload : Option (List ℕ))
        → Keeps SignedIfSaid (anon_loop crates opts jwe kids payload)
    unfolding anon_loop
    anon_loop-Keeps jwe [] payload = reading-Keeps
    anon_loop-Keeps jwe (kid ∷ kids) payload = >>=-Keeps (anon_decrypt-Keeps jwe kid) λ found.
        elim (Bool-cases opts.expect_decrypt_by_all_keys) [
          | inl e ↦ rw e (anon_loop-Keeps jwe kids (some found))
          | inr e ↦ rw e reading-Keeps
        ]

    anon_jwe-Keeps : (jwe : ParsedJwe) → Keeps SignedIfSaid (anon_jwe crates opts jwe)
    unfolding anon_jwe
    anon_jwe-Keeps jwe = search (keeping, anon_loop-Keeps) depth 9

    if_anon-Keeps :
        (alg : Algorithm) {step : Step K (Option ParsedEnvelope)}
        → Keeps SignedIfSaid step
        → Keeps SignedIfSaid (if_anon crates opts alg step)
    if_anon-Keeps Algorithm.ecdh_es_a256kw k = k
    if_anon-Keeps Algorithm.ecdh1pu_a256kw k = reading-Keeps
    if_anon-Keeps (Algorithm.other x) k = reading-Keeps

    pub anoncrypt-Keeps :
        (parsed : ParsedEnvelope) → Keeps SignedIfSaid (try_unpack_anoncrypt crates opts parsed)
    unfolding try_unpack_anoncrypt
    anoncrypt-Keeps (ParsedEnvelope.jwe jwe) = if_anon-Keeps jwe.protected.alg (anon_jwe-Keeps jwe)
    anoncrypt-Keeps (ParsedEnvelope.jws jws) = reading-Keeps
    anoncrypt-Keeps (ParsedEnvelope.message m) = reading-Keeps

    auth_decrypt-Keeps :
        (jwe : ParsedJwe) (kid : String) → Keeps SignedIfSaid (auth_decrypt crates opts jwe kid)
    unfolding auth_decrypt
    auth_decrypt-Keeps jwe kid = search keeping depth 9

    auth_loop-Keeps :
        (jwe : ParsedJwe) (count : ℕ) (kids : List String) (payload : Option (List ℕ))
        → Keeps SignedIfSaid (auth_loop crates opts jwe count kids payload)
    unfolding auth_loop
    auth_loop-Keeps jwe count [] payload = reading-Keeps
    auth_loop-Keeps jwe count (kid ∷ kids) payload = lift-Keeps λ u within.
        >>=-Keeps (auth_decrypt-Keeps jwe kid) λ found.
          elim (Bool-cases opts.expect_decrypt_by_all_keys) [
            | inl e ↦ rw e (auth_loop-Keeps jwe (count + 1) kids (some found))
            | inr e ↦ rw e reading-Keeps
          ]

  if_auth-Keeps :
      (opts : UnpackOptions) (alg : Algorithm) {step : Step K (Option ParsedEnvelope)}
      → Keeps SignedIfSaid step
      → Keeps SignedIfSaid (if_auth crates opts alg step)
  if_auth-Keeps opts Algorithm.ecdh1pu_a256kw k = k
  if_auth-Keeps opts Algorithm.ecdh_es_a256kw k = reading-Keeps
  if_auth-Keeps opts (Algorithm.other x) k = reading-Keeps

  fill_sender-Keeps : (apu : List ℕ) → Keeps SignedIfSaid (fill_sender crates apu)
  unfolding fill_sender
  fill_sender-Keeps apu = search keeping depth 16

  fill_recipients-Keeps : (kids : List String) → Keeps SignedIfSaid (fill_recipients crates kids)
  unfolding fill_recipients
  fill_recipients-Keeps kids = search keeping depth 9

  sender_or_anonymous-Keeps :
      (apu : Option (List ℕ)) → Keeps SignedIfSaid (sender_or_anonymous crates apu)
  sender_or_anonymous-Keeps (some apu) = fill_sender-Keeps apu
  sender_or_anonymous-Keeps none = change-Keeps _ λ s h. h

  fill-Keeps : (jwe : ParsedJwe) → Keeps SignedIfSaid (fill_envelope_from crates jwe)
  unfolding fill_envelope_from
  fill-Keeps jwe =
      >>=-Keeps (sender_or_anonymous-Keeps jwe.apu) λ u. fill_recipients-Keeps jwe.to_kids

  pub from_parsed-Keeps : (parsed : ParsedEnvelope) → Keeps SignedIfSaid (from_parsed crates parsed)
  from_parsed-Keeps (ParsedEnvelope.jwe jwe) = fill-Keeps jwe
  from_parsed-Keeps (ParsedEnvelope.jws jws) = reading-Keeps
  from_parsed-Keeps (ParsedEnvelope.message m) = reading-Keeps

  refill-Keeps :
      (opts : UnpackOptions) (jwe : ParsedJwe) (apu : Option (List ℕ)) (from_kid : Option String)
      → Keeps SignedIfSaid (refill crates opts jwe apu from_kid)
  refill-Keeps opts jwe (some apu) none = fill-Keeps jwe
  refill-Keeps opts jwe (some apu) (some kid) = reading-Keeps
  refill-Keeps opts jwe none from_kid = reading-Keeps

  auth_jwe-Keeps :
      (opts : UnpackOptions) (jwe : ParsedJwe) (count : ℕ)
      → Keeps SignedIfSaid (auth_jwe crates opts jwe count)
  unfolding auth_jwe
  auth_jwe-Keeps opts jwe count = >>=-Keeps reading-Keeps λ from_kid.
      >>=-Keeps (refill-Keeps opts jwe jwe.apu from_kid) λ u.
        >>=-Keeps reading-Keeps
          λ kids. >>=-Keeps (auth_loop-Keeps opts jwe count kids none) λ payload. reading-Keeps

  pub authcrypt-Keeps :
      (opts : UnpackOptions) (parsed : ParsedEnvelope) (count : ℕ)
      → Keeps SignedIfSaid (try_unpack_authcrypt crates opts parsed count)
  unfolding try_unpack_authcrypt
  authcrypt-Keeps opts (ParsedEnvelope.jwe jwe) count =
      if_auth-Keeps opts jwe.protected.alg (auth_jwe-Keeps opts jwe count)
  authcrypt-Keeps opts (ParsedEnvelope.jws jws) count = reading-Keeps
  authcrypt-Keeps opts (ParsedEnvelope.message m) count = reading-Keeps

  sign-Keeps : (parsed : ParsedJws) → Keeps SignedIfSaid (unpack_jws crates parsed)
  unfolding unpack_jws
  sign-Keeps parsed = lift-Keeps λ one alone. lift-Keeps λ header has_header.
      lift-Keeps λ signature has_signature. lift-Keeps λ vm signer. lift-Keeps λ found has_jwk.
        lift-Keeps λ jwk is_jwk. lift-Keeps λ curve has_curve.
          modify-Keeps
            (lift-Keeps λ key has_key. lift-Keeps λ valid is_valid. lift-Keeps λ u accepted.
              lift-Keeps λ payload has_payload. modify-Keeps (search keeping) λ s h said. record {
                jws = parsed.jws;
                kid = signature.header.kid;
                by = refl;
                whole = refl;
                verified = record {
                  parsed = parsed;
                  vm = vm;
                  curve = curve;
                  jwk = jwk;
                  key = key;
                  signed = refl;
                  signer = signer_key-IsSigner signature.header.kid signer;
                  has_jwk = has_jwk ∙ ap ok (ok_or-eq-ok found _ is_jwk);
                  has_key = has_key;
                  valid = is_valid ∙ ap ok (ensure-eq-ok valid _ accepted);
                };
              })
            λ s h. h

  pub try_sign-Keeps :
      (parsed : ParsedEnvelope) → Keeps SignedIfSaid (try_unpack_sign crates parsed)
  unfolding try_unpack_sign
  try_sign-Keeps (ParsedEnvelope.jws parsed) = sign-Keeps parsed
  try_sign-Keeps (ParsedEnvelope.jwe parsed) = reading-Keeps
  try_sign-Keeps (ParsedEnvelope.message m) = reading-Keeps

  prior-Keeps : (from_prior : Option String) → Keeps SignedIfSaid (unpack_prior crates from_prior)
  prior-Keeps none = reading-Keeps
  prior-Keeps (some text) = lift-Keeps λ unpacked e. change-Keeps _ λ s h. h

  pub plaintext-Keeps :
      (parsed : ParsedEnvelope) → Keeps SignedIfSaid (try_unpack_plaintext crates parsed)
  unfolding try_unpack_plaintext
  plaintext-Keeps (ParsedEnvelope.message m) =
      lift-Keeps λ msg e. >>=-Keeps (prior-Keeps msg.from_prior) λ u. reading-Keeps
  plaintext-Keeps (ParsedEnvelope.jwe parsed) = reading-Keeps
  plaintext-Keeps (ParsedEnvelope.jws parsed) = reading-Keeps
