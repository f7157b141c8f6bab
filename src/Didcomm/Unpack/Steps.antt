-- ===== src/Didcomm/Unpack/Steps.antt =====
-- affinidi-messaging-didcomm/src/message/unpack/anoncrypt.rs and authcrypt.rs: the two layers of
-- encryption.
use affinidi_messaging.Common.{
  ℕ, ◌+◌, leb, String, Bool, true, false, not, List, [], ◌∷◌, Option, none, some, from_utf8, Result,
  ok, err, then_ok, ensure, pure, lift, if◌then◌else◌,
}
use affinidi_messaging.Common.Steps.{◌>>=◌, ◌>>◌, modify}
use affinidi_messaging.Didcomm.Error.{ErrorKind, ok_or, or_panic}
use affinidi_messaging.Didcomm.Keys.{Curve, KnownKeyPair}
use affinidi_messaging.Didcomm.Keys.Secrets.{secret_as_key_pair}
use affinidi_messaging.Didcomm.Wire.{
  AnonCryptAlg, AuthCryptAlg, Algorithm, EncAlgorithm, ParsedJwe, ParsedEnvelope,
}
use affinidi_messaging.Didcomm.Crypto.{Crates, ContentKey, Kdf}
use affinidi_messaging.Didcomm.Jwe.Decrypt.{decrypt}
use affinidi_messaging.Didcomm.Envelope.{
  Step, set_metadata, within_did, first, is_empty, open_envelope, fill_envelope_from,
}

pub record UnpackOptions : Type 0 where
  pub expect_decrypt_by_all_keys : Bool
  pub unwrap_re_wrapping_forward : Bool
  pub crypto_operations_limit_per_message : ℕ

abbrev pub default_options : UnpackOptions
default_options = record {
  expect_decrypt_by_all_keys = false;
  unwrap_re_wrapping_forward = true;
  crypto_operations_limit_per_message = 1000;
}

-- The pairs that agree on keys.
abbrev pub agreement : {K : Type 0} → KnownKeyPair K → Option (Curve × K)
agreement (KnownKeyPair.x25519 k) = some (Curve.x25519, k)
agreement (KnownKeyPair.p256 k) = some (Curve.p256, k)
agreement (KnownKeyPair.k256 k) = some (Curve.k256, k)
agreement (KnownKeyPair.ed25519 k) = none

abbrev pub anon_method : EncAlgorithm → Option (ContentKey × AnonCryptAlg)
anon_method EncAlgorithm.a256cbc_hs512 =
    some (ContentKey.a256cbc_hs512_key, AnonCryptAlg.a256cbc_hs512_ecdh_es_a256kw)
anon_method EncAlgorithm.xc20p = some (ContentKey.xc20p_key, AnonCryptAlg.xc20p_ecdh_es_a256kw)
anon_method EncAlgorithm.a256gcm =
    some (ContentKey.a256gcm_key, AnonCryptAlg.a256gcm_ecdh_es_a256kw)
anon_method (EncAlgorithm.other s) = none

abbrev pub both : {A B : Type 0} → Option A → Option B → Option (A × B)
both (some a) (some b) = some (a, b)
both _ _ = none

-- The match on the sender's pair, the recipient's pair and the content encryption.
abbrev pub auth_method :
    {K : Type 0}
    → KnownKeyPair K
    → KnownKeyPair K
    → EncAlgorithm
    → Result ErrorKind (Curve × (K × K))
auth_method (KnownKeyPair.x25519 from) (KnownKeyPair.x25519 to) EncAlgorithm.a256cbc_hs512 =
    ok (Curve.x25519, (from, to))
auth_method (KnownKeyPair.p256 from) (KnownKeyPair.p256 to) EncAlgorithm.a256cbc_hs512 =
    ok (Curve.p256, (from, to))
auth_method (KnownKeyPair.x25519 from) (KnownKeyPair.p256 to) enc = err ErrorKind.malformed
auth_method (KnownKeyPair.p256 from) (KnownKeyPair.x25519 to) enc = err ErrorKind.malformed
auth_method (KnownKeyPair.k256 from) (KnownKeyPair.k256 to) EncAlgorithm.a256cbc_hs512 =
    ok (Curve.k256, (from, to))
auth_method (KnownKeyPair.x25519 from) (KnownKeyPair.k256 to) enc = err ErrorKind.malformed
auth_method (KnownKeyPair.k256 from) (KnownKeyPair.x25519 to) enc = err ErrorKind.malformed
auth_method _ _ _ = err ErrorKind.unsupported

module _ {K : Type 0} (crates : Crates K) (opts : UnpackOptions) where
  unfoldable pub secret_pair : String → Result ErrorKind (KnownKeyPair K)
  unfolding secret_as_key_pair
  secret_pair to_kid =
      then_ok (crates.resolvers.get_secret to_kid)
        λ found. then_ok (ok_or ErrorKind.invalid_state found) (secret_as_key_pair crates.keys)

  -- One key of the loop of `_try_unpack_anoncrypt`.
  unfoldable pub anon_decrypt : ParsedJwe → String → Step K (List ℕ)
  unfolding secret_pair decrypt
  anon_decrypt jwe to_kid = do
    to_key ← lift (secret_pair to_kid)
    method ←
        lift (ok_or ErrorKind.unsupported (both (agreement to_key) (anon_method jwe.protected.enc)))
    modify (set_metadata λ md. record md { enc_alg_anon = some method.1.1 })
    lift (decrypt crates method.1.0 Kdf.ecdh_es method.0.0 jwe none (to_kid, method.0.1))

  unfoldable pub anon_loop : ParsedJwe → List String → Option (List ℕ) → Step K (Option (List ℕ))
  unfolding anon_decrypt
  anon_loop jwe [] payload = pure payload
  anon_loop jwe (to_kid ∷ to_kids) payload = do
    found ← anon_decrypt jwe to_kid
    if opts.expect_decrypt_by_all_keys
        then anon_loop jwe to_kids (some found)
        else pure (some found)

  -- What was decrypted, opened as an envelope.
  abbrev pub reopen : Option (List ℕ) → Result ErrorKind (Option ParsedEnvelope)
  reopen payload = then_ok (ok_or ErrorKind.invalid_state payload) λ bytes.
      then_ok (ok_or ErrorKind.malformed (from_utf8 bytes))
        λ text. then_ok (open_envelope crates text) λ e. ok (some e)

  unfoldable pub anon_jwe : ParsedJwe → Step K (Option ParsedEnvelope)
  unfolding anon_loop
  anon_jwe jwe = do
    to_kid ← lift (ok_or ErrorKind.malformed (first jwe.to_kids))
    lift (ensure (within_did to_kid jwe.to_kids) ErrorKind.malformed)
    modify (
        set_metadata λ md. record md {
          encrypted_to_kids = some jwe.to_kids;
          encrypted = true;
          anonymous_sender = true;
        })
    to_kids_found ← lift (crates.resolvers.find_secrets jwe.to_kids)
    lift (ensure (not (is_empty to_kids_found)) ErrorKind.secret_not_found)
    payload ← anon_loop jwe to_kids_found none
    lift (reopen payload)

  abbrev pub if_anon : Algorithm → Step K (Option ParsedEnvelope) → Step K (Option ParsedEnvelope)
  if_anon Algorithm.ecdh_es_a256kw step = step
  if_anon _ step = pure none

  unfoldable pub try_unpack_anoncrypt : ParsedEnvelope → Step K (Option ParsedEnvelope)
  unfolding anon_jwe
  try_unpack_anoncrypt (ParsedEnvelope.jwe jwe) = if_anon jwe.protected.alg (anon_jwe jwe)
  try_unpack_anoncrypt (ParsedEnvelope.jws jws) = pure none
  try_unpack_anoncrypt (ParsedEnvelope.message m) = pure none

  -- One key of the loop of `_try_unpack_authcrypt`; the sender's key is unwrapped.
  unfoldable pub auth_decrypt : ParsedJwe → String → Step K (List ℕ)
  unfolding secret_pair decrypt
  auth_decrypt jwe to_kid = do
    to_key ← lift (secret_pair to_kid)
    from_key ← (λ s. (or_panic s.from_key, s))
    method ← lift (auth_method from_key to_key jwe.protected.enc)
    modify (
        set_metadata
          λ md. record md { enc_alg_auth = some AuthCryptAlg.a256cbc_hs512_ecdh1pu_a256kw })
    from_kid ← (λ s. (or_panic s.from_kid, s))
    lift (
        decrypt crates ContentKey.a256cbc_hs512_key Kdf.ecdh_1pu method.0 jwe
          (some (from_kid, method.1.0)) (to_kid, method.1.1))

  unfoldable pub auth_loop :
      ParsedJwe → ℕ → List String → Option (List ℕ) → Step K (Option (List ℕ))
  unfolding auth_decrypt
  auth_loop jwe count [] payload = pure payload
  auth_loop jwe count (to_kid ∷ to_kids) payload = do
    lift (
        ensure (not (leb opts.crypto_operations_limit_per_message (count + 1)))
          ErrorKind.too_many_crypto_operations)
    found ← auth_decrypt jwe to_kid
    if opts.expect_decrypt_by_all_keys
        then auth_loop jwe (count + 1) to_kids (some found)
        else pure (some found)

  -- The metadata is filled again when the sender is not known yet.
  abbrev pub refill : ParsedJwe → Option (List ℕ) → Option String → Step K (Unit {0})
  refill jwe (some apu) none = fill_envelope_from crates jwe
  refill jwe apu from_kid = pure tt

  unfoldable pub auth_jwe : ParsedJwe → ℕ → Step K (Option ParsedEnvelope)
  unfolding auth_loop
  auth_jwe jwe count = do
    from_kid ← (λ s. (ok s.from_kid, s))
    refill jwe jwe.apu from_kid
    to_kids_found ← (λ s. (ok s.to_kids_found, s))
    payload ← auth_loop jwe count to_kids_found none
    lift (reopen payload)

  abbrev pub if_auth : Algorithm → Step K (Option ParsedEnvelope) → Step K (Option ParsedEnvelope)
  if_auth Algorithm.ecdh1pu_a256kw step = step
  if_auth _ step = pure none

  unfoldable pub try_unpack_authcrypt : ParsedEnvelope → ℕ → Step K (Option ParsedEnvelope)
  unfolding auth_jwe
  try_unpack_authcrypt (ParsedEnvelope.jwe jwe) count =
      if_auth jwe.protected.alg (auth_jwe jwe count)
  try_unpack_authcrypt (ParsedEnvelope.jws jws) count = pure none
  try_unpack_authcrypt (ParsedEnvelope.message m) count = pure none
