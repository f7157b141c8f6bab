-- ===== src/Didcomm/Pack/Encrypt.antt =====
-- affinidi-messaging-didcomm/src/message/pack_encrypted/anoncrypt.rs and authcrypt.rs: the choice of
-- the keys, and the encryption for them.
use affinidi_messaging.Common.{
  ℕ, ltb, String, Bool, true, false, not, List, [], ◌∷◌, map, length, find, kept, Option, none,
  some, as_bytes, ◌=ₛ◌, Result, ok, then_ok, ensure, if◌then◌else◌,
}
use affinidi_messaging.Didcomm.Error.{ErrorKind, ok_or, or_panic}
use affinidi_messaging.Didcomm.Keys.{
  Curve, KnownKeyAlg, same_alg, Params, VerificationMethod, Document, Secret, did_or_url,
}
use affinidi_messaging.Didcomm.Keys.Methods.{get_jwk, key_alg, as_curve}
use affinidi_messaging.Didcomm.Keys.Secrets.{secret_as_curve}
use affinidi_messaging.Didcomm.Wire.{AnonCryptAlg, Algorithm, EncAlgorithm}
use affinidi_messaging.Didcomm.Crypto.{Crates, ContentKey, Kdf}
use affinidi_messaging.Didcomm.Jwe.Encrypt.{Fresh, encrypt}

-- The types of content encryption that an algorithm stands for.
abbrev anon_encryption : AnonCryptAlg → ContentKey × EncAlgorithm
anon_encryption AnonCryptAlg.a256cbc_hs512_ecdh_es_a256kw =
    (ContentKey.a256cbc_hs512_key, EncAlgorithm.a256cbc_hs512)
anon_encryption AnonCryptAlg.xc20p_ecdh_es_a256kw = (ContentKey.xc20p_key, EncAlgorithm.xc20p)
anon_encryption AnonCryptAlg.a256gcm_ecdh_es_a256kw = (ContentKey.a256gcm_key, EncAlgorithm.a256gcm)

-- The curves that agree on keys.
abbrev pub agreement_curve : KnownKeyAlg → Option Curve
agreement_curve KnownKeyAlg.x25519 = some Curve.x25519
agreement_curve KnownKeyAlg.p256 = some Curve.p256
agreement_curve KnownKeyAlg.k256 = some Curve.k256
agreement_curve _ = none

abbrev supported : KnownKeyAlg → Bool
supported KnownKeyAlg.unsupported = false
supported _ = true

abbrev is_some_and : {A : Type 0} → (A → Bool) → Option A → Bool
is_some_and test none = false
is_some_and test (some a) = test a

abbrev pub no_kids : List String → Bool
no_kids [] = true
no_kids (k ∷ ks) = false

module _ {K : Type 0} (crates : Crates K) where
  -- The methods of the key ids.
  unfoldable pub methods_of :
      ErrorKind → List VerificationMethod → List String → Result ErrorKind (List VerificationMethod)
  methods_of e methods [] = ok []
  methods_of e methods (kid ∷ kids) =
      then_ok (ok_or e (find (λ vm. vm.id =ₛ kid) methods))
        λ vm. then_ok (methods_of e methods kids) λ vms. ok (vm ∷ vms)

  abbrev alg_of_jwk : Option Params → Option KnownKeyAlg
  alg_of_jwk none = none
  alg_of_jwk (some jwk) = some (key_alg crates.keys jwk)

  -- The algorithm of a method whose key can be read.
  abbrev pub vm_alg : VerificationMethod → Result ErrorKind (Option KnownKeyAlg)
  vm_alg vm = then_ok (get_jwk crates.keys vm) λ found. ok (alg_of_jwk found)

  abbrev or_next :
      Option KnownKeyAlg
      → Result ErrorKind (Option KnownKeyAlg)
      → Result ErrorKind (Option KnownKeyAlg)
  or_next none next = next
  or_next (some alg) next = if supported alg then ok (some alg) else next

  -- The first algorithm that is supported.
  unfoldable pub first_alg : List VerificationMethod → Result ErrorKind (Option KnownKeyAlg)
  unfolding key_alg get_jwk
  first_alg [] = ok none
  first_alg (vm ∷ vms) = then_ok (vm_alg vm) λ alg. or_next alg (first_alg vms)

  abbrev pub has_alg : KnownKeyAlg → Option KnownKeyAlg → Bool
  has_alg alg found = is_some_and (λ a. same_alg a alg) found

  -- The methods whose algorithm is this one.
  unfoldable pub keep_alg :
      KnownKeyAlg → List VerificationMethod → Result ErrorKind (List VerificationMethod)
  keep_alg alg [] = ok []
  keep_alg alg (vm ∷ vms) =
      then_ok (vm_alg vm)
        λ found. then_ok (keep_alg alg vms) λ rest. ok (kept (has_alg alg found) vm rest)

  -- Whether one of the methods has the algorithm.
  unfoldable pub any_alg : KnownKeyAlg → List VerificationMethod → Result ErrorKind Bool
  any_alg alg [] = ok false
  any_alg alg (vm ∷ vms) =
      then_ok (vm_alg vm) λ found. if has_alg alg found then ok true else any_alg alg vms

  abbrev pub shares_alg : Option KnownKeyAlg → List VerificationMethod → Result ErrorKind Bool
  shares_alg none to_keys = ok false
  shares_alg (some alg) to_keys = if supported alg then any_alg alg to_keys else ok false

  -- The first key of the sender that is supported and has the algorithm of a recipient's key.
  unfoldable pub find_from :
      List VerificationMethod
      → List VerificationMethod
      → Result ErrorKind (Option VerificationMethod)
  unfolding any_alg
  find_from to_keys [] = ok none
  find_from to_keys (vm ∷ vms) = then_ok (vm_alg vm) λ alg.
      then_ok (shares_alg alg to_keys)
        λ shared. if shared then ok (some vm) else find_from to_keys vms

  -- The keys of the methods, under their ids.
  unfoldable pub keys_of : Curve → List VerificationMethod → Result ErrorKind (List (String × K))
  keys_of curve [] = ok []
  keys_of curve (vm ∷ vms) = then_ok (get_jwk crates.keys vm) λ found.
      then_ok (ok_or ErrorKind.no_compatible_crypto found) λ jwk.
        then_ok (as_curve crates.keys curve jwk)
          λ key. then_ok (keys_of curve vms) λ keys. ok ((vm.id, key) ∷ keys)

  abbrev pub ids_of : List VerificationMethod → List String
  ids_of vms = map (λ vm. vm.id) vms

  abbrev pub anon_encrypt :
      AnonCryptAlg → Curve → List ℕ → List (String × K) → Fresh K → Result ErrorKind String
  anon_encrypt alg curve msg to_keys fresh =
      encrypt crates (anon_encryption alg).0 Kdf.ecdh_es curve msg Algorithm.ecdh_es_a256kw
        (anon_encryption alg).1 none to_keys fresh

  -- The methods of the recipient's keys, not more than the limit.
  unfoldable pub recipient_methods :
      ErrorKind → Document → Option String → ℕ → Result ErrorKind (List VerificationMethod)
  unfolding methods_of
  recipient_methods missing to_ddoc to_kid to_kids_limit =
      then_ok
        (ensure (not (no_kids (crates.resolvers.find_key_agreement to_ddoc to_kid)))
          ErrorKind.did_url_not_found)
        λ _.
          then_ok
            (ensure
              (not
                (ltb to_kids_limit (length (crates.resolvers.find_key_agreement to_ddoc to_kid))))
              ErrorKind.too_many_crypto_operations)
            λ _.
              methods_of missing to_ddoc.verification_method
                (crates.resolvers.find_key_agreement to_ddoc to_kid)

  -- What `anoncrypt` does with the recipient's methods: those of the first supported algorithm get
  -- the message.
  unfoldable pub anon_seal :
      List VerificationMethod
      → List ℕ
      → AnonCryptAlg
      → Fresh K
      → Result ErrorKind (String × List String)
  unfolding first_alg keep_alg keys_of encrypt
  anon_seal methods msg enc_alg_anon fresh = then_ok (first_alg methods) λ found.
      then_ok (ok_or ErrorKind.invalid_state found) λ alg. then_ok (keep_alg alg methods) λ to_keys.
        then_ok (ok_or ErrorKind.invalid_state (agreement_curve alg)) λ curve.
          then_ok (keys_of curve to_keys) λ keys.
            then_ok (anon_encrypt enc_alg_anon curve msg keys fresh)
              λ text. ok (text, ids_of to_keys)

  unfoldable pub anoncrypt :
      String → List ℕ → AnonCryptAlg → ℕ → Fresh K → Result ErrorKind (String × List String)
  unfolding did_or_url recipient_methods anon_seal
  anoncrypt to msg enc_alg_anon to_kids_limit fresh =
      then_ok (ok_or ErrorKind.did_not_resolved (crates.resolvers.resolve (did_or_url to).0)) λ doc.
        then_ok (recipient_methods ErrorKind.unsupported doc (did_or_url to).1 to_kids_limit)
          λ methods. anon_seal methods msg enc_alg_anon fresh

  -- The methods of the sender's keys whose secrets are at hand.
  unfoldable pub sender_methods :
      Document → Option String → Result ErrorKind (List VerificationMethod)
  unfolding methods_of
  sender_methods from_ddoc from_kid =
      then_ok
        (ensure (not (no_kids (crates.resolvers.find_key_agreement from_ddoc from_kid)))
          ErrorKind.did_url_not_found)
        λ _.
          then_ok
            (crates.resolvers.find_secrets (crates.resolvers.find_key_agreement from_ddoc from_kid))
            λ kids.
              then_ok (ensure (not (no_kids kids)) ErrorKind.secret_not_found)
                λ _. methods_of ErrorKind.malformed from_ddoc.verification_method kids

  -- With `protect_sender`, the encrypted message is encrypted again, without the sender.
  abbrev pub protect :
      Bool → AnonCryptAlg → Curve → List (String × K) → Fresh K → String → Result ErrorKind String
  protect true enc_alg_anon curve keys fresh msg =
      anon_encrypt enc_alg_anon curve (as_bytes msg) keys fresh
  protect false enc_alg_anon curve keys fresh msg = ok msg

  -- The encryption with the chosen keys.
  unfoldable pub seal_for :
      VerificationMethod
      → Secret
      → KnownKeyAlg
      → List VerificationMethod
      → List ℕ
      → AnonCryptAlg
      → Bool
      → Fresh K
      → Fresh K
      → Result ErrorKind (String × (String × List String))
  unfolding keys_of encrypt secret_as_curve as_bytes
  seal_for from_key secret alg to_keys msg enc_alg_anon protect_sender fresh fresh_outer =
      then_ok (ok_or ErrorKind.invalid_state (agreement_curve alg)) λ curve.
        then_ok (keys_of curve to_keys) λ keys.
          then_ok (secret_as_curve crates.keys curve secret) λ from_priv_key.
            then_ok
              (encrypt crates ContentKey.a256cbc_hs512_key Kdf.ecdh_1pu curve msg
                Algorithm.ecdh1pu_a256kw EncAlgorithm.a256cbc_hs512
                (some (from_key.id, from_priv_key)) keys fresh)
              λ sealed.
                then_ok (protect protect_sender enc_alg_anon curve keys fresh_outer sealed)
                  λ text. ok (text, (from_key.id, ids_of to_keys))

  -- What `authcrypt` does with the methods of both sides.
  unfoldable pub auth_seal :
      List VerificationMethod
      → List VerificationMethod
      → List ℕ
      → AnonCryptAlg
      → Bool
      → Fresh K
      → Fresh K
      → Result ErrorKind (String × (String × List String))
  unfolding find_from keep_alg seal_for
  auth_seal from_keys to_methods msg enc_alg_anon protect_sender fresh fresh_outer =
      then_ok (find_from to_methods from_keys) λ found.
        then_ok (ok_or ErrorKind.no_compatible_crypto found) λ from_key.
          then_ok (crates.resolvers.get_secret from_key.id) λ secret_found.
            then_ok (ok_or ErrorKind.invalid_state secret_found) λ secret.
              then_ok (vm_alg from_key) λ alg_found. then_ok (or_panic alg_found) λ alg.
                then_ok (keep_alg alg to_methods) λ to_keys.
                  seal_for from_key secret alg to_keys msg enc_alg_anon protect_sender fresh
                    fresh_outer

  unfoldable pub authcrypt :
      String
      → String
      → List ℕ
      → AnonCryptAlg
      → Bool
      → ℕ
      → Fresh K
      → Fresh K
      → Result ErrorKind (String × (String × List String))
  unfolding did_or_url sender_methods recipient_methods auth_seal
  authcrypt to from msg enc_alg_anon protect_sender to_kids_limit fresh fresh_outer =
      then_ok (ok_or ErrorKind.did_not_resolved (crates.resolvers.resolve (did_or_url to).0))
        λ to_ddoc.
          then_ok (ok_or ErrorKind.did_not_resolved (crates.resolvers.resolve (did_or_url from).0))
            λ from_ddoc. then_ok (sender_methods from_ddoc (did_or_url from).1) λ from_keys.
              then_ok
                (recipient_methods ErrorKind.malformed to_ddoc (did_or_url to).1 to_kids_limit)
                λ to_methods.
                  auth_seal from_keys to_methods msg enc_alg_anon protect_sender fresh fresh_outer
