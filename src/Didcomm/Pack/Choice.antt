-- ===== src/Didcomm/Pack/Choice.antt =====
-- affinidi-messaging-didcomm/src/message/pack_encrypted: which keys a message is encrypted for.
use affinidi_messaging.Didcomm.Pack.Methods.{
  IsMethodOf, find_from-holds, recipient_methods-IsMethodOf, sender_methods-IsMethodOf,
}
use affinidi_messaging.Common.{
  ℕ, suc, ◌≤◌, ltb, String, Bool, true, false, not, List, [], ◌∷◌, length, All, find, kept, Option,
  none, some, ◌≡◌, refl, sym, ap, ◌∙◌, arith, ◌=ₛ◌, subst, ok, then_ok-eq-ok, ok-injective, ensure,
}
use affinidi_messaging.Didcomm.Error.{ErrorKind, ok_or, or_panic, ensure-eq-ok, ok_or-eq-ok}
use affinidi_messaging.Didcomm.Keys.{KnownKeyAlg, VerificationMethod, Document, Secret, did_or_url}
use affinidi_messaging.Didcomm.Keys.Secrets.{secret_as_curve}
use affinidi_messaging.Didcomm.Wire.{AnonCryptAlg, Algorithm, EncAlgorithm}
use affinidi_messaging.Didcomm.Crypto.{Crates, ContentKey, Kdf}
use affinidi_messaging.Didcomm.Jwe.Encrypt.{Fresh, encrypt}
use affinidi_messaging.Didcomm.Pack.Encrypt.{
  has_alg, ids_of, no_kids, agreement_curve, methods_of, vm_alg, find_from, keys_of, protect,
  seal_for, sender_methods, keep_alg, recipient_methods, auth_seal, authcrypt,
}

module _ {K : Type 0} (crates : Crates K) where
  -- The key id is that of a method of the document, whose key has the algorithm.
  pub record Uses (doc : Document) (alg : KnownKeyAlg) (kid : String) : Type 0 where
    pub vm : VerificationMethod
    pub method : find (λ v. v.id =ₛ kid) doc.verification_method ≡ some vm
    pub has : vm_alg crates vm ≡ ok (some alg)

  has_alg-some :
      (alg : KnownKeyAlg) (found : Option KnownKeyAlg)
      → has_alg crates alg found ≡ true
      → found ≡ some alg
  has_alg-some alg none h = cc
  has_alg-some KnownKeyAlg.ed25519 (some KnownKeyAlg.ed25519) h = refl
  has_alg-some KnownKeyAlg.x25519 (some KnownKeyAlg.x25519) h = refl
  has_alg-some KnownKeyAlg.p256 (some KnownKeyAlg.p256) h = refl
  has_alg-some KnownKeyAlg.k256 (some KnownKeyAlg.k256) h = refl
  has_alg-some KnownKeyAlg.unsupported (some KnownKeyAlg.unsupported) h = refl
  has_alg-some _ (some _) h = cc

  -- All of the ids are those of keys with the algorithm, and there are not more than `n`.
  abbrev AllUse : Document → KnownKeyAlg → ℕ → List VerificationMethod → Type 0
  AllUse doc alg n vms = All (Uses doc alg) (ids_of crates vms) × (length (ids_of crates vms) ≤ n)

  kept-AllUse :
      (doc : Document) (alg : KnownKeyAlg) (vm : VerificationMethod) (found : Option KnownKeyAlg)
      (n : ℕ) (rest : List VerificationMethod) (b : Bool)
      → vm_alg crates vm ≡ ok found
      → IsMethodOf crates doc vm
      → has_alg crates alg found ≡ b
      → AllUse doc alg n rest
      → AllUse doc alg (suc n) (kept b vm rest)
  kept-AllUse doc alg vm found n rest true e of has (all, few) = (
    (record { vm = vm; method = of; has = e ∙ ap ok (has_alg-some alg found has) }, all),
    omega arith,
  )
  kept-AllUse doc alg vm found n rest false e of has (all, few) = (all, omega arith)

  keep_alg-AllUse :
      (doc : Document) (alg : KnownKeyAlg) (vms chosen : List VerificationMethod)
      → All (IsMethodOf crates doc) vms
      → keep_alg crates alg vms ≡ ok chosen
      → AllUse doc alg (length vms) chosen
  unfolding keep_alg
  keep_alg-AllUse doc alg [] chosen of h =
      subst (AllUse doc alg 0) (ok-injective [] chosen h) (tt, omega arith)
  keep_alg-AllUse doc alg (vm ∷ vms) chosen of h =
      let (found, e, h₁) = then_ok-eq-ok (vm_alg crates vm) _ h in
      let (rest, e₂, h₂) = then_ok-eq-ok (keep_alg crates alg vms) _ h₁ in
      subst (AllUse doc alg (length (vm ∷ vms))) (ok-injective _ chosen h₂) (
        kept-AllUse doc alg vm found (length vms) rest (has_alg crates alg found) e of.0 refl
          (keep_alg-AllUse doc alg vms rest of.1 e₂))

  methods_of-length :
      (e : ErrorKind) (methods : List VerificationMethod) (kids : List String)
      (vms : List VerificationMethod)
      → methods_of crates e methods kids ≡ ok vms
      → length vms ≡ length kids
  unfolding methods_of
  methods_of-length e methods [] vms h = ap length (sym (ok-injective [] vms h))
  methods_of-length e methods (kid ∷ kids) vms h =
      let (vm, e₁, h₁) = then_ok-eq-ok (ok_or e (find (λ v. v.id =ₛ kid) methods)) _ h in
      let (rest, e₂, h₂) = then_ok-eq-ok (methods_of crates e methods kids) _ h₁ in
      ap length (sym (ok-injective (vm ∷ rest) vms h₂))
      ∙ ap suc (methods_of-length e methods kids rest e₂)

  recipient_methods-length :
      (e : ErrorKind) (doc : Document) (kid : Option String) (limit : ℕ)
      (vms : List VerificationMethod)
      → recipient_methods crates e doc kid limit ≡ ok vms
      → length vms ≤ limit
  unfolding recipient_methods
  recipient_methods-length e doc kid limit vms h =
      let kids = crates.resolvers.find_key_agreement doc kid in
      let (u, some_kids, h₁) =
        then_ok-eq-ok (ensure (not (no_kids kids)) ErrorKind.did_url_not_found) _ h in
      let (u₂, few, h₂) =
        then_ok-eq-ok (ensure (not (ltb limit (length kids))) ErrorKind.too_many_crypto_operations)
          _ h₁ in
      bounded (length vms) (length kids) limit (methods_of-length e _ kids vms h₂)
        (ensure-eq-ok _ _ few)
    where
      bounded : (n m limit : ℕ) → n ≡ m → not (ltb limit m) ≡ true → n ≤ limit
      bounded n m limit e h = ground arith

  or_panic-eq-ok : {A : Type 0} (o : Option A) {a : A} → or_panic o ≡ ok a → o ≡ some a
  or_panic-eq-ok (some a) h = cc
  or_panic-eq-ok none h = cc

  -- The key ids of the sender and of the recipients, in an encrypted message for at most `n`.
  abbrev pub OneAlg : Document → Document → ℕ → String → List String → Type 0
  OneAlg from_doc to_doc n from_kid kids =
      (alg : KnownKeyAlg) × Uses from_doc alg from_kid
      × All (Uses to_doc alg) kids
      × (length kids ≤ n)

  seal_for-ids :
      (from_key : VerificationMethod) (secret : Secret) (alg : KnownKeyAlg)
      (to_keys : List VerificationMethod) (msg : List ℕ) (anon : AnonCryptAlg) (protected : Bool)
      (fresh fresh_outer : Fresh K) {text from_kid : String} {kids : List String}
      → seal_for crates from_key secret alg to_keys msg anon protected fresh fresh_outer
        ≡ ok (text, (from_kid, kids))
      → (from_key.id ≡ from_kid) × (ids_of crates to_keys ≡ kids)
  unfolding seal_for
  seal_for-ids from_key secret alg to_keys msg anon protected fresh fresh_outer h =
      let (curve, e₁, h₁) =
        then_ok-eq-ok (ok_or ErrorKind.invalid_state (agreement_curve alg)) _ h in
      let (keys, e₂, h₂) = then_ok-eq-ok (keys_of crates curve to_keys) _ h₁ in
      let (private, e₃, h₃) = then_ok-eq-ok (secret_as_curve crates.keys curve secret) _ h₂ in
      let (sealed, e₄, h₄) =
        then_ok-eq-ok
          (encrypt crates ContentKey.a256cbc_hs512_key Kdf.ecdh_1pu curve msg
            Algorithm.ecdh1pu_a256kw EncAlgorithm.a256cbc_hs512 (some (from_key.id, private)) keys
            fresh)
          _ h₃ in
      let (text', e₅, h₅) =
        then_ok-eq-ok (protect crates protected anon curve keys fresh_outer sealed) _ h₄ in
      let same = ok-injective (text', (from_key.id, ids_of crates to_keys)) _ h₅ in
      (ap (λ r. r.1.0) same, ap (λ r. r.1.1) same)

  auth_seal-OneAlg :
      (from_doc to_doc : Document) (from_keys to_methods : List VerificationMethod) (msg : List ℕ)
      (anon : AnonCryptAlg) (protect_sender : Bool) (fresh fresh_outer : Fresh K)
      (text from_kid : String) (kids : List String)
      → All (IsMethodOf crates from_doc) from_keys
      → All (IsMethodOf crates to_doc) to_methods
      → auth_seal crates from_keys to_methods msg anon protect_sender fresh fresh_outer
        ≡ ok (text, (from_kid, kids))
      → OneAlg from_doc to_doc (length to_methods) from_kid kids
  unfolding auth_seal
  auth_seal-OneAlg from_doc to_doc from_keys to_methods msg anon protect_sender fresh fresh_outer
        text from_kid kids from_of to_of h =
      let (found, e₁, h₁) = then_ok-eq-ok (find_from crates to_methods from_keys) _ h in
      let (from_key, e₂, h₂) = then_ok-eq-ok (ok_or ErrorKind.no_compatible_crypto found) _ h₁ in
      let (secret_found, e₃, h₃) = then_ok-eq-ok (crates.resolvers.get_secret from_key.id) _ h₂ in
      let (secret, e₄, h₄) = then_ok-eq-ok (ok_or ErrorKind.invalid_state secret_found) _ h₃ in
      let (alg_found, e₅, h₅) = then_ok-eq-ok (vm_alg crates from_key) _ h₄ in
      let (alg, e₆, h₆) = then_ok-eq-ok (or_panic alg_found) _ h₅ in
      let (to_keys, e₇, h₇) = then_ok-eq-ok (keep_alg crates alg to_methods) _ h₆ in
      let (all, few) = keep_alg-AllUse to_doc alg to_methods to_keys to_of e₇ in
      let (from_is, kids_are) =
        seal_for-ids from_key secret alg to_keys msg anon protect_sender fresh fresh_outer h₇ in
      subst (λ f. OneAlg from_doc to_doc (length to_methods) f kids) from_is
        (subst (OneAlg from_doc to_doc (length to_methods) from_key.id) kids_are (
          alg,
          record {
            vm = from_key;
            method =
                find_from-holds crates (IsMethodOf crates from_doc) to_methods from_keys from_key
                  from_of (e₁ ∙ ap ok (ok_or-eq-ok found _ e₂));
            has = e₅ ∙ ap ok (or_panic-eq-ok alg_found e₆);
          },
          all,
          few,
        ))

  -- Where a message is encrypted from a sender's key for a recipient, the sender's key id and all
  -- of the recipient's key ids that are reported are those of methods of their DIDs' documents whose
  -- keys have one and the same algorithm, and the recipient's are not more than the limit.
  pub authcrypt-OneAlg :
      (to from : String) (msg : List ℕ) (anon : AnonCryptAlg) (protect_sender : Bool) (limit : ℕ)
      (fresh fresh_outer : Fresh K) (text from_kid : String) (kids : List String)
      → authcrypt crates to from msg anon protect_sender limit fresh fresh_outer
        ≡ ok (text, (from_kid, kids))
      → (from_doc : Document) × (to_doc : Document) × (crates.resolvers.resolve (did_or_url from).0
          ≡ some from_doc)
        × (crates.resolvers.resolve (did_or_url to).0 ≡ some to_doc)
        × OneAlg from_doc to_doc limit from_kid kids
  unfolding authcrypt
  authcrypt-OneAlg to from msg anon protect_sender limit fresh fresh_outer text from_kid kids h =
      let (to_ddoc, e₁, h₁) =
        then_ok-eq-ok
          (ok_or ErrorKind.did_not_resolved (crates.resolvers.resolve (did_or_url to).0)) _ h in
      let (from_ddoc, e₂, h₂) =
        then_ok-eq-ok
          (ok_or ErrorKind.did_not_resolved (crates.resolvers.resolve (did_or_url from).0)) _ h₁ in
      let (from_keys, e₃, h₃) =
        then_ok-eq-ok (sender_methods crates from_ddoc (did_or_url from).1) _ h₂ in
      let (to_methods, e₄, h₄) =
        then_ok-eq-ok (recipient_methods crates ErrorKind.malformed to_ddoc (did_or_url to).1 limit)
          _ h₃ in
      let (alg, sender, all, few) =
        auth_seal-OneAlg from_ddoc to_ddoc from_keys to_methods msg anon protect_sender fresh
          fresh_outer text from_kid kids
          (sender_methods-IsMethodOf crates from_ddoc (did_or_url from).1 from_keys e₃)
          (recipient_methods-IsMethodOf crates ErrorKind.malformed to_ddoc (did_or_url to).1 limit
            to_methods e₄)
          h₄ in
      let within =
        recipient_methods-length ErrorKind.malformed to_ddoc (did_or_url to).1 limit to_methods
          e₄ in
      (from_ddoc, to_ddoc, ok_or-eq-ok _ _ e₂, ok_or-eq-ok _ _ e₁, (alg, sender, all, omega arith))
