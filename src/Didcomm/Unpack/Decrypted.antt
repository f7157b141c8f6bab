-- ===== src/Didcomm/Unpack/Decrypted.antt =====
-- affinidi-messaging-didcomm/src/message/unpack/anoncrypt.rs and jwe/decrypt.rs: the
-- keys that decrypt a layer of anonymous encryption.
use affinidi_messaging.Common.{
  ℕ, String, Bool, true, false, List, [], ◌∷◌, Option, none, some, ◌≡◌, refl, ap, ◌∙◌, sym, subst,
  ◌⊎◌, inl, inr, All, Some, Result, ok, then_ok-eq-ok, ok-injective, Bool-cases, if◌then◌else◌,
}
use affinidi_messaging.Common.Steps.{>>=-eq-ok_shut, lift-eq-ok, modify-eq}
use affinidi_messaging.Didcomm.Error.{ErrorKind, ensure-eq-ok, ok_or-eq-ok}
use affinidi_messaging.Didcomm.Keys.{Curve, KnownKeyPair}
use affinidi_messaging.Didcomm.Wire.{AnonCryptAlg, ParsedJwe}
use affinidi_messaging.Didcomm.Crypto.{Crates, ContentKey, Kdf}
use affinidi_messaging.Didcomm.Jwe.Decrypt.{decrypt, names_sender}
use affinidi_messaging.Didcomm.Envelope.{MetaEnvelope, Step}
use affinidi_messaging.Didcomm.Unpack.Steps.{
  UnpackOptions, agreement, anon_method, both, secret_pair, anon_decrypt, anon_loop,
}

both-eq-some :
    {A B : Type 0} (x : Option A) (y : Option B) {a : A} {b : B}
    → both x y ≡ some (a, b)
    → (x ≡ some a) × (y ≡ some b)
both-eq-some (some a) (some b) h = (cc, cc)
both-eq-some (some a) none h = cc
both-eq-some none y h = cc

names_sender-none :
    (K : Type 0) (apu : Option (List ℕ)) → names_sender {K = K} none apu ≡ true → apu ≡ none
names_sender-none K none h = refl
names_sender-none K (some apu) h = cc

module _ {K : Type 0} (crates : Crates K) (opts : UnpackOptions) where
  -- The bytes are what the secret of the key id decrypts, by a method that no sender takes part in.
  pub record Decrypts (jwe : ParsedJwe) (kid : String) (bytes : List ℕ) : Type 0 where
    pub pair : KnownKeyPair K
    pub curve : Curve
    pub key : K
    pub content : ContentKey
    pub alg : AnonCryptAlg
    pub secret : secret_pair crates opts kid ≡ ok pair
    pub agrees : agreement pair ≡ some (curve, key)
    pub method : anon_method jwe.protected.enc ≡ some (content, alg)
    pub opens : decrypt crates content Kdf.ecdh_es curve jwe none (kid, key) ≡ ok bytes
    pub anonymous : jwe.apu ≡ none

  decrypt-anonymous :
      (content : ContentKey) (curve : Curve) (jwe : ParsedJwe) (recipient : String × K)
      {bytes : List ℕ}
      → decrypt crates content Kdf.ecdh_es curve jwe none recipient ≡ ok bytes
      → jwe.apu ≡ none
  unfolding decrypt
  decrypt-anonymous content curve jwe recipient h =
      let (u, named, h₁) = then_ok-eq-ok _ _ h in
      names_sender-none K jwe.apu (ensure-eq-ok _ _ named)

  anon_decrypt-Decrypts :
      (jwe : ParsedJwe) (kid : String) (s s' : MetaEnvelope K) {bytes : List ℕ}
      → anon_decrypt crates opts jwe kid s ≡ (ok bytes, s')
      → Decrypts jwe kid bytes
  unfolding anon_decrypt
  anon_decrypt-Decrypts jwe kid s s' h =
      let (pair, secret, h₁) = lift-eq-ok _ _ s h in
      let (m, is_method, h₂) = lift-eq-ok _ _ s h₁ in
      let (agrees, method) = both-eq-some _ _ (ok_or-eq-ok _ _ is_method) in
      let opens = ap (λ q. q.0) (sym (modify-eq _ _ s) ∙ h₂) in
      record {
        pair = pair;
        curve = m.0.0;
        key = m.0.1;
        content = m.1.0;
        alg = m.1.1;
        secret = secret;
        agrees = agrees;
        method = method;
        opens = opens;
        anonymous = decrypt-anonymous m.1.0 m.0.0 jwe (kid, m.0.1) opens;
      }

  pub then_eq :
      {A : Type 0} (b : Bool) (m k : Step K A) (s : MetaEnvelope K)
      {r : Result ErrorKind A × MetaEnvelope K}
      → b ≡ true
      → (if b then m else k) s ≡ r
      → m s ≡ r
  then_eq true m k s t h = h
  then_eq false m k s t h = cc

  pub else_eq :
      {A : Type 0} (b : Bool) (m k : Step K A) (s : MetaEnvelope K)
      {r : Result ErrorKind A × MetaEnvelope K}
      → b ≡ false
      → (if b then m else k) s ≡ r
      → k s ≡ r
  else_eq true m k s f h = cc
  else_eq false m k s f h = h

  pub some-injective : (a b : List ℕ) → Path (Option (List ℕ)) (some a) (some b) → a ≡ b
  some-injective a b h = cc

  -- The bytes are what one of the keys decrypts.
  abbrev pub DecryptedBy : ParsedJwe → List String → List ℕ → Type 0
  DecryptedBy jwe kids bytes = Some (λ kid. Decrypts jwe kid bytes) kids

  abbrev pub DecryptedByAll : ParsedJwe → List String → Type 0
  DecryptedByAll jwe kids = All (λ kid. (bytes : List ℕ) × Decrypts jwe kid bytes) kids

  -- The loop returns what one of the keys decrypts, or what it was given.
  pub anon_loop-Some :
      (jwe : ParsedJwe) (kids : List String) (payload : Option (List ℕ)) (s s' : MetaEnvelope K)
      {bytes : List ℕ}
      → anon_loop crates opts jwe kids payload s ≡ (ok (some bytes), s')
      → DecryptedBy jwe kids bytes ⊎ (payload ≡ some bytes)
  unfolding anon_loop
  anon_loop-Some jwe [] payload s s' h = inr (ok-injective _ _ (ap (λ q. q.0) h))
  anon_loop-Some jwe (kid ∷ kids) payload s s' {bytes} h =
      let (found, s₁, e, h₁) = >>=-eq-ok_shut _ _ s h in
      elim (Bool-cases opts.expect_decrypt_by_all_keys) [
        | inl t ↦ inl (
            either found s s₁ e
              (anon_loop-Some jwe kids (some found) s₁ s' (then_eq _ _ _ s₁ t h₁)))
        | inr f ↦
            inl
              (either found s s₁ e (inr (ok-injective _ _ (ap (λ q. q.0) (else_eq _ _ _ s₁ f h₁)))))
      ]
    where
      either :
          (found : List ℕ) (s s₁ : MetaEnvelope K)
          → anon_decrypt crates opts jwe kid s ≡ (ok found, s₁)
          → Some (λ k. Decrypts jwe k bytes) kids ⊎ Path (Option (List ℕ)) (some found) (some bytes)
          → Some (λ k. Decrypts jwe k bytes) (kid ∷ kids)
      either found s s₁ e (inl later) = inr later
      either found s s₁ e (inr same) = inl (
          subst (Decrypts jwe kid) (some-injective _ _ same) (anon_decrypt-Decrypts jwe kid s s₁ e))

  pub anon_loop-All :
      (jwe : ParsedJwe) (kids : List String) (payload : Option (List ℕ)) (s s' : MetaEnvelope K)
      {result : Option (List ℕ)}
      → opts.expect_decrypt_by_all_keys ≡ true
      → anon_loop crates opts jwe kids payload s ≡ (ok result, s')
      → DecryptedByAll jwe kids
  unfolding anon_loop
  anon_loop-All jwe [] payload s s' t h = tt
  anon_loop-All jwe (kid ∷ kids) payload s s' t h =
      let (found, s₁, e, h₁) = >>=-eq-ok_shut _ _ s h in
      (
        (found, anon_decrypt-Decrypts jwe kid s s₁ e),
        anon_loop-All jwe kids (some found) s₁ s' t (then_eq _ _ _ s₁ t h₁),
      )
