-- ===== src/Didcomm/Unpack/Sender.antt =====
-- affinidi-messaging-didcomm/src/message/unpack/authcrypt.rs and `fill_envelope_from` of
-- jwe/parse.rs: the sender of a layer of authenticated encryption.
use affinidi_messaging.Common.{
  ℕ, ◌+◌, String, true, List, [], ◌∷◌, Option, none, some, ◌≡◌, ap, ◌∙◌, sym, subst, ◌⊎◌, inl, inr,
  ok, then_ok-eq-ok, ok-injective, Bool-cases,
}
use affinidi_messaging.Common.Steps.{
  modify, >>=-eq-ok_shut, lift-eq-ok, reading-eq-ok, modify-eq, Keeps, keeping,
}
use affinidi_messaging.Didcomm.Error.{or_panic, ensure-eq-ok, ok_or-eq-ok}
use affinidi_messaging.Didcomm.Keys.{
  Curve, KnownKeyPair, VerificationMethod, Document, did_or_url, is_url,
}
use affinidi_messaging.Didcomm.Wire.{ParsedJwe}
use affinidi_messaging.Didcomm.Crypto.{Crates, ContentKey, Kdf}
use affinidi_messaging.Didcomm.Jwe.Decrypt.{decrypt, names_sender}
use affinidi_messaging.Didcomm.Envelope.{
  MetaEnvelope, pair_of_method, fill_sender, sender_or_anonymous, fill_recipients,
  fill_envelope_from,
}
use affinidi_messaging.Didcomm.Unpack.Steps.{
  UnpackOptions, auth_method, secret_pair, auth_decrypt, auth_loop,
}
use affinidi_messaging.Didcomm.Unpack.Decrypted.{then_eq, else_eq, some-injective}

or_panic-eq-ok : {A : Type 0} (x : Option A) {a : A} → or_panic x ≡ ok a → x ≡ some a
or_panic-eq-ok (some x) h = cc
or_panic-eq-ok none h = cc

module _ {K : Type 0} (crates : Crates K) where
  -- The key id is a URL, whose DID has a document that lists it for key agreement and has a method
  -- with the key.
  pub record IsSender (kid : String) (pair : KnownKeyPair K) : Type 0 where
    pub doc : Document
    pub vm : VerificationMethod
    pub url : is_url kid ≡ true
    pub resolved : crates.resolvers.resolve (did_or_url kid).0 ≡ some doc
    pub listed : crates.resolvers.contains_key_agreement doc kid ≡ true
    pub method : crates.resolvers.get_verification_method doc kid ≡ some vm
    pub published : pair_of_method crates vm ≡ ok pair

  pub record IsKnown (from_kid : Option String) (from_key : Option (KnownKeyPair K)) : Type 0 where
    pub kid : String
    pub pair : KnownKeyPair K
    pub has_kid : from_kid ≡ some kid
    pub has_key : from_key ≡ some pair
    pub sender : IsSender kid pair

  abbrev pub KnownSender : MetaEnvelope K → Type 0
  KnownSender s = IsKnown s.from_kid s.from_key

  fill_sender-Known :
      (apu : List ℕ) (s s' : MetaEnvelope K) {u : Unit {0}}
      → fill_sender crates apu s ≡ (ok u, s')
      → KnownSender s'
  unfolding fill_sender modify
  fill_sender-Known apu s s' h =
      let (kid, is_text, h₁) = lift-eq-ok _ _ s h in
      let (u₁, url, h₂) = lift-eq-ok _ _ s h₁ in
      let (doc, resolved, h₃) = lift-eq-ok _ _ _ (sym (modify-eq _ _ s) ∙ h₂) in
      let (u₂, listed, h₄) = lift-eq-ok _ _ _ (sym (modify-eq _ _ _) ∙ h₃) in
      let (vm, method, h₅) = lift-eq-ok _ _ _ (sym (modify-eq _ _ _) ∙ h₄) in
      let (pair, published, h₆) = lift-eq-ok _ _ _ h₅ in
      let end = sym (modify-eq _ _ _) ∙ h₆ in
      record {
        kid = kid;
        pair = pair;
        has_kid = ap (λ q. q.1.from_kid) (sym end);
        has_key = ap (λ q. q.1.from_key) (sym end);
        sender = record {
          doc = doc;
          vm = vm;
          url = ensure-eq-ok _ _ url;
          resolved = ok_or-eq-ok _ _ resolved;
          listed = ensure-eq-ok _ _ listed;
          method = ok_or-eq-ok _ _ method;
          published = published;
        };
      }

  fill_recipients-Keeps : (kids : List String) → Keeps KnownSender (fill_recipients crates kids)
  unfolding fill_recipients
  fill_recipients-Keeps kids = search keeping depth 9

  -- What `fill_envelope_from` makes of a JWE that names its sender.
  pub fill-Known :
      (jwe : ParsedJwe) (apu : List ℕ) (s s' : MetaEnvelope K) {u : Unit {0}}
      → jwe.apu ≡ some apu
      → fill_envelope_from crates jwe s ≡ (ok u, s')
      → KnownSender s'
  unfolding fill_envelope_from
  fill-Known jwe apu s s' e h =
      let (u₁, s₁, e₁, h₁) = >>=-eq-ok_shut _ _ s h in
      subst KnownSender (ap (λ q. q.1) h₁) (
        (fill_recipients-Keeps jwe.to_kids).holds s₁ (
          fill_sender-Known apu s s₁
            (subst (λ a. sender_or_anonymous crates a s ≡ (ok u₁, s₁)) e e₁)))

  module _ (opts : UnpackOptions) where
    -- The bytes are what the secret of a key id decrypts with the sender's key, and the agreement
    -- info is the sender's key id.
    pub record Opens (jwe : ParsedJwe) (from_kid : String) (from_pair : KnownKeyPair K)
        (to_kid : String) (bytes : List ℕ) : Type 0 where
      pub to_pair : KnownKeyPair K
      pub curve : Curve
      pub from_key : K
      pub to_key : K
      pub secret : secret_pair crates opts to_kid ≡ ok to_pair
      pub method : auth_method from_pair to_pair jwe.protected.enc ≡ ok (curve, (from_key, to_key))
      pub opens :
          decrypt crates ContentKey.a256cbc_hs512_key Kdf.ecdh_1pu curve jwe
            (some (from_kid, from_key))
            (to_kid, to_key)
          ≡ ok bytes
      pub named : names_sender (some (from_kid, from_key)) jwe.apu ≡ true

    -- They are so with the sender that an envelope has.
    abbrev pub OpensBy :
        ParsedJwe → Option String → Option (KnownKeyPair K) → String → List ℕ → Type 0
    OpensBy jwe from_kid from_key to_kid bytes =
        (kid : String) × (pair : KnownKeyPair K) × (from_kid ≡ some kid)
        × (from_key ≡ some pair)
        × Opens jwe kid pair to_kid bytes

    decrypt-named :
        (curve : Curve) (jwe : ParsedJwe) (sender recipient : String × K) {bytes : List ℕ}
        → decrypt crates ContentKey.a256cbc_hs512_key Kdf.ecdh_1pu curve jwe (some sender) recipient
          ≡ ok bytes
        → names_sender (some sender) jwe.apu ≡ true
    unfolding decrypt
    decrypt-named curve jwe sender recipient h =
        let (u, named, h₁) = then_ok-eq-ok _ _ h in ensure-eq-ok _ _ named

    -- A key that decrypts does so with the sender that the envelope has.
    auth_decrypt-Opens :
        (jwe : ParsedJwe) (to_kid : String) (s s' : MetaEnvelope K) {bytes : List ℕ}
        → auth_decrypt crates opts jwe to_kid s ≡ (ok bytes, s')
        → OpensBy jwe s.from_kid s.from_key to_kid bytes
    unfolding auth_decrypt
    auth_decrypt-Opens jwe to_kid s s' h =
        let (to_pair, secret, h₁) = lift-eq-ok _ _ s h in
        let (pair, has_pair, h₂) = reading-eq-ok _ _ s h₁ in
        let (m, method, h₃) = lift-eq-ok _ _ s h₂ in
        let (kid, has_kid, h₄) = reading-eq-ok _ _ _ (sym (modify-eq _ _ s) ∙ h₃) in
        let opens = ap (λ q. q.0) h₄ in
        (
          kid,
          pair,
          or_panic-eq-ok _ has_kid,
          or_panic-eq-ok _ has_pair,
          record {
            to_pair = to_pair;
            curve = m.0;
            from_key = m.1.0;
            to_key = m.1.1;
            secret = secret;
            method = method;
            opens = opens;
            named = decrypt-named m.0 jwe (kid, m.1.0) (to_kid, m.1.1) opens;
          },
        )

    -- The state has the sender.
    abbrev pub Has : Option String → Option (KnownKeyPair K) → MetaEnvelope K → Type 0
    Has from_kid from_key s = (s.from_kid ≡ from_kid) × (s.from_key ≡ from_key)

    auth_decrypt-Keeps :
        (jwe : ParsedJwe) (to_kid : String) (fk : Option String) (fp : Option (KnownKeyPair K))
        → Keeps (Has fk fp) (auth_decrypt crates opts jwe to_kid)
    unfolding auth_decrypt
    auth_decrypt-Keeps jwe to_kid fk fp = search keeping depth 9

    moved :
        (jwe : ParsedJwe) (to_kid : String) {a fk : Option String} {b fp : Option (KnownKeyPair K)}
        {bytes : List ℕ}
        → a ≡ fk
        → b ≡ fp
        → OpensBy jwe a b to_kid bytes
        → OpensBy jwe fk fp to_kid bytes
    moved jwe to_kid {a} {fk} {b} {fp} {bytes} e₁ e₂ o =
        subst (λ k. OpensBy jwe k fp to_kid bytes) e₁
          (subst (λ p. OpensBy jwe a p to_kid bytes) e₂ o)

    pub auth_loop-Opens :
        (jwe : ParsedJwe) (count : ℕ) (kids : List String) (payload : Option (List ℕ))
        (s s' : MetaEnvelope K) (fk : Option String) (fp : Option (KnownKeyPair K)) {bytes : List ℕ}
        → Has fk fp s
        → auth_loop crates opts jwe count kids payload s ≡ (ok (some bytes), s')
        → ((to_kid : String) × OpensBy jwe fk fp to_kid bytes) ⊎ (payload ≡ some bytes)
    unfolding auth_loop
    auth_loop-Opens jwe count [] payload s s' fk fp has h = inr (ok-injective _ _ (ap (λ q. q.0) h))
    auth_loop-Opens jwe count (kid ∷ kids) payload s s' fk fp {bytes} has h =
        let (u, within, h₀) = lift-eq-ok _ _ s h in
        let (found, s₁, e, h₁) = >>=-eq-ok_shut _ _ s h₀ in
        let has₁ =
          subst (Has fk fp) (ap (λ q. q.1) e) ((auth_decrypt-Keeps jwe kid fk fp).holds s has) in
        let here = moved jwe kid has.0 has.1 (auth_decrypt-Opens jwe kid s s₁ e) in
        elim (Bool-cases opts.expect_decrypt_by_all_keys) [
          | inl t ↦ inl (
              either found here (
                auth_loop-Opens jwe (count + 1) kids (some found) s₁ s' fk fp has₁
                  (then_eq crates opts _ _ _ s₁ t h₁)))
          | inr f ↦ inl (
              either found here
                (inr (ok-injective _ _ (ap (λ q. q.0) (else_eq crates opts _ _ _ s₁ f h₁)))))
        ]
      where
        either :
            (found : List ℕ)
            → OpensBy jwe fk fp kid found
            → ((to_kid : String) × OpensBy jwe fk fp to_kid bytes)
              ⊎ Path (Option (List ℕ)) (some found) (some bytes)
            → (to_kid : String) × OpensBy jwe fk fp to_kid bytes
        either found here (inl later) = later
        either found here (inr same) =
            (kid, subst (OpensBy jwe fk fp kid) (some-injective crates opts _ _ same) here)
