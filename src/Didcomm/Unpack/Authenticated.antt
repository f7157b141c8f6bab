-- ===== src/Didcomm/Unpack/Authenticated.antt =====
-- affinidi-messaging-didcomm/src/message/unpack/authcrypt.rs: the layer of authenticated encryption
-- that is taken off.
use affinidi_messaging.Didcomm.Unpack.Sender.{
  IsSender, KnownSender, fill-Known, Opens, OpensBy, auth_loop-Opens,
}
use affinidi_messaging.Common.{
  ℕ, String, List, Option, none, some, from_utf8, ◌≡◌, refl, ap, ◌∙◌, sym, subst, ◌⊎◌, inl, inr, ok,
}
use affinidi_messaging.Common.Steps.{>>=-eq-ok_shut, reading-eq-ok}
use affinidi_messaging.Didcomm.Keys.{KnownKeyPair}
use affinidi_messaging.Didcomm.Wire.{Algorithm, ParsedJwe, ParsedEnvelope}
use affinidi_messaging.Didcomm.Crypto.{Crates}
use affinidi_messaging.Didcomm.Envelope.{MetaEnvelope, Step, open_envelope}
use affinidi_messaging.Didcomm.Unpack.Steps.{
  UnpackOptions, auth_loop, refill, auth_jwe, if_auth, try_unpack_authcrypt,
}
use affinidi_messaging.Didcomm.Unpack.Opened.{reopen-eq-ok}

module _ {K : Type 0} (crates : Crates K) where
  -- The envelope has no sender yet, or one whose key is published.
  abbrev pub IsReady : MetaEnvelope K → Type 0
  IsReady s = (s.from_kid ≡ none) ⊎ KnownSender crates s

  none-ne-some : {A : Type 0} {a : A} → Path (Option A) none (some a) → ⊥
  none-ne-some h = cc

  some_eq : {A : Type 0} (a b : A) → Path (Option A) (some a) (some b) → a ≡ b
  some_eq a b h = cc

  module _ (opts : UnpackOptions) where
    refill-IsReady :
        (jwe : ParsedJwe) (apu : Option (List ℕ)) (from_kid : Option String) (s s' : MetaEnvelope K)
        {u : Unit {0}}
        → jwe.apu ≡ apu
        → IsReady s
        → refill crates opts jwe apu from_kid s ≡ (ok u, s')
        → IsReady s'
    refill-IsReady jwe (some apu) none s s' e r h = inr (fill-Known crates jwe apu s s' e h)
    refill-IsReady jwe (some apu) (some kid) s s' e r h = subst IsReady (ap (λ q. q.1) h) r
    refill-IsReady jwe none from_kid s s' e r h = subst IsReady (ap (λ q. q.1) h) r

    -- What opens with the sender of a ready envelope opens with a published key.
    sender_of :
        (jwe : ParsedJwe) (s : MetaEnvelope K) (to_kid : String) (bytes : List ℕ)
        → IsReady s
        → OpensBy crates opts jwe s.from_kid s.from_key to_kid bytes
        → (kid : String) × (pair : KnownKeyPair K) × IsSender crates kid pair
          × Opens crates opts jwe kid pair to_kid bytes
    sender_of jwe s to_kid bytes (inl n) (kid, pair, e₁, e₂, o) = absurd (none-ne-some (sym n ∙ e₁))
    sender_of jwe s to_kid bytes (inr k) (kid, pair, e₁, e₂, o) = (
      kid,
      pair,
      subst (λ p. IsSender crates kid p) (some_eq _ _ (sym k.has_key ∙ e₂))
          (subst (λ i. IsSender crates i k.pair) (some_eq _ _ (sym k.has_kid ∙ e₁)) k.sender),
      o,
    )

    -- The envelope is read from the text that a secret of ours decrypts with the sender's key, and
    -- this key is published for the key id that the JWE names as its sender.
    pub record IsAuthenticated (jwe : ParsedJwe) (e : ParsedEnvelope) : Type 0 where
      pub kid : String
      pub pair : KnownKeyPair K
      pub to_kid : String
      pub bytes : List ℕ
      pub text : String
      pub sender : IsSender crates kid pair
      pub decrypted : Opens crates opts jwe kid pair to_kid bytes
      pub is_text : from_utf8 bytes ≡ some text
      pub envelope : open_envelope crates text ≡ ok e

    or_none : {P : Type 0} (bytes : List ℕ) → P ⊎ Path (Option (List ℕ)) none (some bytes) → P
    or_none bytes (inl p) = p
    or_none bytes (inr h) = absurd (none-ne-some h)

    auth_jwe-IsAuthenticated :
        (jwe : ParsedJwe) (count : ℕ) (s s' : MetaEnvelope K) {e : ParsedEnvelope}
        → IsReady s
        → auth_jwe crates opts jwe count s ≡ (ok (some e), s')
        → IsAuthenticated jwe e
    unfolding auth_jwe
    auth_jwe-IsAuthenticated jwe count s s' r h =
        let (from_kid, e₀, h₀) = reading-eq-ok _ _ s h in
        let (u, s₁, e₁, h₁) = >>=-eq-ok_shut _ _ s h₀ in
        let (kids, e₂, h₂) = reading-eq-ok _ _ s₁ h₁ in
        let (payload, s₂, e₃, h₃) = >>=-eq-ok_shut _ _ s₁ h₂ in
        let (bytes, text, is_payload, is_text, envelope) =
          reopen-eq-ok crates opts payload (ap (λ q. q.0) h₃) in
        let loop =
          subst (λ p. auth_loop crates opts jwe count kids none s₁ ≡ (ok p, s₂)) is_payload e₃ in
        let (to_kid, by) = or_none bytes (
          auth_loop-Opens crates opts jwe count kids none s₁ s₂ s₁.from_kid s₁.from_key (refl, refl)
            loop) in
        let (kid, pair, sender, decrypted) =
          sender_of jwe s₁ to_kid bytes (refill-IsReady jwe jwe.apu from_kid s s₁ refl r e₁) by in
        record {
          kid = kid;
          pair = pair;
          to_kid = to_kid;
          bytes = bytes;
          text = text;
          sender = sender;
          decrypted = decrypted;
          is_text = is_text;
          envelope = envelope;
        }

    if_auth-eq-ok :
        (alg : Algorithm) (step : Step K (Option ParsedEnvelope)) (s s' : MetaEnvelope K)
        {e : ParsedEnvelope}
        → if_auth crates opts alg step s ≡ (ok (some e), s')
        → (alg ≡ Algorithm.ecdh1pu_a256kw) × (step s ≡ (ok (some e), s'))
    if_auth-eq-ok Algorithm.ecdh1pu_a256kw step s s' h = (refl, h)
    if_auth-eq-ok Algorithm.ecdh_es_a256kw step s s' h = cc
    if_auth-eq-ok (Algorithm.other x) step s s' h = cc

    -- Where the layer of authenticated encryption of a JWE is taken off an envelope that has no
    -- sender yet, or one whose key is published, the algorithm of the JWE is that of authenticated
    -- encryption, and the new envelope is read from the text that a secret of ours decrypts with
    -- the key that the document of the sender's DID publishes for key agreement under the key id
    -- that the JWE names as its sender.
    pub try_unpack_authcrypt-IsAuthenticated :
        (jwe : ParsedJwe) (count : ℕ) (e : ParsedEnvelope) (s s' : MetaEnvelope K)
        → IsReady s
        → try_unpack_authcrypt crates opts (ParsedEnvelope.jwe jwe) count s ≡ (ok (some e), s')
        → (jwe.protected.alg ≡ Algorithm.ecdh1pu_a256kw) × IsAuthenticated jwe e
    unfolding try_unpack_authcrypt
    try_unpack_authcrypt-IsAuthenticated jwe count e s s' r h =
        let (alg, h₁) = if_auth-eq-ok jwe.protected.alg (auth_jwe crates opts jwe count) s s' h in
        (alg, auth_jwe-IsAuthenticated jwe count s s' r h₁)
