-- ===== src/Didcomm/Pack/Prior.antt =====
-- affinidi-messaging-didcomm/src/message/pack_plaintext.rs: the change of DID that a sender's own
-- message may carry.
use affinidi_messaging.Common.{
  String, Bool, true, false, not, ◌&&◌, Option, none, some, ◌≡◌, refl, sym, ap, ◌∙◌, ◌=ₛ◌, ok,
  then_ok-eq-ok, ensure,
}
use affinidi_messaging.Didcomm.Error.{ErrorKind, ensure-eq-ok}
use affinidi_messaging.Didcomm.Message.{Message}
use affinidi_messaging.Didcomm.Keys.{did_or_url, is_did, is_url}
use affinidi_messaging.Didcomm.Wire.{FromPrior}
use affinidi_messaging.Didcomm.Crypto.{Crates}
use affinidi_messaging.Didcomm.FromPrior.{unpack_from_prior, validate_pack, issuer_matches}
use affinidi_messaging.Didcomm.FromPrior.Verified.{IsVerified, unpack_from_prior-IsVerified}
use affinidi_messaging.Didcomm.Pack.{sub_matches, check_prior, pack_plaintext}

-- The statement is about two DIDs that differ, the key id that signed it is a URL of the first, and
-- the second is the sender where the message names one.
pub record IsSound (prior : FromPrior) (kid : String) (from : Option String) : Type 0 where
  pub iss_did : is_did prior.iss ≡ true
  pub sub_did : is_did prior.sub ≡ true
  pub differ : (prior.iss =ₛ prior.sub) ≡ false
  pub url : is_url kid ≡ true
  pub issuer : ((did_or_url kid).0 =ₛ prior.iss) ≡ true
  pub subject : (f : String) → from ≡ some f → (prior.sub =ₛ f) ≡ true

left_of : (a b : Bool) → (a && b) ≡ true → a ≡ true
left_of true b h = refl
left_of false b h = cc

false_of : (b : Bool) → not b ≡ true → b ≡ false
false_of true h = cc
false_of false h = refl

issuer_matches-eq-ok :
    (iss kid : String) {u : Unit {0}}
    → issuer_matches iss (some kid) ≡ ok u
    → (is_url kid ≡ true) × (((did_or_url kid).0 =ₛ iss) ≡ true)
issuer_matches-eq-ok iss kid h =
    let (u, url, h₁) = then_ok-eq-ok (ensure (is_url kid) ErrorKind.illegal_argument) _ h in
    (ensure-eq-ok _ _ url, ensure-eq-ok ((did_or_url kid).0 =ₛ iss) _ h₁)

sub_matches-some :
    (sub : String) (from : Option String)
    → sub_matches sub from ≡ true
    → (f : String) → from ≡ some f
    → (sub =ₛ f) ≡ true
sub_matches-some sub (some g) h f e = cc
sub_matches-some sub none h f e = cc

validate_pack-IsSound :
    (prior : FromPrior) (kid : String) (from : Option String) {u : Unit {0}}
    → validate_pack prior (some kid) ≡ ok u
    → sub_matches prior.sub from ≡ true
    → IsSound prior kid from
unfolding validate_pack
validate_pack-IsSound prior kid from h same =
    let (u₁, iss, h₁) =
      then_ok-eq-ok (ensure (is_did prior.iss && not (is_url prior.iss)) ErrorKind.malformed) _ h in
    let (u₂, sub, h₂) =
      then_ok-eq-ok (ensure (is_did prior.sub && not (is_url prior.sub)) ErrorKind.malformed) _
        h₁ in
    let (u₃, other, h₃) =
      then_ok-eq-ok (ensure (not (prior.iss =ₛ prior.sub)) ErrorKind.malformed) _ h₂ in
    let (url, issuer) = issuer_matches-eq-ok prior.iss kid h₃ in
    record {
      iss_did = left_of _ _ (ensure-eq-ok _ _ iss);
      sub_did = left_of _ _ (ensure-eq-ok _ _ sub);
      differ = false_of _ (ensure-eq-ok _ _ other);
      url = url;
      issuer = issuer;
      subject = sub_matches-some prior.sub from same;
    }

module _ {K : Type 0} (crates : Crates K) where
  check_prior-IsSound :
      (jwt : String) (from : Option String) {u : Unit {0}}
      → check_prior crates (some jwt) from ≡ ok u
      → (prior : FromPrior) × (kid : String) × IsVerified crates jwt prior kid
        × IsSound prior kid from
  check_prior-IsSound jwt from h =
      let (unpacked, e, h₁) = then_ok-eq-ok (unpack_from_prior crates jwt) _ h in
      let (u, valid, h₂) = then_ok-eq-ok (validate_pack unpacked.0 (some unpacked.1)) _ h₁ in
      (
        unpacked.0,
        unpacked.1,
        unpack_from_prior-IsVerified crates jwt unpacked.0 unpacked.1 e,
        validate_pack-IsSound unpacked.0 unpacked.1 from valid (ensure-eq-ok _ _ h₂),
      )

  -- A message that is packed as plaintext and carries a change of DID carries a token whose
  -- signature is valid under its key id, for a key that the document of the id's DID lists for
  -- authentication. The statement in the token is about two different DIDs, the key id is a URL of
  -- the first, the issuer, and the second is the sender, where the message names one.
  pub pack_plaintext-IsSound :
      (m : Message) (jwt text : String)
      → m.from_prior ≡ some jwt
      → pack_plaintext crates m ≡ ok text
      → (prior : FromPrior) × (kid : String) × IsVerified crates jwt prior kid
        × IsSound prior kid m.from
  unfolding pack_plaintext
  pack_plaintext-IsSound m jwt text carries h =
      let (u, checked, h₁) = then_ok-eq-ok (check_prior crates m.from_prior m.from) _ h in
      check_prior-IsSound jwt m.from (ap (λ p. check_prior crates p m.from) (sym carries) ∙ checked)
