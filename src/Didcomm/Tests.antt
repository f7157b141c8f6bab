-- ===== src/Didcomm/Tests.antt =====
-- Concrete runs of the packing and the unpacking of messages.
use affinidi_messaging.Common.{as_bytes, inl}
use affinidi_messaging.Common.{panic, List, ◌≢◌}
use affinidi_messaging.Common.{ℕ, String, true, [], ◌∷◌, Option, none, some, ◌≡◌, refl, ok}
use affinidi_messaging.Common.{split_once, decode_from, split}
use affinidi_messaging.Common.Steps.{◌>>=◌, modify}
use affinidi_messaging.Didcomm.Jws
use affinidi_messaging.Didcomm.Jws.{sig_type}
use affinidi_messaging.Json.{Value, null, string, get}
use affinidi_messaging.Didcomm.Keys.{Document, Curve, did_or_url}
use affinidi_messaging.Didcomm.Keys.Methods.{get_jwk, key_alg, as_curve, as_key_pair}
use affinidi_messaging.Didcomm.Keys.Secrets.{secret_as_key_pair}
use affinidi_messaging.Didcomm.Crypto.{derive_key, wrap_key, unwrap_key}
use affinidi_messaging.Didcomm.Wire.{Algorithm, EncAlgorithm, ParsedJwe}
use affinidi_messaging.Didcomm.Wire.{
  JwsAlgorithm, AnonCryptAlg, SignAlg, Jws, FromPrior, ParsedEnvelope,
}
use affinidi_messaging.Didcomm.Envelope.{fill_envelope_from}
use affinidi_messaging.Didcomm.Envelope.{
  UnpackMetadata, MetaEnvelope, default_metadata, default_envelope, open_envelope, parse_envelope,
  verify_didcomm,
}
use affinidi_messaging.Didcomm.Jws.RoundTrip.{Reads, signed_jws-Reads}
use affinidi_messaging.Didcomm.Jws.Sign.{signed_jws}
use affinidi_messaging.Didcomm.Jwe.Encrypt.{Fresh}
use affinidi_messaging.Didcomm.Pack.{pack_plaintext}
use affinidi_messaging.Didcomm.Pack.Encrypt.{authcrypt}
use affinidi_messaging.Didcomm.Pack.Choice.{OneAlg, authcrypt-OneAlg}
use affinidi_messaging.Didcomm.Pack.Prior.{IsSound, pack_plaintext-IsSound}
use affinidi_messaging.Didcomm.FromPrior.Verified.{IsVerified}
use affinidi_messaging.Didcomm.Routing.Services.{
  DidcommMessagingService, ServiceSerde, Found, resolve_did_comm_services_chain,
}
use affinidi_messaging.Didcomm.Routing.Services.Chain.{
  IsChain, resolve_did_comm_services_chain-IsChain,
}
use affinidi_messaging.Didcomm.Unpack.{unpack_string, unpack_loop}
use affinidi_messaging.Didcomm.Unpack.Steps.{UnpackOptions, default_options, try_unpack_anoncrypt}
use affinidi_messaging.Didcomm.Unpack.Steps.{try_unpack_authcrypt}
use affinidi_messaging.Didcomm.Unpack.Authenticated.{
  IsAuthenticated, try_unpack_authcrypt-IsAuthenticated,
}
use affinidi_messaging.Didcomm.Unpack.Opened.{IsOpened, IsMarked, try_unpack_anoncrypt-IsOpened}
use affinidi_messaging.Didcomm.Unpack.NonRepudiation.{IsSigned}
use affinidi_messaging.Didcomm.Unpack.Signed.{unpack_string-IsSigned}
use affinidi_messaging.Didcomm.Unpack.Limit.{EndsWithin, unpack_loop_ends}
use affinidi_messaging.Didcomm.Toy.{
  crates, unary_crates, plain, moved, signed, signer_kid, agreement_kid, resolvers, decodes, reads,
  verifies, unary_encode,
}

abbrev signed_metadata : UnpackMetadata
signed_metadata = record default_metadata {
  authenticated = true;
  non_repudiation = true;
  sign_from = some signer_kid;
  sign_alg = some SignAlg.ed_dsa;
  signed_message = some signed;
}

unpack_string_signed : unpack_string crates default_options "signed" ≡ ok (plain, signed_metadata)
unfolding unpack_string Jws.parse ◌>>=◌ split_once modify sig_type decode_from open_envelope
unpack_string_signed = refl

unpack_string-IsSigned_example : IsSigned crates (some signer_kid) (some signed)
unpack_string-IsSigned_example =
    unpack_string-IsSigned crates default_options "signed" plain signed_metadata
      unpack_string_signed refl

unpack_loop_ends_example :
    EndsWithin 0 1000
      (unpack_loop crates default_options 1001 0 (ParsedEnvelope.message plain) default_envelope).0
unpack_loop_ends_example =
    unpack_loop_ends crates default_options (ParsedEnvelope.message plain) default_envelope

abbrev hi : Jws
hi = record {
  signatures =
      record {
        header = record { kid = signer_kid };
        protected =
            "AAAAAAAAAAAAAAAAAAAAAAAAAAAAAAAAAAAAAAAAAAAAAAAAAAAAAAAAAAAAAAAAAAAAAAAAAAAAAAAAAAAAAAAAAAAAAAAAAAAAAAAAB";
        signature = "AB";
      }
      ∷ [];
  payload = "AAABAAB";
}

hi_signed :
    signed_jws unary_crates (3 ∷ 2 ∷ []) Curve.ed25519 (signer_kid, 7) JwsAlgorithm.ed_dsa ≡ ok hi
unfolding signed_jws sig_type unary_encode
hi_signed = refl

signed_jws-Reads_example :
    Reads unary_crates 7 7 decodes reads verifies hi Curve.ed25519 signer_kid (3 ∷ 2 ∷ [])
signed_jws-Reads_example =
    signed_jws-Reads unary_crates 7 7 decodes reads verifies (3 ∷ 2 ∷ []) Curve.ed25519 signer_kid
      JwsAlgorithm.ed_dsa hi hi_signed

abbrev fresh : Fresh ℕ
fresh = record { cek = some 5; epk = some 6; nonce = [] }

authcrypt_run :
    authcrypt crates "did:t:b" "did:t:a"
      (4 ∷ [])
      AnonCryptAlg.xc20p_ecdh_es_a256kw
      true
      100
      fresh
      fresh
    ≡ ok ("jwe", (agreement_kid, agreement_kid ∷ []))
unfolding authcrypt get_jwk key_alg as_curve as_key_pair secret_as_key_pair derive_key wrap_key
authcrypt_run = refl

authcrypt-OneAlg_example :
    (from_doc : Document) × (to_doc : Document) × (resolvers.resolve "did:t:a" ≡ some from_doc)
    × (resolvers.resolve "did:t:b" ≡ some to_doc)
    × OneAlg crates from_doc to_doc 100 agreement_kid (agreement_kid ∷ [])
unfolding did_or_url split_once
authcrypt-OneAlg_example =
    authcrypt-OneAlg crates "did:t:b" "did:t:a" (4 ∷ []) AnonCryptAlg.xc20p_ecdh_es_a256kw true 100
      fresh fresh "jwe" agreement_kid (agreement_kid ∷ []) authcrypt_run

moved_packed : pack_plaintext crates moved ≡ ok "text"
unfolding pack_plaintext split split_once key_alg as_key_pair sig_type decode_from
moved_packed = refl

pack_plaintext-IsSound_example :
    (prior : FromPrior) × (kid : String) × IsVerified crates "h.p.\u{1}" prior kid
    × IsSound prior kid moved.from
pack_plaintext-IsSound_example =
    pack_plaintext-IsSound crates moved "h.p.\u{1}" "text" refl moved_packed

-- An endpoint is read as its member "uri".
abbrev messaging : Option Value → Option DidcommMessagingService
messaging (some (string uri)) = some (record { uri = uri; accept = none; routing_keys = [] })
messaging _ = none

unfoldable service_serde : ServiceSerde
unfolding get
service_serde = record { read_accept = λ v. none; read_service = λ fs. messaging (get "uri" fs) }

abbrev at : String → Found
at uri = ("s", record { uri = uri; accept = none; routing_keys = [] })

chain_of_two :
    resolve_did_comm_services_chain service_serde resolvers "did:t:a" none
    ≡ ok (at "https://m" ∷ at "did:t:m" ∷ [])
unfolding resolve_did_comm_services_chain service_serde split
chain_of_two = refl

resolve_did_comm_services_chain-IsChain_example :
    (resolve_did_comm_services_chain service_serde resolvers "did:t:a" none ≢ panic)
    × ((chain : List Found)
        → resolve_did_comm_services_chain service_serde resolvers "did:t:a" none ≡ ok chain
        → IsChain service_serde resolvers chain)
resolve_did_comm_services_chain-IsChain_example =
    resolve_did_comm_services_chain-IsChain service_serde resolvers "did:t:a" none

abbrev sealed : ParsedJwe
sealed = record {
  jwe = record {
    protected = "h";
    recipients = record { header = record { kid = agreement_kid }; encrypted_key = "" } ∷ [];
    iv = "";
    ciphertext = "plain";
    tag = "";
  };
  protected = record {
    typ = none;
    alg = Algorithm.ecdh_es_a256kw;
    enc = EncAlgorithm.xc20p;
    skid = none;
    apu = none;
    apv = "";
    epk = null;
  };
  apu = none;
  apv = [];
  to_kids = agreement_kid ∷ [];
}

abbrev all_keys : UnpackOptions
all_keys = record default_options { expect_decrypt_by_all_keys = true }

abbrev unsealed : MetaEnvelope ℕ
unsealed = record default_envelope {
  metadata = record default_metadata {
    encrypted = true;
    anonymous_sender = true;
    encrypted_to_kids = some (agreement_kid ∷ []);
    enc_alg_anon = some AnonCryptAlg.xc20p_ecdh_es_a256kw;
  };
}

sealed_run :
    try_unpack_anoncrypt crates all_keys (ParsedEnvelope.jwe sealed) default_envelope
    ≡ (ok (some (ParsedEnvelope.message plain)), unsealed)
unfolding try_unpack_anoncrypt ◌>>=◌ modify split split_once secret_as_key_pair derive_key
    unwrap_key decode_from open_envelope did_or_url parse_envelope verify_didcomm
sealed_run = refl

try_unpack_anoncrypt-IsOpened_example :
    (Algorithm.ecdh_es_a256kw ≡ Algorithm.ecdh_es_a256kw)
    × IsOpened crates all_keys sealed (ParsedEnvelope.message plain)
    × IsMarked crates all_keys sealed unsealed
try_unpack_anoncrypt-IsOpened_example =
    try_unpack_anoncrypt-IsOpened crates all_keys sealed (ParsedEnvelope.message plain)
      default_envelope unsealed sealed_run

abbrev auth_sealed : ParsedJwe
auth_sealed = record sealed {
  protected = record {
    typ = none;
    alg = Algorithm.ecdh1pu_a256kw;
    enc = EncAlgorithm.a256cbc_hs512;
    skid = none;
    apu = none;
    apv = "";
    epk = null;
  };
  apu = some (as_bytes agreement_kid);
}

abbrev auth_unsealed : MetaEnvelope ℕ
auth_unsealed =
    (try_unpack_authcrypt crates default_options (ParsedEnvelope.jwe auth_sealed) 0
      default_envelope).1

auth_sealed_run :
    try_unpack_authcrypt crates default_options (ParsedEnvelope.jwe auth_sealed) 0 default_envelope
    ≡ (ok (some (ParsedEnvelope.message plain)), auth_unsealed)
unfolding try_unpack_authcrypt ◌>>=◌ modify split split_once secret_as_key_pair derive_key
    unwrap_key decode_from open_envelope did_or_url parse_envelope verify_didcomm get_jwk key_alg
    as_curve as_key_pair fill_envelope_from
auth_sealed_run = refl

try_unpack_authcrypt-IsAuthenticated_example :
    (Algorithm.ecdh1pu_a256kw ≡ Algorithm.ecdh1pu_a256kw)
    × IsAuthenticated crates default_options auth_sealed (ParsedEnvelope.message plain)
try_unpack_authcrypt-IsAuthenticated_example =
    try_unpack_authcrypt-IsAuthenticated crates default_options auth_sealed 0
      (ParsedEnvelope.message plain) default_envelope auth_unsealed (inl refl) auth_sealed_run
