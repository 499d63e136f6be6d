-- ===== src/Proto/Tests.antt =====
-- The envelope and the grant's hashes at concrete inputs.
use z_bacs.Prelude.{some, ℕ, ◌≤◌, [], ◌∷◌, ◌≡◌, ◌⊎◌, refl, ok, err, arith, length, replicate}
use z_bacs.Prelude.Bytes.{
  Bytes, bytes_beq, bytes_beq_iff, Collision, abs_diff, to_le_bytes, to_be_bytes,
}
use z_bacs.Proto.External.{Primitives}
use z_bacs.Proto.Messages.{req, as_str, Message, stale}
use z_bacs.Proto.Signed.{
  Signed, DeviceIdentity, max_skew_secs, signing_bytes, sign, verify, ed25519_pub, kid, verify_raw,
  same_kind,
}
use z_bacs.Proto.Grant.{AccessGrantTerms, IsTerms}
use z_bacs.Proto.Authenticity.{SigningCall, SignedOnly, verify-authentic}
use z_bacs.Proto.Terms.{digest_binds}
use z_bacs.Toy.{toy, toy_hash, length-toy_hash, plain}

abbrev nonce : Bytes
nonce = replicate 16 4

abbrev device : DeviceIdentity
device = record { x25519_pub = 8 ∷ []; ed25519_sk = 1 ∷ 2 ∷ 3 ∷ [] }

abbrev request : Message Bytes
request = record { kind = req; cbor = plain }

signed : Signed
unfolding kid signing_bytes toy_hash to_le_bytes as_str
signed = record {
  payload = 5 ∷ 6 ∷ [];
  kid = kid toy device;
  kind = req;
  ts = 1000;
  nonce = nonce;
  sig = 1 ∷ 2 ∷ 3 ∷ signing_bytes toy req 1000 nonce (5 ∷ 6 ∷ []);
}

signed-sign : sign toy request device (5 ∷ 6 ∷ []) 1000 nonce ≡ ok signed
unfolding sign signed
signed-sign = refl

signed_late : verify toy request signed (1 ∷ 2 ∷ 3 ∷ []) 1121 ≡ err (stale 1000 1121)
unfolding verify signed same_kind
signed_late = refl

signed-ts : signed.ts ≡ 1000
unfolding signed
signed-ts = refl

signed-nonce : length signed.nonce ≡ 16
unfolding signed
signed-nonce = refl

-- A key for which nothing verifies but one call.
abbrev the_call : SigningCall
the_call = record { kind = req; ts = 1000; nonce = nonce; payload = 5 ∷ 6 ∷ [] }

abbrev once : Primitives
once = record toy {
  ed25519_verify = λ pk msg sig. bytes_beq msg (signing_bytes toy req 1000 nonce (5 ∷ 6 ∷ []));
}

once-SignedOnly : SignedOnly once (ed25519_pub toy device) (λ call. call ≡ the_call)
unfolding signing_bytes
once-SignedOnly msg sig h = (the_call, refl, (bytes_beq_iff msg _).0 h)

once_verifies : verify once request signed (1 ∷ 2 ∷ 3 ∷ []) 1100 ≡ ok (5 ∷ 6 ∷ [], nonce)
unfolding verify verify_raw signed same_kind bytes_beq to_be_bytes
once_verifies = refl

verify-authentic_example :
    (call : SigningCall) × (call ≡ the_call)
    × (call.kind ≡ req)
    × (call.nonce ≡ nonce)
    × (call.ts ≡ signed.ts)
    × (abs_diff 1100 call.ts ≤ max_skew_secs)
    × (request.cbor.from_reader signed.payload ≡ some (5 ∷ 6 ∷ []))
    × ((call.payload ≡ signed.payload) ⊎ Collision toy_hash)
verify-authentic_example =
    verify-authentic once request signed (1 ∷ 2 ∷ 3 ∷ []) 1100 (5 ∷ 6 ∷ []) nonce
      (λ call. call ≡ the_call) length-toy_hash (λ call e. (rw e (omega arith), rw e refl))
      once-SignedOnly (rw signed-ts (omega arith)) signed-nonce once_verifies

abbrev terms : AccessGrantTerms
terms = record {
  file_id = replicate 32 1;
  header_hash = replicate 32 2;
  device_key_hash = replicate 32 3;
  permission = 1;
  not_before = 1_700_000_000;
  expiry = 1_700_003_600;
  max_opens = 1;
  request_nonce = nonce;
  grant_nonce = 7;
}

terms-IsTerms : IsTerms terms
terms-IsTerms = omega arith

abbrev contract : Bytes
contract = replicate 20 0x11

digest_binds_example :
    ((terms ≡ terms) × (◌≡◌ {A = ℕ} 8453 8453) × (contract ≡ contract)) ⊎ Collision toy_hash
digest_binds_example =
    digest_binds toy terms terms 8453 8453 contract contract length-toy_hash terms-IsTerms
      terms-IsTerms (omega arith) (omega arith) refl refl refl
