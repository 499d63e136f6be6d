-- ===== src/Proto/Signed.antt =====
-- crates/zbacs-proto/src/signed.rs and identity.rs: the envelope of every relay message.
use z_bacs.Prelude.{
  ℕ, Bool, true, false, not, ◌++◌, Result, ok, ◌>>=◌, ◌>>◌, refuse_if, ok_or, map_err, ltb, length,
  take,
}
use z_bacs.Prelude.Bytes.{Bytes, bytes_beq, codes, to_le_bytes, abs_diff}
use z_bacs.Proto.External.{Primitives, Cbor}
use z_bacs.Proto.Messages.{
  Kind, as_str, announce, req, grant, revoke, sub, ack, version, Message, ProtoError, bad_signature,
  stale, malformed, too_large, encode,
}

abbrev pub relay_sig_domain : Bytes
relay_sig_domain = codes "ZBACS-RLY-v1"

abbrev pub max_body_len : ℕ
max_body_len = 65536

abbrev pub max_skew_secs : ℕ
max_skew_secs = 120

pub record Signed : Type 0 where
  pub payload : Bytes
  pub kid : Bytes
  pub kind : Kind
  pub ts : ℕ
  pub nonce : Bytes
  pub sig : Bytes

-- `DeviceIdentity`, of whose X25519 half only the public key is used here.
pub record DeviceIdentity : Type 0 where
  pub x25519_pub : Bytes
  pub ed25519_sk : Bytes

-- `==` on `Kind`.
unfoldable pub same_kind : Kind → Kind → Bool
same_kind announce announce = true
same_kind req req = true
same_kind grant grant = true
same_kind revoke revoke = true
same_kind sub sub = true
same_kind ack ack = true
same_kind version version = true
same_kind _ _ = false

module _ (c : Primitives) where
  -- `identity::kid_of`.
  unfoldable pub kid_of : Bytes → Bytes
  kid_of ed25519_pub = take 16 (c.sha256 ed25519_pub)

  -- `DeviceIdentity::ed25519_pub` and `DeviceIdentity::kid`.
  unfoldable pub ed25519_pub : DeviceIdentity → Bytes
  ed25519_pub d = c.ed25519_public d.ed25519_sk

  unfoldable pub kid : DeviceIdentity → Bytes
  unfolding kid_of ed25519_pub
  kid d = kid_of (ed25519_pub d)

  unfoldable pub verify_raw : Bytes → Bytes → Bytes → Result ProtoError (Unit {0})
  verify_raw pk msg sig = do
    refuse_if (not (c.is_key pk)) bad_signature
    refuse_if (not (c.ed25519_verify pk msg sig)) bad_signature

  unfoldable pub signing_bytes : Kind → ℕ → Bytes → Bytes → Bytes
  signing_bytes kind ts nonce payload =
      relay_sig_domain ++ (as_str kind ++ (to_le_bytes 8 ts ++ (nonce ++ c.sha256 payload)))

module _ (c : Primitives) {A : Type 0} (m : Message A) where
  unfoldable pub sign : DeviceIdentity → A → ℕ → Bytes → Result ProtoError Signed
  sign device payload ts nonce = do
    body ← map_err encode (m.cbor.into_writer payload)
    refuse_if (ltb max_body_len (length body)) (too_large (length body))
    ok (record {
      payload = body;
      kid = kid c device;
      kind = m.kind;
      ts = ts;
      nonce = nonce;
      sig = c.ed25519_sign device.ed25519_sk (signing_bytes c m.kind ts nonce body);
    })

  unfoldable pub verify : Signed → Bytes → ℕ → Result ProtoError (A × Bytes)
  verify s pk now = do
    refuse_if (not (same_kind s.kind m.kind))
        (malformed "envelope kind does not match the payload type")
    refuse_if (ltb max_body_len (length s.payload)) (too_large (length s.payload))
    refuse_if (ltb max_skew_secs (abs_diff now s.ts)) (stale s.ts now)
    refuse_if (not (bytes_beq (kid_of c pk) s.kid)) bad_signature
    verify_raw c pk (signing_bytes c s.kind s.ts s.nonce s.payload) s.sig
    payload ←
        ok_or (m.cbor.from_reader s.payload) (malformed "payload is not valid CBOR for this kind")
    ok (payload, s.nonce)

  unfoldable pub verify_queued : Signed → Bytes → Result ProtoError (A × ℕ)
  verify_queued s pk = do
    refuse_if (not (same_kind s.kind m.kind))
        (malformed "envelope kind does not match the payload type")
    refuse_if (ltb max_body_len (length s.payload)) (too_large (length s.payload))
    refuse_if (not (bytes_beq (kid_of c pk) s.kid)) bad_signature
    verify_raw c pk (signing_bytes c s.kind s.ts s.nonce s.payload) s.sig
    payload ←
        ok_or (m.cbor.from_reader s.payload) (malformed "payload is not valid CBOR for this kind")
    ok (payload, s.ts)

module _ (wire : Cbor Signed) where
  unfoldable pub to_bytes : Signed → Result ProtoError Bytes
  to_bytes s = do
    out ← map_err encode (wire.into_writer s)
    refuse_if (ltb max_body_len (length out)) (too_large (length out))
    ok out

  unfoldable pub from_bytes : Bytes → Result ProtoError Signed
  from_bytes b = do
    refuse_if (ltb max_body_len (length b)) (too_large (length b))
    ok_or (wire.from_reader b) (malformed "envelope is not valid CBOR")
