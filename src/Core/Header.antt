-- ===== src/Core/Header.antt =====
-- crates/zbacs-core/src/header.rs, envelope.rs and error.rs: the container's header, its signature,
-- and the envelopes of the data key. Fixed byte arrays are `Bytes`.
use z_bacs.Prelude.{
  ℕ, Bool, not, Option, List, ◌++◌, String, Result, ok, ◌>>=◌, ◌>>◌, refuse_if, ok_or, map_err, ltb,
  ◌==◌, length, take,
}
use z_bacs.Prelude.Bytes.{Bytes, bytes_beq, codes}
use z_bacs.Proto.External.{Cbor}
use z_bacs.Session.{Permission}
use z_bacs.Core.External.{Suite}

pub data Error : Type 0 where
  io bad_magic header_signature truncated no_envelope no_owner_key envelope_open : Error
  envelope_seal name_auth key_length : Error
  unsupported_version : ℕ → ℕ → Error
  header_too_large unsupported_cipher bad_chunk_size chunk_auth : ℕ → Error
  header_encode header_decode broken_chain : String → Error

abbrev pub max_header_len : ℕ
max_header_len = 1_048_576

abbrev pub hdr_sig_domain : Bytes
hdr_sig_domain = codes "ZBACS-HDR-v1"

abbrev pub pol_hash_domain : Bytes
pol_hash_domain = codes "ZBACS-POL-v1"

pub record Policy : Type 0 where
  pub default : Permission
  pub ttl : ℕ
  pub max : ℕ
  pub pin : Bool
  pub strict : Bool

-- `Envelope`: the data key wrapped for one recipient.
pub record Envelope : Type 0 where
  pub kid : Bytes
  pub alg : Bytes
  pub enc : Bytes
  pub ct : Bytes

pub record HeaderBody : Type 0 where
  pub fid : Bytes
  pub salt : Bytes
  pub ver : ℕ
  pub prev : Option Bytes
  pub own : Bytes
  pub opub : Option Bytes
  pub pol : Policy
  pub cipher : ℕ
  pub chunk : ℕ
  pub plen : ℕ
  pub np : Bytes
  pub name : Bytes
  pub env : List Envelope

pub record Header : Type 0 where
  pub body : HeaderBody
  pub sigk : Bytes
  pub sig : Bytes

-- The encodings by serde and ciborium.
pub record Forms : Type 0 where
  pub policy : Cbor Policy
  pub body : Cbor HeaderBody
  pub header : Cbor Header

abbrev pub alg_hpke_x25519_chacha : Bytes
alg_hpke_x25519_chacha = codes "hpke-x25519-chacha"

abbrev pub dek_info : Bytes
dek_info = codes "zbacs-dek-v1"

module _ (c : Suite) where
  unfoldable pub key_id_of : Bytes → Bytes
  key_id_of pk = take 16 (c.primitives.sha256 pk)

  -- `Envelope::seal`. The ephemeral key that it draws is part of the parameter `hpke_seal`.
  unfoldable pub wrap : Bytes → Bytes → Bytes → Result Error Envelope
  unfolding key_id_of
  wrap recipient_pk dek aad = do
    (enc, ct) ← ok_or (c.hpke_seal recipient_pk dek_info aad dek) envelope_seal
    ok (record { kid = key_id_of recipient_pk; alg = alg_hpke_x25519_chacha; enc = enc; ct = ct })

  -- `Envelope::open`, with `Dek::from_bytes`.
  unfoldable pub unwrap : Envelope → Bytes → Bytes → Result Error Bytes
  unwrap e secret aad = do
    refuse_if (not (bytes_beq e.alg alg_hpke_x25519_chacha)) envelope_open
    dek ← ok_or (c.hpke_open e.enc secret dek_info aad e.ct) envelope_open
    refuse_if (not (length dek == 32)) key_length
    ok dek

module _ (c : Suite) (f : Forms) where
  unfoldable pub policy_hash : Policy → Result Error Bytes
  policy_hash p = do
    b ← map_err header_encode (f.policy.into_writer p)
    ok (c.primitives.sha256 (pol_hash_domain ++ b))

  unfoldable pub signing_message : HeaderBody → Result Error Bytes
  signing_message body = do
    b ← map_err header_encode (f.body.into_writer body)
    ok (hdr_sig_domain ++ b)

  -- `HeaderBody::sign`.
  unfoldable pub sign_header : HeaderBody → Bytes → Result Error Header
  unfolding signing_message
  sign_header body sk = do
    msg ← signing_message body
    ok (record {
      body = body;
      sigk = c.primitives.ed25519_public sk;
      sig = c.primitives.ed25519_sign sk msg;
    })

  -- `Header::verify`.
  unfoldable pub verify_header : Header → Result Error (Unit {0})
  unfolding signing_message
  verify_header h = do
    refuse_if (not (length h.sigk == 32)) header_signature
    refuse_if (not (c.primitives.is_key h.sigk)) header_signature
    refuse_if (not (length h.sig == 64)) header_signature
    msg ← signing_message h.body
    refuse_if (not (c.primitives.ed25519_verify h.sigk msg h.sig)) header_signature

  -- `Header::encode`.
  unfoldable pub encode_header : Header → Result Error Bytes
  encode_header h = do
    b ← map_err header_encode (f.header.into_writer h)
    refuse_if (ltb max_header_len (length b)) (header_too_large (length b))
    ok b

  unfoldable pub header_hash : Header → Result Error Bytes
  unfolding encode_header
  header_hash h = do b ← encode_header h; ok (c.primitives.sha256 b)

  -- The text of a decoding error is ciborium's.
  unfoldable pub decode_verified : Bytes → Result Error (Header × Bytes)
  unfolding verify_header
  decode_verified b = do
    refuse_if (ltb max_header_len (length b)) (header_too_large (length b))
    h ← ok_or (f.header.from_reader b) (header_decode "cbor")
    verify_header h
    ok (h, c.primitives.sha256 b)
