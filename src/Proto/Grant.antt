-- ===== src/Proto/Grant.antt =====
-- crates/zbacs-proto/src/grant.rs: the terms of a grant and their EIP-712 hashes.
use z_bacs.Prelude.{
  ℕ, ◌≡◌, ◌<◌, ◌^◌, [], ◌∷◌, ◌++◌, List, Result, map_err, ok_or, replicate, length,
}
use z_bacs.Prelude.Bytes.{Bytes, codes, to_be_bytes}
use z_bacs.Proto.External.{Primitives, Cbor}
use z_bacs.Proto.Messages.{ProtoError, malformed, encode}

pub record AccessGrantTerms : Type 0 where
  pub file_id : Bytes
  pub header_hash : Bytes
  pub device_key_hash : Bytes
  pub permission : ℕ
  pub not_before : ℕ
  pub expiry : ℕ
  pub max_opens : ℕ
  pub request_nonce : Bytes
  pub grant_nonce : ℕ

-- The widths of the fields.
pub record IsTerms (t : AccessGrantTerms) : Type 0 where
  pub file_id : length t.file_id ≡ 32
  pub header_hash : length t.header_hash ≡ 32
  pub device_key_hash : length t.device_key_hash ≡ 32
  pub permission : t.permission < 2 ^ 8
  pub not_before : t.not_before < 2 ^ 64
  pub expiry : t.expiry < 2 ^ 64
  pub max_opens : t.max_opens < 2 ^ 16
  pub request_nonce : length t.request_nonce ≡ 16
  pub grant_nonce : t.grant_nonce < 2 ^ 64

unfoldable pub word_u64 : ℕ → Bytes
word_u64 v = replicate 24 0 ++ to_be_bytes 8 v

unfoldable pub word_bytes16 : Bytes → Bytes
word_bytes16 v = v ++ replicate 16 0

-- The parts that a hash is fed with, one after another.
unfoldable pub joined : List Bytes → Bytes
joined [] = []
joined (p ∷ ps) = p ++ joined ps

module _ (c : Primitives) where
  unfoldable pub keccak : List Bytes → Bytes
  keccak parts = c.keccak256 (joined parts)

  unfoldable pub typehash : Bytes
  typehash = keccak (
      codes
        "AccessGrant(bytes32 fileId,bytes32 headerHash,bytes32 deviceKeyHash,uint8 permission,uint64 notBefore,uint64 expiry,uint16 maxOpens,bytes16 requestNonce,uint256 grantNonce)"
      ∷ [])

  unfoldable pub struct_hash : AccessGrantTerms → Bytes
  struct_hash t = keccak (
      typehash
      ∷ t.file_id
      ∷ t.header_hash
      ∷ t.device_key_hash
      ∷ word_u64 t.permission
      ∷ word_u64 t.not_before
      ∷ word_u64 t.expiry
      ∷ word_u64 t.max_opens
      ∷ word_bytes16 t.request_nonce
      ∷ word_u64 t.grant_nonce
      ∷ [])

  unfoldable pub domain_hash : ℕ → Bytes → Bytes
  domain_hash chain_id verifying_contract = keccak (
      keccak (
        codes "EIP712Domain(string name,string version,uint256 chainId,address verifyingContract)"
        ∷ [])
      ∷ keccak (codes "Z-BACS" ∷ [])
      ∷ keccak (codes "1" ∷ [])
      ∷ word_u64 chain_id
      ∷ (replicate 12 0 ++ verifying_contract)
      ∷ [])

  unfoldable pub digest : AccessGrantTerms → ℕ → Bytes → Bytes
  digest t chain_id verifying_contract =
      keccak ((0x19 ∷ 0x01 ∷ []) ∷ domain_hash chain_id verifying_contract ∷ struct_hash t ∷ [])

  unfoldable pub device_key_hash : Bytes → Bytes → Bytes
  device_key_hash x25519_pub ed25519_pub = c.keccak256 (x25519_pub ++ ed25519_pub)

module _ (cbor : Cbor AccessGrantTerms) where
  unfoldable pub to_cbor : AccessGrantTerms → Result ProtoError Bytes
  to_cbor t = map_err encode (cbor.into_writer t)

  unfoldable pub from_cbor : Bytes → Result ProtoError AccessGrantTerms
  from_cbor b = ok_or (cbor.from_reader b) (malformed "grant terms are not valid CBOR")
