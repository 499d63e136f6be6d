-- ===== src/Proto/External.antt =====
-- What crates/zbacs-proto takes from other crates: hashes (sha2, sha3), Ed25519 (ed25519_dalek) and
-- CBOR (ciborium). The laws are those that their documentation states.
use z_bacs.Prelude.{◌≡◌, Bool, true, String, Option, some, Result, ok}
use z_bacs.Prelude.Bytes.{Bytes}

pub record Primitives : Type 0 where
  pub sha256 : Bytes → Bytes
  pub keccak256 : Bytes → Bytes
  -- `VerifyingKey::from_bytes` accepts the bytes.
  pub is_key : Bytes → Bool
  pub ed25519_public : Bytes → Bytes
  pub ed25519_sign : Bytes → Bytes → Bytes
  pub ed25519_verify : Bytes → Bytes → Bytes → Bool

-- A signature made with a secret key verifies under its public key, for the message signed.
pub record Signs (c : Primitives) : Type 0 where
  pub public-is_key : (sk : Bytes) → c.is_key (c.ed25519_public sk) ≡ true
  pub verify-sign :
      (sk m : Bytes) → c.ed25519_verify (c.ed25519_public sk) m (c.ed25519_sign sk m) ≡ true

-- `ciborium::into_writer` and `ciborium::from_reader` at one type.
pub record Cbor (A : Type 0) : Type 0 where
  pub into_writer : A → Result String Bytes
  pub from_reader : Bytes → Option A

-- What was written is read back.
pub record RoundTrips {A : Type 0} (c : Cbor A) : Type 0 where
  pub read-written : (a : A) (b : Bytes) → c.into_writer a ≡ ok b → c.from_reader b ≡ some a

-- The same for one value.
pub record RoundTripsAt {A : Type 0} (c : Cbor A) (a : A) : Type 0 where
  pub read-written : (b : Bytes) → c.into_writer a ≡ ok b → c.from_reader b ≡ some a
