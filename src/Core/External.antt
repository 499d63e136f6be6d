-- ===== src/Core/External.antt =====
-- What crates/zbacs-core takes from other crates: SHA-256 (sha2), BLAKE3 (blake3), Ed25519
-- (ed25519_dalek), XChaCha20-Poly1305 (chacha20poly1305), HPKE (hpke_rs), CBOR (ciborium) and the
-- standard library's UTF-8 check. The laws are those that their documentation states.
use z_bacs.Prelude.{◌+◌, ◌≡◌, Bool, Option, some, length}
use z_bacs.Prelude.Bytes.{Bytes}
use z_bacs.Proto.External.{Primitives}

pub record Suite : Type 0 where
  pub primitives : Primitives
  pub blake3 : Bytes → Bytes
  -- Key, nonce, associated data, message.
  pub aead_encrypt : Bytes → Bytes → Bytes → Bytes → Option Bytes
  pub aead_decrypt : Bytes → Bytes → Bytes → Bytes → Option Bytes
  pub x25519_public : Bytes → Bytes
  -- Public key, info, associated data, message: the encapsulated key and the ciphertext.
  pub hpke_seal : Bytes → Bytes → Bytes → Bytes → Option (Bytes × Bytes)
  -- Encapsulated key, secret key, info, associated data, ciphertext.
  pub hpke_open : Bytes → Bytes → Bytes → Bytes → Bytes → Option Bytes
  pub is_utf8 : Bytes → Bool

pub record Aead (c : Suite) : Type 0 where
  pub length-encrypt :
      (k n a m : Bytes) {ct : Bytes} → c.aead_encrypt k n a m ≡ some ct → length ct ≡ length m + 16
  pub decrypt-encrypt :
      (k n a m : Bytes) {ct : Bytes}
      → c.aead_encrypt k n a m ≡ some ct
      → c.aead_decrypt k n a ct ≡ some m

pub record Hpke (c : Suite) : Type 0 where
  pub length-enc :
      (pk i a m : Bytes) {enc ct : Bytes} → c.hpke_seal pk i a m ≡ some (enc, ct) → length enc ≡ 32
  pub length-ct :
      (pk i a m : Bytes) {enc ct : Bytes}
      → c.hpke_seal pk i a m ≡ some (enc, ct)
      → length ct ≡ length m + 16
  pub open-seal :
      (sk i a m : Bytes) {enc ct : Bytes}
      → c.hpke_seal (c.x25519_public sk) i a m ≡ some (enc, ct)
      → c.hpke_open enc sk i a ct ≡ some m
