-- ===== src/Core/Toy.antt =====
-- Concrete ciphers in place of those of the container, with which the tests run.
use z_bacs.Prelude.{
  ◌-◌, ◌≡◌, refl, ◌++◌, true, some, arith, length, length-append, take, take-at, replicate,
}
use z_bacs.Prelude.Bytes.{Bytes, bytes_beq, bytes_beq_iff}
use z_bacs.Proto.External.{Primitives, Signs}
use z_bacs.Core.External.{Suite, Aead, Hpke}
use z_bacs.Toy.{toy, toy_hash}

abbrev pub tag : Bytes
tag = replicate 16 0

abbrev pub untagged : Bytes → Bytes
untagged ct = take (length ct - 16) ct

pub untagged-tagged : (m : Bytes) → untagged (m ++ tag) ≡ m
untagged-tagged m = take-at (length (m ++ tag) - 16) m tag (omega (arith, length-append m tag))

abbrev pub keys : Primitives
keys = record toy {
  ed25519_sign = λ sk m. sk ++ toy_hash m;
  ed25519_verify = λ pk m sig. bytes_beq sig (pk ++ toy_hash m);
}

abbrev pub suite : Suite
suite = record {
  primitives = keys;
  blake3 = toy_hash;
  aead_encrypt = λ k n a m. some (m ++ tag);
  aead_decrypt = λ k n a ct. some (untagged ct);
  x25519_public = λ sk. sk;
  hpke_seal = λ pk i a m. some (replicate 32 0, m ++ tag);
  hpke_open = λ enc sk i a ct. some (untagged ct);
  is_utf8 = λ b. true;
}

pub suite-Aead : Aead suite
suite-Aead = record {
  length-encrypt = λ k n a m {ct} e. ground (arith, length-append m tag);
  decrypt-encrypt = λ k n a m {ct} e. ground (arith, untagged-tagged m);
}

pub suite-Hpke : Hpke suite
suite-Hpke = record {
  length-enc = λ pk i a m {enc} {ct} e. ground arith;
  length-ct = λ pk i a m {enc} {ct} e. ground (arith, length-append m tag);
  open-seal = λ sk i a m {enc} {ct} e. ground (arith, untagged-tagged m);
}

pub keys-Signs : Signs keys
keys-Signs = record {
  public-is_key = λ s. refl;
  verify-sign = λ s m. (bytes_beq_iff (s ++ toy_hash m) (s ++ toy_hash m)).1 refl;
}
