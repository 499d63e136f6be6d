-- ===== src/Toy.antt =====
-- Concrete functions in place of the cryptography and the encodings, with which the tests run.
use z_bacs.Prelude.{
  ℕ, ◌+◌, ◌*◌, ◌%◌, ◌^◌, Bool, true, [], ◌∷◌, ◌++◌, ◌≡◌, refl, some, none, ok, arith, length,
  length-append, replicate,
}
use z_bacs.Prelude.Bytes.{Bytes, bytes_beq, bytes_beq_iff, to_be_bytes, length-to_be_bytes}
use z_bacs.Proto.External.{Primitives, Signs, RoundTrips, RoundTripsAt, Cbor}

-- A checksum of 32 bytes.
checksum : ℕ → Bytes → ℕ
checksum acc [] = acc
checksum acc (b ∷ bs) = checksum ((acc * 31 + b + 1) % 2 ^ 64) bs

unfoldable pub toy_hash : Bytes → Bytes
unfolding checksum
toy_hash b = to_be_bytes 8 (checksum 7 b) ++ replicate 24 0

pub length-toy_hash : (b : Bytes) → length (toy_hash b) ≡ 32
unfolding toy_hash
length-toy_hash b = omega (
  arith,
  length-append (to_be_bytes 8 (checksum 7 b)) (replicate 24 0),
  length-to_be_bytes 8 (checksum 7 b),
)

-- A signature is the key with the message behind it.
unfoldable pub toy_verify : Bytes → Bytes → Bytes → Bool
toy_verify pk msg sig = bytes_beq sig (pk ++ msg)

abbrev pub toy : Primitives
toy = record {
  sha256 = toy_hash;
  keccak256 = toy_hash;
  is_key = λ pk. true;
  ed25519_public = λ sk. sk;
  ed25519_sign = λ sk msg. sk ++ msg;
  ed25519_verify = toy_verify;
}

pub toy-Signs : Signs toy
unfolding toy_verify
toy-Signs = record {
  public-is_key = λ sk. refl;
  verify-sign = λ sk m. (bytes_beq_iff (sk ++ m) (sk ++ m)).1 refl;
}

-- Bytes that stand for themselves.
abbrev pub plain : Cbor Bytes
plain = record { into_writer = λ b. ok b; from_reader = λ b. some b }

pub plain-RoundTrips : RoundTrips plain
plain-RoundTrips = record { read-written = λ a b h. ground arith }

-- An encoding that knows one value and its bytes.
abbrev pub only : {A : Type 0} → A → Bytes → Cbor A
only a b = record {
  into_writer = λ _. ok b;
  from_reader = λ r. elim (bytes_beq r b) [ true ↦ some a | _ ↦ none ];
}

pub only-RoundTripsAt : {A : Type 0} (a : A) (b : Bytes) → RoundTripsAt (only a b) a
only-RoundTripsAt a b = record { read-written = λ r e. ground (arith, (bytes_beq_iff b b).1 refl) }
