-- ===== src/Core/Tests.antt =====
-- A container at concrete inputs: six bytes in chunks of four, sealed and opened.
use z_bacs.Prelude.{
  length, ◌≡◌, ◌↔◌, refl, [], ◌∷◌, ◌++◌, true, false, some, none, Result, ok, err, arith,
  length-append, replicate,
}
use z_bacs.Prelude.Bytes.{Bytes, to_le_bytes, to_be_bytes}
use z_bacs.Session.{read_only}
use z_bacs.Core.Header.{
  Error, Header, Forms, wrap, key_id_of, sign_header, signing_message, encode_header, header_hash,
}
use z_bacs.Core.Name.{pad_name}
use z_bacs.Core.Container.{
  SealOptions, Draws, nonce, chunk_aad, chunk_count, encrypt_name, wrap_all, identity, successor,
  make_header, seal_chunks, trailer, seal_signed, open_container,
}
use z_bacs.Core.Frames.{Frames, seal_chunks-Frames}
use z_bacs.Core.Sealing.{Sensible}
use z_bacs.Core.Versions.{Versions, verify_version_chain, verify_version_chain-ok_iff}
use z_bacs.Core.Opening.{Laws, open_container-seal_signed}
use z_bacs.Core.Toy.{tag, suite, suite-Aead, suite-Hpke, keys-Signs}
use z_bacs.Toy.{toy_hash, length-toy_hash, only, only-RoundTripsAt}

abbrev pub sk : Bytes
sk = replicate 32 7

pub suite-Laws : Laws suite sk
suite-Laws = record {
  aead = suite-Aead;
  hpke = suite-Hpke;
  signs = keys-Signs;
  length-sha256 = length-toy_hash;
  length-blake3 = length-toy_hash;
  length-public = refl;
  length-sig = λ m. omega (arith, length-append sk (toy_hash m), length-toy_hash m);
}

abbrev pub options : SealOptions
options = record {
  policy = record { default = read_only; ttl = 3600; max = 1; pin = true; strict = false };
  owner_account = 9 ∷ 9 ∷ [];
  file_name = 97 ∷ 46 ∷ 116 ∷ [];
  chunk_size = 4;
  extra_recipients = [];
  prev = none;
}

pub options-Sensible : Sensible options
options-Sensible = record {
  owner = omega arith;
  recipients = omega arith;
  later = λ p e. ground arith;
}

abbrev pub draws : Draws
draws = record { dek = replicate 32 3; np = replicate 16 4; salt = replicate 16 5 }

abbrev pub file : Bytes
file = 1 ∷ 2 ∷ 3 ∷ 4 ∷ 5 ∷ 6 ∷ []

abbrev pub secret : Bytes
secret = replicate 32 8

abbrev no_header : Header
no_header = record {
  body = record {
    fid = [];
    salt = [];
    ver = 0;
    prev = none;
    own = [];
    opub = none;
    pol = options.policy;
    cipher = 0;
    chunk = 0;
    plen = 0;
    np = [];
    name = [];
    env = [];
  };
  sigk = [];
  sig = [];
}

-- Some bytes stand for the header's body and for the header.
abbrev pub forms_of : Header → Forms
forms_of h = record {
  policy = only options.policy (1 ∷ []);
  body = only h.body (2 ∷ []);
  header = only h (3 ∷ 4 ∷ []);
}

abbrev pub header_of : Result Error Header → Header
header_of (ok h) = h
header_of (err e) = no_header

abbrev pub made : Header
made = header_of (make_header suite (forms_of no_header) file secret sk options draws)

abbrev bytes_of : Result Error (Header × Bytes) → Bytes
bytes_of (ok (h, b)) = b
bytes_of (err e) = []

abbrev pub container : Bytes
container = bytes_of (seal_signed suite (forms_of made) file secret sk options draws)

pub sealed : seal_signed suite (forms_of made) file secret sk options draws ≡ ok (made, container)
unfolding seal_signed make_header encrypt_name wrap_all identity successor sign_header encode_header
    seal_chunks trailer chunk_count wrap key_id_of pad_name nonce chunk_aad toy_hash to_le_bytes
    to_be_bytes signing_message
sealed = refl

open_container-seal_signed_example :
    (hash : Bytes) × (header_hash suite (forms_of made) made ≡ ok hash)
    × (open_container suite (forms_of made) container secret
        ≡ ok (record { header = made; header_hash = hash; file_name = options.file_name }, file))
open_container-seal_signed_example =
    open_container-seal_signed suite (forms_of made) file secret sk options draws made container
      suite-Laws (only-RoundTripsAt made (3 ∷ 4 ∷ [])) options-Sensible refl refl (omega arith)
      sealed

abbrev frames : Bytes
frames = 1 ∷ 2 ∷ 3 ∷ 4 ∷ tag ++ 5 ∷ 6 ∷ tag

chunks_sealed : seal_chunks suite (draws.dek) (draws.np) (replicate 32 1) 4 2 2 0 file ≡ ok frames
unfolding seal_chunks
chunks_sealed = refl

abbrev padded_a : Bytes
padded_a = 1 ∷ 0 ∷ 97 ∷ replicate 61 0

pads_a : pad_name (97 ∷ []) ≡ ok padded_a
unfolding pad_name to_le_bytes
pads_a = refl

-- A second version of the container's header.
abbrev second : Header
second = record made { body = record made.body { ver = 2; prev = some (toy_hash (3 ∷ 4 ∷ [])) } }

abbrev second_hash : Bytes
second_hash = toy_hash (3 ∷ 4 ∷ [])

verify_version_chain-ok_iff_example :
    (verify_version_chain suite (forms_of made) ((made, second_hash) ∷ (second, second_hash) ∷ [])
      ≡ ok tt)
    ↔ ((made.body.ver ≡ 1)
        × (made.body.prev ≡ none)
        × Versions suite
            (forms_of made)
            made.body.fid
            made.body.salt
            1
            second_hash
            ((second, second_hash) ∷ []))
verify_version_chain-ok_iff_example =
    verify_version_chain-ok_iff suite (forms_of made) made second_hash ((second, second_hash) ∷ [])
      (omega arith)

seal_chunks-Frames_example :
    (b : Bytes) × (seal_chunks suite draws.dek draws.np
        (replicate 32 1)
        4
        (chunk_count (length file) 4)
        (chunk_count (length file) 4)
        0
        file
      ≡ ok b)
    × Frames suite draws.dek draws.np (replicate 32 1) 4 (chunk_count (length file) 4) 0 file b
seal_chunks-Frames_example =
    seal_chunks-Frames suite draws.dek draws.np (replicate 32 1) 4 file
      (λ k n a m. (m ++ tag, refl)) (omega arith)
