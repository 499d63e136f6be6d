-- ===== src/Core/Container.antt =====
-- crates/zbacs-core/src/container.rs: seal and open. The input is a byte string, read the same by
-- both passes, and reading and writing it do not fail; a result of `seal` is what was written, and
-- what was written before an error is not modelled (the callers discard it).
use z_bacs.Prelude.{
  ℕ, zero, suc, ◌+◌, ◌-◌, ◌/◌, ◌^◌, Bool, true, false, not, ◌||◌, Option, some, none, List, [], ◌∷◌,
  ◌++◌, Result, ok, err, ◌>>=◌, ◌>>◌, refuse_if, ok_or, ltb, ◌==◌, if◌then◌else◌, length, take,
  drop, any, min,
}
use z_bacs.Prelude.Bytes.{Bytes, bytes_beq, codes, to_le_bytes, from_le_bytes}
use z_bacs.Core.External.{Suite}
use z_bacs.Core.Header.{
  Error, io, bad_magic, truncated, no_envelope, envelope_seal, name_auth, unsupported_version,
  header_too_large, unsupported_cipher, bad_chunk_size, chunk_auth, header_encode, header_decode,
  max_header_len, Policy, Envelope, Header, Forms, key_id_of, wrap, unwrap, sign_header,
  encode_header, decode_verified,
}
use z_bacs.Core.Name.{tag_len, name_pad_block, max_name_ct_len, pad_name, unpad_name}

abbrev pub magic : Bytes
magic = codes "ZBACS" ++ (0 ∷ [])

abbrev pub version_major : ℕ
version_major = 1

abbrev pub version_minor : ℕ
version_minor = 1

abbrev pub cipher_xchacha20_poly1305_chunked : ℕ
cipher_xchacha20_poly1305_chunked = 1

abbrev pub name_index : ℕ
name_index = 2 ^ 64 - 1

abbrev pub max_chunk : ℕ
max_chunk = 16_777_216

abbrev pub max_owner_len : ℕ
max_owner_len = 64

abbrev pub max_envelopes : ℕ
max_envelopes = 32

abbrev pub max_envelope_field_len : ℕ
max_envelope_field_len = 1024

pub record PrevVersion : Type 0 where
  pub header_hash : Bytes
  pub version : ℕ
  pub file_id : Bytes
  pub salt : Bytes

-- `PrevVersion::of`.
unfoldable pub prev_version : Header → Bytes → PrevVersion
prev_version h hash = record {
  header_hash = hash;
  version = h.body.ver;
  file_id = h.body.fid;
  salt = h.body.salt;
}

pub record SealOptions : Type 0 where
  pub policy : Policy
  pub owner_account : Bytes
  pub file_name : Bytes
  pub chunk_size : ℕ
  pub extra_recipients : List Bytes
  pub prev : Option PrevVersion

-- What `seal` draws at random: the data key, the nonce prefix and the salt of a first version.
pub record Draws : Type 0 where
  pub dek : Bytes
  pub np : Bytes
  pub salt : Bytes

unfoldable pub nonce : Bytes → ℕ → Bytes
nonce np index = np ++ to_le_bytes 8 index

abbrev pub bit : Bool → ℕ
bit true = 1
bit false = 0

unfoldable pub chunk_aad : Bytes → ℕ → Bool → Bytes
chunk_aad header_hash index is_last = header_hash ++ (to_le_bytes 8 index ++ (bit is_last ∷ []))

unfoldable pub chunk_count : ℕ → ℕ → ℕ
chunk_count plen chunk = if plen == 0 then 1 else (plen + (chunk - 1)) / chunk

module _ (c : Suite) where
  unfoldable pub encrypt_name : Bytes → Bytes → Bytes → Result Error Bytes
  unfolding nonce pad_name
  encrypt_name dek np name = do
    padded ← pad_name name
    ok_or (c.aead_encrypt dek (nonce np name_index) (codes "name") padded) envelope_seal

  unfoldable pub decrypt_name : Header → Bytes → Result Error Bytes
  unfolding nonce unpad_name
  decrypt_name h dek = do
    padded ←
        ok_or (c.aead_decrypt dek (nonce h.body.np name_index) (codes "name") h.body.name) name_auth
    unpad_name c padded

  -- The envelopes, the owner's first.
  unfoldable pub wrap_all : Bytes → Bytes → List Bytes → Result Error (List Envelope)
  wrap_all dek fid [] = ok []
  wrap_all dek fid (pk ∷ pks) = do e ← wrap c pk dek fid; es ← wrap_all dek fid pks; ok (e ∷ es)

  -- `fid` and `salt`: inherited, or those of a first version.
  unfoldable pub identity : Option PrevVersion → Bytes → Bytes → Bytes × Bytes
  identity (some p) input salt = (p.file_id, p.salt)
  identity none input salt = (c.primitives.sha256 (c.primitives.sha256 input ++ salt), salt)

-- `prev` and `ver`.
unfoldable pub successor : Option PrevVersion → Result Error (Option Bytes × ℕ)
successor none = ok (none, 1)
successor (some p) =
    if ltb (p.version + 1) (2 ^ 32)
    then ok (some p.header_hash, p.version + 1)
    else err (header_encode "version overflow")

module _ (c : Suite) (f : Forms) where
  unfoldable pub make_header : Bytes → Bytes → Bytes → SealOptions → Draws → Result Error Header
  unfolding identity
  make_header input owner_pk sk opts draws = do
    let (fid, salt) = identity c opts.prev input draws.salt
    name ← encrypt_name c draws.dek draws.np opts.file_name
    env ← wrap_all c draws.dek fid (owner_pk ∷ opts.extra_recipients)
    (prev, ver) ← successor opts.prev
    sign_header c f
        (record {
          fid = fid;
          salt = salt;
          ver = ver;
          prev = prev;
          own = opts.owner_account;
          opub = some owner_pk;
          pol = opts.policy;
          cipher = cipher_xchacha20_poly1305_chunked;
          chunk = opts.chunk_size;
          plen = length input;
          np = draws.np;
          name = name;
          env = env;
        })
        sk

-- The chunk loop of `seal_signed`, on fuel, from a chunk on: the frames of the rest of the input.
unfoldable pub seal_chunks :
    Suite → Bytes → Bytes → Bytes → ℕ → ℕ → ℕ → ℕ → Bytes → Result Error Bytes
unfolding nonce chunk_aad
seal_chunks c dek np hash chunk total zero index rest = err truncated
seal_chunks c dek np hash chunk total (suc fuel) index rest =
    let want = min (length rest) chunk in
    let is_last = index + 1 == total in
    ok_or (c.aead_encrypt dek (nonce np index) (chunk_aad hash index is_last) (take want rest))
      envelope_seal
    >>= λ frame. elim is_last [
      | true ↦ ok frame
      | false ↦ seal_chunks c dek np hash chunk total fuel (index + 1) (drop want rest) >>= λ more.
          ok (frame ++ more)
    ]

unfoldable pub trailer : Suite → Bytes → ℕ → Bytes → Bytes
trailer c hash total frames = hash ++ (to_le_bytes 8 total ++ c.blake3 frames)

module _ (c : Suite) (f : Forms) where
  unfoldable pub seal_signed :
      Bytes → Bytes → Bytes → SealOptions → Draws → Result Error (Header × Bytes)
  unfolding trailer
  seal_signed input owner_pk sk opts draws = do
    refuse_if (opts.chunk_size == 0 || ltb max_chunk opts.chunk_size)
        (bad_chunk_size (opts.chunk_size))
    header ← make_header c f input owner_pk sk opts draws
    bytes ← encode_header c f header
    let hash = c.primitives.sha256 bytes
    let total = chunk_count (length input) opts.chunk_size
    frames ← seal_chunks c draws.dek draws.np hash opts.chunk_size total total 0 input
    let prefix = magic ++ (version_major ∷ version_minor ∷ [])
    ok (
      header,
      prefix
          ++ (to_le_bytes 4 (length bytes) ++ (bytes ++ (frames ++ trailer c hash total frames))),
    )

-- `(ver == 1) != prev.is_none()`.
abbrev pub mismatch : Bool → Option Bytes → Bool
mismatch first none = not first
mismatch first (some p) = first

unfoldable pub validate_header : Header → Result Error (Unit {0})
validate_header h = do
  let b = h.body
  refuse_if (not (b.cipher == cipher_xchacha20_poly1305_chunked)) (unsupported_cipher b.cipher)
  refuse_if (b.chunk == 0 || ltb max_chunk b.chunk) (bad_chunk_size b.chunk)
  refuse_if (b.ver == 0) (header_decode "version must be >= 1")
  refuse_if (mismatch (b.ver == 1) b.prev) (header_decode "version/prev chain mismatch")
  refuse_if (length b.own == 0 || ltb max_owner_len (length b.own))
      (header_decode "owner account length")
  refuse_if (ltb max_name_ct_len (length b.name) || ltb (length b.name) (name_pad_block + tag_len))
      (header_decode "file name field length")
  refuse_if (length b.env == 0 || ltb max_envelopes (length b.env)) (header_decode "envelope count")
  refuse_if
      (any
        (λ e. ltb max_envelope_field_len (length e.enc) || ltb max_envelope_field_len (length e.ct))
        b.env)
      (header_decode "envelope field length")

abbrev pub two_bytes : Bytes → ℕ × ℕ
two_bytes (a ∷ b ∷ r) = (a, b)
two_bytes _ = (0, 0)

module _ (c : Suite) (f : Forms) where
  unfoldable pub read_header : Bytes → Result Error (Header × Bytes × Bytes)
  unfolding decode_verified validate_header
  read_header r = do
    refuse_if (ltb (length r) 8) bad_magic
    refuse_if (not (bytes_beq (take 6 r) magic)) bad_magic
    (major, minor) ← ok (two_bytes (drop 6 r))
    refuse_if (not (major == version_major)) (unsupported_version major minor)
    refuse_if (ltb (length (drop 8 r)) 4) io
    let len = from_le_bytes (take 4 (drop 8 r))
    refuse_if (ltb max_header_len len) (header_too_large len)
    refuse_if (ltb (length (drop 12 r)) len) truncated
    (h, hash) ← decode_verified c f (take len (drop 12 r))
    validate_header h
    ok (h, hash, drop len (drop 12 r))

-- The chunk loop of `open_with_dek`, over the chunks that are left: the plaintext, the frames read
-- and what follows them.
unfoldable pub open_chunks :
    Suite → Bytes → Bytes → Bytes → ℕ → ℕ → ℕ → ℕ → ℕ → Bytes → Result Error (Bytes × Bytes × Bytes)
unfolding nonce chunk_aad
open_chunks c dek np hash chunk total zero index remaining r = ok ([], [], r)
open_chunks c dek np hash chunk total (suc left) index remaining r = do
  let want = min remaining chunk + tag_len
  refuse_if (ltb (length r) want) truncated
  let is_last = index + 1 == total
  pt ←
      ok_or (c.aead_decrypt dek (nonce np index) (chunk_aad hash index is_last) (take want r))
        (chunk_auth index)
  (plain, frames, rest) ←
      open_chunks c dek np hash chunk total left (index + 1) (remaining - (want - tag_len))
        (drop want r)
  ok (pt ++ plain, take want r ++ frames, rest)

pub record Opened : Type 0 where
  pub header : Header
  pub header_hash : Bytes
  pub file_name : Bytes

module _ (c : Suite) where
  unfoldable pub check_trailer : Bytes → ℕ → Bytes → Bytes → Result Error (Unit {0})
  check_trailer hash total frames tr = do
    refuse_if (ltb (length tr) 72) truncated
    refuse_if (not (length (drop 72 tr) == 0)) truncated
    refuse_if
        (not (bytes_beq (take 32 tr) hash)
          || not (from_le_bytes (take 8 (drop 32 tr)) == total)
          || not (bytes_beq (take 32 (drop 40 tr)) (c.blake3 frames)))
        truncated

  unfoldable pub open_with_dek : Header → Bytes → Bytes → Bytes → Result Error (Opened × Bytes)
  unfolding decrypt_name check_trailer
  open_with_dek h hash r dek = do
    file_name ← decrypt_name c h dek
    let total = chunk_count h.body.plen h.body.chunk
    (plain, frames, tr) ← open_chunks c dek h.body.np hash h.body.chunk total total 0 h.body.plen r
    check_trailer hash total frames tr
    ok (record { header = h; header_hash = hash; file_name = file_name }, plain)

-- `find` by key id.
unfoldable pub find_envelope : Bytes → List Envelope → Option Envelope
find_envelope kid [] = none
find_envelope kid (e ∷ es) = if bytes_beq e.kid kid then some e else find_envelope kid es

module _ (c : Suite) (f : Forms) where
  -- `open`, with the secret of a device's keys.
  unfoldable pub open_container : Bytes → Bytes → Result Error (Opened × Bytes)
  open_container input secret = do
    (h, hash, r) ← read_header c f input
    e ← ok_or (find_envelope (key_id_of c (c.x25519_public secret)) h.body.env) no_envelope
    dek ← unwrap c e secret h.body.fid
    open_with_dek c h hash r dek
