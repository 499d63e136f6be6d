-- ===== src/Core/Opening.antt =====
-- What `seal` writes, `open` opens: crates/zbacs-core/src/container.rs.
use z_bacs.Prelude.{
  ◌^◌, ◌<◌, ◌≡◌, refl, ◌∙◌, ap, List, ◌∷◌, ◌++◌, true, some, ok, >>=-ok, ok_or, ok_or-ok, arith,
  length,
}
use z_bacs.Prelude.Bytes.{Bytes, bytes_beq, bytes_beq_iff}
use z_bacs.Proto.External.{Signs, RoundTripsAt}
use z_bacs.Core.External.{Suite, Aead, Hpke}
use z_bacs.Core.Header.{
  Envelope, Header, Forms, wrap, unwrap, key_id_of, dek_info, envelope_seal, header_hash,
  encode_header, alg_hpke_x25519_chacha,
}
use z_bacs.Core.Container.{
  SealOptions, Draws, wrap_all, seal_signed, read_header, Opened, open_with_dek, trailer,
  chunk_count, open_container, find_envelope,
}
use z_bacs.Core.RoundTrip.{make_header-Made, open_sealed}
use z_bacs.Core.Reading.{
  seal_signed-Written, decode_verified-encode_header, read_header-front, encoded_parts,
}
use z_bacs.Core.Sealing.{Sensible, sealed-valid, make_header-Shaped}

-- What opening relies on: the laws of the ciphers, and the signature, and the lengths
-- of digests, keys and signatures.
pub record Laws (c : Suite) (sk : Bytes) : Type 0 where
  pub aead : Aead c
  pub hpke : Hpke c
  pub signs : Signs c.primitives
  pub length-sha256 : (b : Bytes) → length (c.primitives.sha256 b) ≡ 32
  pub length-blake3 : (b : Bytes) → length (c.blake3 b) ≡ 32
  pub length-public : length (c.primitives.ed25519_public sk) ≡ 32
  pub length-sig : (m : Bytes) → length (c.primitives.ed25519_sign sk m) ≡ 64

pub unwrap-wrap :
    (c : Suite) (secret dek aad : Bytes) {e : Envelope}
    → Hpke c
    → length dek ≡ 32
    → wrap c (c.x25519_public secret) dek aad ≡ ok e
    → (unwrap c e secret aad ≡ ok dek)
      × (bytes_beq e.kid (key_id_of c (c.x25519_public secret)) ≡ true)
unfolding wrap unwrap
unwrap-wrap c secret dek aad h l w =
    let pk = c.x25519_public secret in
    let ((enc, ct), s, k) = >>=-ok (ok_or (c.hpke_seal pk dek_info aad dek) envelope_seal) _ w in
    let opened = h.open-seal secret dek_info aad dek (ok_or-ok _ envelope_seal s) in
    let alg = (bytes_beq_iff alg_hpke_x25519_chacha alg_hpke_x25519_chacha).1 refl in
    let id = (bytes_beq_iff (key_id_of c pk) (key_id_of c pk)).1 refl in
    (ground (arith, k, opened, alg, l), ground (arith, k, id))

-- The owner's envelope is found, and gives the data key.
owner_key :
    (c : Suite) (secret dek fid : Bytes) (pks : List Bytes) {es : List Envelope}
    → Hpke c
    → length dek ≡ 32
    → wrap_all c dek fid (c.x25519_public secret ∷ pks) ≡ ok es
    → (e : Envelope) × (find_envelope (key_id_of c (c.x25519_public secret)) es ≡ some e)
      × (unwrap c e secret fid ≡ ok dek)
unfolding wrap_all find_envelope
owner_key c secret dek fid pks h l w =
    let (e, we, w₁) = >>=-ok (wrap c (c.x25519_public secret) dek fid) _ w in
    let (es, wes, w₂) = >>=-ok (wrap_all c dek fid pks) _ w₁ in
    let (opened, found) = unwrap-wrap c secret dek fid h l we in
    (e, ground (arith, w₂, found), opened)

opens :
    (c : Suite) (f : Forms) (input secret hash r dek : Bytes) (h : Header) (e : Envelope)
    {opened : Opened × Bytes}
    → read_header c f input ≡ ok (h, hash, r)
    → find_envelope (key_id_of c (c.x25519_public secret)) h.body.env ≡ some e
    → unwrap c e secret h.body.fid ≡ ok dek
    → open_with_dek c h hash r dek ≡ ok opened
    → open_container c f input secret ≡ ok opened
unfolding open_container
opens c f input secret hash r dek h e a b d o = rw (a, b, d, o) refl

header_hash-encoded :
    (c : Suite) (f : Forms) (h : Header) {bytes : Bytes}
    → encode_header c f h ≡ ok bytes
    → header_hash c f h ≡ ok (c.primitives.sha256 bytes)
unfolding header_hash
header_hash-encoded c f h e = rw e refl

-- What `seal` writes for an owner: it reads back to the header that `seal` returned, with its hash,
-- and to contents that the data key opens; the owner's secret gives that key.
pub record Reads (c : Suite) (f : Forms) (input secret : Bytes) (opts : SealOptions) (draws : Draws)
    (h : Header) (out : Bytes) : Type 0 where
  pub hash : Bytes
  pub rest : Bytes
  pub mine : Envelope
  pub hashed : header_hash c f h ≡ ok hash
  pub read : read_header c f out ≡ ok (h, hash, rest)
  pub found : find_envelope (key_id_of c (c.x25519_public secret)) h.body.env ≡ some mine
  pub unwrapped : unwrap c mine secret h.body.fid ≡ ok draws.dek
  pub opened :
      open_with_dek c h hash rest draws.dek
      ≡ ok (record { header = h; header_hash = hash; file_name = opts.file_name }, input)

pub seal_signed-Reads :
    (c : Suite) (f : Forms) (input secret sk : Bytes) (opts : SealOptions) (draws : Draws)
    (h : Header) (out : Bytes)
    → Laws c sk
    → RoundTripsAt f.header h
    → Sensible opts
    → c.is_utf8 opts.file_name ≡ true
    → length draws.dek ≡ 32
    → length input < 2 ^ 64
    → seal_signed c f input (c.x25519_public secret) sk opts draws ≡ ok (h, out)
    → Reads c f input secret opts draws h out
seal_signed-Reads c f input secret sk opts draws h out g trips good u l small sealed =
    let owner = c.x25519_public secret in
    let w = seal_signed-Written c f input owner sk opts draws sealed in
    let m = make_header-Made c f input owner sk opts draws w.made in
    let s = make_header-Shaped c f input owner sk opts draws w.made in
    let hash = c.primitives.sha256 w.bytes in
    let (_, short) = encoded_parts c f h w.encoded in
    let valid = sealed-valid c f input owner sk opts draws h out g.aead g.hpke good l w in
    let decoded =
      decode_verified-encode_header c f s.body sk g.signs trips g.length-public g.length-sig
        s.signed w.encoded in
    let rest = w.frames ++ trailer c hash (chunk_count (length input) opts.chunk_size) w.frames in
    let read =
      ap (read_header c f) w.written
      ∙ read_header-front c f w.bytes rest hash h short decoded valid in
    let (e, found, unwrapped) =
      owner_key c secret draws.dek h.body.fid opts.extra_recipients g.hpke l s.env in
    let opened =
      open_sealed c f input hash w.frames opts draws h g.aead u (g.length-sha256 w.bytes)
        (g.length-blake3 w.frames) small w.chunked m w.sealed in
    record {
      hash = hash;
      rest = rest;
      mine = e;
      hashed = header_hash-encoded c f h w.encoded;
      read = read;
      found = found;
      unwrapped = unwrapped;
      opened = opened;
    }

-- Whatever `seal` writes for an owner, the owner opens: to the same bytes, under the same name, with
-- the header that `seal` returned and its hash. The file is shorter than 2^64 bytes, its name is
-- UTF-8, the data key is 32 bytes, the account and the recipients are within the header's limits,
-- a previous version is numbered from 1, and the header's encoding is read back to it.
pub open_container-seal_signed :
    (c : Suite) (f : Forms) (input secret sk : Bytes) (opts : SealOptions) (draws : Draws)
    (h : Header) (out : Bytes)
    → Laws c sk
    → RoundTripsAt f.header h
    → Sensible opts
    → c.is_utf8 opts.file_name ≡ true
    → length draws.dek ≡ 32
    → length input < 2 ^ 64
    → seal_signed c f input (c.x25519_public secret) sk opts draws ≡ ok (h, out)
    → (hash : Bytes) × (header_hash c f h ≡ ok hash)
      × (open_container c f out secret
          ≡ ok (record { header = h; header_hash = hash; file_name = opts.file_name }, input))
open_container-seal_signed c f input secret sk opts draws h out g trips good u l small sealed =
    let r = seal_signed-Reads c f input secret sk opts draws h out g trips good u l small sealed in
    (
      r.hash,
      r.hashed,
      opens c f out secret r.hash r.rest draws.dek h r.mine r.read r.found r.unwrapped r.opened,
    )
