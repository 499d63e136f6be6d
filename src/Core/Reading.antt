-- ===== src/Core/Reading.antt =====
-- `read_header` of crates/zbacs-core/src/container.rs on what `seal_signed` wrote.
use z_bacs.Prelude.{
  ℕ, ◌≤◌, ◌<◌, ◌≡◌, ◌⊎◌, inl, inr, String, refl, sym, ◌∙◌, ap, [], ◌∷◌, ◌++◌, true, false, some,
  Result, ok, err, >>=-ok, arith, ltb, ◌==◌, ◌||◌, refuse_if, length, length-append, take, drop,
  take-append, drop-append,
}
use z_bacs.Prelude.Bytes.{Bytes, bytes_beq, to_le_bytes, from_le_bytes, from-to_le_bytes}
use z_bacs.Proto.External.{Signs, RoundTripsAt}
use z_bacs.Core.External.{Suite}
use z_bacs.Core.Header.{
  Header, Forms, sign_header, encode_header, verify_header, decode_verified, max_header_len,
  HeaderBody, bad_chunk_size, hdr_sig_domain,
}
use z_bacs.Core.Container.{
  SealOptions, Draws, make_header, chunk_count, seal_chunks, trailer, seal_signed, max_chunk, magic,
  version_major, version_minor, read_header, validate_header, two_bytes,
}

abbrev pub front : Bytes → Bytes
front bytes = magic ++ (version_major ∷ version_minor ∷ []) ++ to_le_bytes 4 (length bytes)

-- The parts of what `seal_signed` writes.
pub record Written (c : Suite) (f : Forms) (input owner_pk sk : Bytes) (opts : SealOptions)
    (draws : Draws) (h : Header) (out : Bytes) : Type 0 where
  pub bytes : Bytes
  pub frames : Bytes
  pub made : make_header c f input owner_pk sk opts draws ≡ ok h
  pub encoded : encode_header c f h ≡ ok bytes
  pub sealed :
      seal_chunks c draws.dek draws.np
        (c.primitives.sha256 bytes)
        opts.chunk_size
        (chunk_count (length input) opts.chunk_size)
        (chunk_count (length input) opts.chunk_size)
        0
        input
      ≡ ok frames
  pub chunked : 0 < opts.chunk_size
  pub bounded : opts.chunk_size ≤ max_chunk
  pub written :
      out
      ≡ magic
        ++ (version_major ∷ version_minor ∷ [])
        ++ (to_le_bytes 4 (length bytes)
            ++ (bytes
                ++ (frames
                    ++ trailer c
                        (c.primitives.sha256 bytes)
                        (chunk_count (length input) opts.chunk_size)
                        frames)))

pub seal_signed-Written :
    (c : Suite) (f : Forms) (input owner_pk sk : Bytes) (opts : SealOptions) (draws : Draws)
    {h : Header} {out : Bytes}
    → seal_signed c f input owner_pk sk opts draws ≡ ok (h, out)
    → Written c f input owner_pk sk opts draws h out
unfolding seal_signed
seal_signed-Written c f input owner_pk sk opts draws {h = h} e =
    let (_, g, e₁) =
      >>=-ok
        (refuse_if (opts.chunk_size == 0 || ltb max_chunk opts.chunk_size)
          (bad_chunk_size opts.chunk_size))
        _ e in
    let (h', m, e₂) = >>=-ok (make_header c f input owner_pk sk opts draws) _ e₁ in
    let (bytes, b, e₃) = >>=-ok (encode_header c f h') _ e₂ in
    let (frames, s, e₄) =
      >>=-ok
        (seal_chunks c draws.dek draws.np (c.primitives.sha256 bytes) opts.chunk_size
          (chunk_count (length input) opts.chunk_size) (chunk_count (length input) opts.chunk_size)
          0 input)
        _ e₃ in
    let same : h' ≡ h = ground (arith, e₄) in
    record {
      bytes = bytes;
      frames = frames;
      made = m ∙ ap ok same;
      encoded = ap (encode_header c f) (sym same) ∙ b;
      sealed = s;
      chunked = ground (arith, g);
      bounded = ground (arith, g);
      written = ground (arith, e₄);
    }

abbrev as_signed : Suite → HeaderBody → Bytes → Bytes → Header
as_signed c body sk b = record {
  body = body;
  sigk = c.primitives.ed25519_public sk;
  sig = c.primitives.ed25519_sign sk (hdr_sig_domain ++ b);
}

written_or_not :
    (x : Result String Bytes) → ((b : Bytes) × (x ≡ ok b)) ⊎ ((why : String) × (x ≡ err why))
written_or_not (ok b) = inl (b, refl)
written_or_not (err why) = inr (why, refl)

sign_header-signed :
    (c : Suite) (f : Forms) (body : HeaderBody) (sk : Bytes) {h : Header}
    → sign_header c f body sk ≡ ok h
    → (b : Bytes) × (f.body.into_writer body ≡ ok b) × (h ≡ as_signed c body sk b)
unfolding sign_header
sign_header-signed c f body sk s = elim (written_or_not (f.body.into_writer body)) [
  | inl (b, w) ↦ (b, w, ground (arith, w))
  | inr (why, w) ↦ absurd (ground (arith, w))
]

verify_header-signed :
    (c : Suite) (f : Forms) (body : HeaderBody) (sk b : Bytes)
    → Signs c.primitives
    → length (c.primitives.ed25519_public sk) ≡ 32
    → ((m : Bytes) → length (c.primitives.ed25519_sign sk m) ≡ 64)
    → f.body.into_writer body ≡ ok b
    → verify_header c f (as_signed c body sk b) ≡ ok tt
unfolding verify_header
verify_header-signed c f body sk b g lk ls w =
    rw (lk, g.public-is_key sk, ls (hdr_sig_domain ++ b), w, g.verify-sign sk (hdr_sig_domain ++ b))
      refl

pub encoded_parts :
    (c : Suite) (f : Forms) (h : Header) {bytes : Bytes}
    → encode_header c f h ≡ ok bytes
    → (f.header.into_writer h ≡ ok bytes) × (length bytes ≤ max_header_len)
unfolding encode_header
encoded_parts c f h e = ground arith

decoded :
    (c : Suite) (f : Forms) (h : Header) (bytes : Bytes)
    → length bytes ≤ max_header_len
    → f.header.from_reader bytes ≡ some h
    → verify_header c f h ≡ ok tt
    → decode_verified c f bytes ≡ ok (h, c.primitives.sha256 bytes)
unfolding decode_verified
decoded c f h bytes l r v =
    let small : ltb max_header_len (length bytes) ≡ false = ground arith in rw (small, r, v) refl

-- A header that was signed and encoded decodes to itself.
pub decode_verified-encode_header :
    (c : Suite) (f : Forms) (body : HeaderBody) (sk : Bytes) {h : Header} {bytes : Bytes}
    → Signs c.primitives
    → RoundTripsAt f.header h
    → length (c.primitives.ed25519_public sk) ≡ 32
    → ((m : Bytes) → length (c.primitives.ed25519_sign sk m) ≡ 64)
    → sign_header c f body sk ≡ ok h
    → encode_header c f h ≡ ok bytes
    → decode_verified c f bytes ≡ ok (h, c.primitives.sha256 bytes)
decode_verified-encode_header c f body sk g t lk ls s e =
    let (b, w, same) = sign_header-signed c f body sk s in
    let (written, small) = encoded_parts c f _ e in
    decoded c f _ _ small (t.read-written _ written)
      (ap (verify_header c f) same ∙ verify_header-signed c f body sk b g lk ls w)

read-parts :
    (c : Suite) (f : Forms) (r : Bytes) (len : ℕ) (bytes rest hash : Bytes) (h : Header)
    → ltb (length r) 8 ≡ false
    → bytes_beq (take 6 r) magic ≡ true
    → two_bytes (drop 6 r) ≡ (version_major, version_minor)
    → ltb (length (drop 8 r)) 4 ≡ false
    → from_le_bytes (take 4 (drop 8 r)) ≡ len
    → ltb max_header_len len ≡ false
    → ltb (length (drop 12 r)) len ≡ false
    → take len (drop 12 r) ≡ bytes
    → drop len (drop 12 r) ≡ rest
    → decode_verified c f bytes ≡ ok (h, hash)
    → validate_header h ≡ ok tt
    → read_header c f r ≡ ok (h, hash, rest)
unfolding read_header
read-parts c f r len bytes rest hash h l m two l₈ e max l₁₂ t d dec val =
    rw (l, m, two, l₈, e, max, l₁₂, t, d, dec, val) refl

-- A container that starts with a well-formed header is read as that header and what follows it.
pub read_header-front :
    (c : Suite) (f : Forms) (bytes rest hash : Bytes) (h : Header)
    → length bytes ≤ max_header_len
    → decode_verified c f bytes ≡ ok (h, hash)
    → validate_header h ≡ ok tt
    → read_header c f (
        magic
        ++ (version_major ∷ version_minor ∷ [])
        ++ (to_le_bytes 4 (length bytes) ++ (bytes ++ rest)))
      ≡ ok (h, hash, rest)
unfolding to_le_bytes bytes_beq
read_header-front c f bytes rest hash h small dec val =
    let long = length-append bytes rest in
    read-parts c f _ (length bytes) bytes rest hash h (ground arith) refl refl (ground arith)
      (from-to_le_bytes 4 (length bytes) (omega arith)) (ground arith) (ground arith)
      (take-append bytes rest) (drop-append bytes rest) dec val
