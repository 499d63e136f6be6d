-- ===== src/Core/RoundTrip.antt =====
-- Seal and open of crates/zbacs-core/src/container.rs: what was sealed opens to the same file.
use z_bacs.Prelude.{
  ℕ, ◌+◌, ◌-◌, ◌*◌, ◌^◌, ◌≤◌, ◌<◌, ◌≡◌, refl, sym, ◌∙◌, ap, ◌++◌, true, false, some, ok, >>=-ok,
  ok_or-ok, arith, ltb, ◌==◌, ==_iff, Bool-cases, inl, inr, length, length-append, take, drop,
  take-all, take-at, drop-at, length-drop, append_assoc,
}
use native.Mathlib.Nat.{lt-div-mul-add, div-lt_iff_lt-mul}
use z_bacs.Prelude.Bytes.{
  Bytes, bytes_beq_iff, codes, to_le_bytes, from_le_bytes, length-to_le_bytes, from-to_le_bytes,
}
use z_bacs.Core.External.{Suite, Aead}
use z_bacs.Core.Header.{envelope_seal, Header, Forms, sign_header}
use z_bacs.Core.Name.{pad_name}
use z_bacs.Core.Padding.{unpad_name-pad_name}
use z_bacs.Core.Container.{
  name_index, nonce, SealOptions, Draws, encrypt_name, decrypt_name, make_header, chunk_count,
  seal_chunks, trailer, check_trailer, open_with_dek,
}
use z_bacs.Core.Chunks.{open_chunks-seal_chunks}

pub encrypt_name-sealed :
    (c : Suite) (dek np name : Bytes) {ct : Bytes}
    → encrypt_name c dek np name ≡ ok ct
    → (padded : Bytes) × (pad_name name ≡ ok padded)
      × (c.aead_encrypt dek (nonce np name_index) (codes "name") padded ≡ some ct)
unfolding encrypt_name
encrypt_name-sealed c dek np name h =
    let (padded, e, k) = >>=-ok _ _ h in (padded, e, ok_or-ok _ envelope_seal k)

-- The fields of a header that was made, as far as opening reads them.
pub record Made (c : Suite) (input : Bytes) (opts : SealOptions) (draws : Draws) (h : Header)
    : Type 0 where
  pub np : h.body.np ≡ draws.np
  pub chunk : h.body.chunk ≡ opts.chunk_size
  pub plen : h.body.plen ≡ length input
  pub name : encrypt_name c draws.dek draws.np opts.file_name ≡ ok h.body.name

pub make_header-Made :
    (c : Suite) (f : Forms) (input owner_pk sk : Bytes) (opts : SealOptions) (draws : Draws)
    {h : Header}
    → make_header c f input owner_pk sk opts draws ≡ ok h
    → Made c input opts draws h
unfolding make_header sign_header
make_header-Made c f input owner_pk sk opts draws e = record {
  np = ground arith;
  chunk = ground arith;
  plen = ground arith;
  name = ground arith;
}

decrypt_name-sealed :
    (c : Suite) (input : Bytes) (opts : SealOptions) (draws : Draws) (h : Header)
    → Aead c
    → c.is_utf8 opts.file_name ≡ true
    → Made c input opts draws h
    → decrypt_name c h draws.dek ≡ ok opts.file_name
unfolding decrypt_name
decrypt_name-sealed c input opts draws h a u v =
    let (padded, p, e) = encrypt_name-sealed c draws.dek draws.np opts.file_name v.name in
    rw (v.np, a.decrypt-encrypt _ _ _ _ e) (unpad_name-pad_name c opts.file_name u p)

accepted :
    (c : Suite) (hash : Bytes) (total : ℕ) (frames end : Bytes)
    → length end ≡ 72
    → length (drop 72 end) ≡ 0
    → take 32 end ≡ hash
    → from_le_bytes (take 8 (drop 32 end)) ≡ total
    → take 32 (drop 40 end) ≡ c.blake3 frames
    → check_trailer c hash total frames end ≡ ok tt
unfolding check_trailer
accepted c hash total frames end l z a n d =
    let ha = (bytes_beq_iff (take 32 end) hash).1 a in
    let hd = (bytes_beq_iff (take 32 (drop 40 end)) (c.blake3 frames)).1 d in
    let long : ltb (length end) 72 ≡ false = ground arith in
    let count : (from_le_bytes (take 8 (drop 32 end)) == total) ≡ true =
      (==_iff (from_le_bytes (take 8 (drop 32 end))) total).1 n in
    rw (long, z, ha, count, hd) refl

-- A trailer that was written is accepted.
check_trailer-trailer :
    (c : Suite) (hash : Bytes) (total : ℕ) (frames : Bytes)
    → length hash ≡ 32
    → length (c.blake3 frames) ≡ 32
    → total < 2 ^ 64
    → check_trailer c hash total frames (trailer c hash total frames) ≡ ok tt
unfolding trailer
check_trailer-trailer c hash total frames lh lb t =
    let words = to_le_bytes 8 total in
    let lw : length words ≡ 8 = length-to_le_bytes 8 total in
    let end = hash ++ (words ++ c.blake3 frames) in
    let la = length-append words (c.blake3 frames) in
    let l : length end ≡ 72 = omega (arith, length-append hash (words ++ c.blake3 frames), la) in
    let lhw : length (hash ++ words) ≡ 40 = omega (arith, length-append hash words) in
    let a = take-at 32 hash (words ++ c.blake3 frames) lh in
    let b : take 8 (drop 32 end) ≡ words =
      ap (take 8) (drop-at 32 hash (words ++ c.blake3 frames) lh)
      ∙ take-at 8 words (c.blake3 frames) lw in
    let n : from_le_bytes (take 8 (drop 32 end)) ≡ total =
      ap from_le_bytes b ∙ from-to_le_bytes 8 total t in
    let d : take 32 (drop 40 end) ≡ c.blake3 frames =
      ap (λ x. take 32 (drop 40 x)) (sym (append_assoc hash words (c.blake3 frames)))
      ∙ ap (take 32) (drop-at 40 (hash ++ words) (c.blake3 frames) lhw)
      ∙ take-all 32 (c.blake3 frames) (omega arith) in
    let z : length (drop 72 end) ≡ 0 = length-drop 72 end ∙ omega arith in
    accepted c hash total frames end l z a n d

chunk_count-covers : (n chunk : ℕ) → 0 < chunk → n ≤ chunk_count n chunk * chunk
unfolding chunk_count
chunk_count-covers n chunk h = elim (Bool-cases (n == 0)) [
  | inl none_left ↦ rw none_left (omega (arith, (==_iff n 0).0 none_left))
  | inr some_left ↦ rw some_left (omega (arith, lt-div-mul-add {a = n + (chunk - 1)} h))
]

chunk_count-lt : (n chunk : ℕ) → 0 < chunk → n < 2 ^ 64 → chunk_count n chunk < 2 ^ 64
unfolding chunk_count
chunk_count-lt n chunk h l = elim (Bool-cases (n == 0)) [
  | inl none_left ↦ rw none_left (omega arith)
  | inr some_left ↦ rw some_left ((div-lt_iff_lt-mul h).1 (omega arith))
]

pub open_sealed :
    (c : Suite) (f : Forms) (input hash frames : Bytes) (opts : SealOptions) (draws : Draws)
    (h : Header)
    → Aead c
    → c.is_utf8 opts.file_name ≡ true
    → length hash ≡ 32
    → length (c.blake3 frames) ≡ 32
    → length input < 2 ^ 64
    → 0 < opts.chunk_size
    → Made c input opts draws h
    → seal_chunks c draws.dek draws.np hash opts.chunk_size
        (chunk_count (length input) opts.chunk_size)
        (chunk_count (length input) opts.chunk_size)
        0
        input
      ≡ ok frames
    → open_with_dek c h hash
        (frames ++ trailer c hash (chunk_count (length input) opts.chunk_size) frames)
        draws.dek
      ≡ ok (record { header = h; header_hash = hash; file_name = opts.file_name }, input)
unfolding open_with_dek
open_sealed c f input hash frames opts draws h a u lh lb small chunked v sealed =
    let total = chunk_count (length input) opts.chunk_size in
    let chunks =
      open_chunks-seal_chunks c draws.dek draws.np hash opts.chunk_size total total 0 input
        (trailer c hash total frames) a (omega arith)
        (chunk_count-covers (length input) opts.chunk_size chunked) sealed in
    let trailed =
      check_trailer-trailer c hash total frames lh lb
        (chunk_count-lt (length input) opts.chunk_size chunked small) in
    rw (decrypt_name-sealed c input opts draws h a u v)
      (rw (v.plen, v.chunk, v.np) (rw chunks (rw trailed refl)))
