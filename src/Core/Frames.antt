-- ===== src/Core/Frames.antt =====
-- The frames that `seal_signed` of crates/zbacs-core/src/container.rs writes.
use z_bacs.Prelude.{
  ℕ, zero, suc, ◌+◌, ◌-◌, ◌*◌, ◌/◌, ◌≤◌, ◌<◌, ◌≡◌, refl, sym, ◌∙◌, inl, inr, [], ◌∷◌, ◌++◌, true,
  false, some, ok, arith, ◌==◌, ==_iff, Bool-cases, length, length-take, length-drop, take, drop,
  take-append-drop, take-all, min, subst,
}
use native.Mathlib.Nat.{suc-mul, div-mul-le_self, lt-div-mul-add}
use z_bacs.Prelude.Bytes.{Bytes, to_le_bytes}
use z_bacs.Core.External.{Suite}
use z_bacs.Core.Container.{nonce, chunk_aad, chunk_count, seal_chunks}

-- The frames of a plaintext from a chunk's number on: each chunk but the last is full, and is
-- encrypted under the prefix and its number, with the header's hash, its number and a 0 beside it;
-- the last one has a 1.
pub data Frames (c : Suite) (dek np hash : Bytes) (chunk total : ℕ)
    : ℕ → Bytes → Bytes → Type 0 where
  last :
      {index : ℕ} {piece frame : Bytes}
      → index + 1 ≡ total
      → length piece ≤ chunk
      → c.aead_encrypt dek
          (np ++ to_le_bytes 8 index)
          (hash ++ (to_le_bytes 8 index ++ (1 ∷ [])))
          piece
        ≡ some frame
      → Frames c dek np hash chunk total index piece frame
  then :
      {index : ℕ} {piece frame rest frames : Bytes}
      → index + 1 < total
      → length piece ≡ chunk
      → c.aead_encrypt dek
          (np ++ to_le_bytes 8 index)
          (hash ++ (to_le_bytes 8 index ++ (0 ∷ [])))
          piece
        ≡ some frame
      → Frames c dek np hash chunk total (index + 1) rest frames
      → Frames c dek np hash chunk total index (piece ++ rest) (frame ++ frames)

-- A cipher that refuses nothing.
abbrev pub Accepts : Suite → Type 0
Accepts c = (k n a m : Bytes) → (ct : Bytes) × (c.aead_encrypt k n a m ≡ some ct)

module _ (c : Suite) (dek np hash : Bytes) (chunk total : ℕ) (accepts : Accepts c) where
  abbrev Made : ℕ → ℕ → Bytes → Type 0
  Made fuel index rest =
      (frames : Bytes) × (seal_chunks c dek np hash chunk total fuel index rest ≡ ok frames)
      × Frames c dek np hash chunk total index rest frames

  last-Made :
      (fuel index : ℕ) (rest : Bytes)
      → index + 1 ≡ total
      → length rest ≤ chunk
      → Made (suc fuel) index rest
  unfolding seal_chunks nonce chunk_aad
  last-Made fuel index rest t small =
      let (frame, e) =
        accepts dek (np ++ to_le_bytes 8 index) (hash ++ (to_le_bytes 8 index ++ (1 ∷ []))) rest in
      let is : (index + 1 == total) ≡ true = (==_iff (index + 1) total).1 t in
      let whole = take-all (min (length rest) chunk) rest (omega arith) in
      (frame, rw (is, whole, e) refl, last t small e)

  then-Made :
      (fuel index : ℕ) (rest : Bytes)
      → index + 1 < total
      → chunk ≤ length rest
      → Made fuel (index + 1) (drop chunk rest)
      → Made (suc fuel) index rest
  unfolding seal_chunks nonce chunk_aad
  then-Made fuel index rest t long (frames, made, framed) =
      let piece = take chunk rest in
      let (frame, e) =
        accepts dek (np ++ to_le_bytes 8 index) (hash ++ (to_le_bytes 8 index ++ (0 ∷ []))) piece in
      let is : (index + 1 == total) ≡ false = ground arith in
      let want : min (length rest) chunk ≡ chunk = omega arith in
      let full : length piece ≡ chunk = length-take chunk rest ∙ (omega arith) in
      (
        frame ++ frames,
        rw (is, want, e, made) refl,
        subst (λ x. Frames c dek np hash chunk total index x (frame ++ frames))
            (take-append-drop chunk rest) (then t full e framed),
      )

  Made-from :
      (fuel index : ℕ) (rest : Bytes)
      → index + suc fuel ≡ total
      → fuel * chunk ≤ length rest
      → length rest ≤ suc fuel * chunk
      → Made (suc fuel) index rest
  Made-from zero index rest t least most =
      last-Made 0 index rest (omega arith) (omega (arith, suc-mul 0 chunk))
  Made-from (suc fuel) index rest t least most =
      let left = length-drop chunk rest in
      then-Made (suc fuel) index rest (omega arith) (omega (arith, suc-mul fuel chunk)) (
        Made-from fuel (index + 1) (drop chunk rest) (omega arith)
          (omega (arith, left, suc-mul fuel chunk))
          (omega (arith, left, suc-mul fuel chunk, suc-mul (suc fuel) chunk)))

counted_up :
    (t n chunk : ℕ)
    → 0 < chunk
    → 0 < n
    → n + (chunk - 1) < t * chunk + chunk
    → t * chunk ≤ n + (chunk - 1)
    → (fuel : ℕ) × (t ≡ suc fuel) × (fuel * chunk ≤ n) × (n ≤ suc fuel * chunk)
counted_up zero n chunk h some_left least most = absurd (omega arith)
counted_up (suc fuel) n chunk h some_left least most =
    (fuel, refl, omega (arith, suc-mul fuel chunk), omega (arith, suc-mul fuel chunk))

-- The number of chunks: one at least, all full but the last.
counted :
    (n chunk : ℕ)
    → 0 < chunk
    → (fuel : ℕ) × (chunk_count n chunk ≡ suc fuel) × (fuel * chunk ≤ n) × (n ≤ suc fuel * chunk)
unfolding chunk_count
counted n chunk h = elim (Bool-cases (n == 0)) [
  | inl none_left ↦
      let empty = (==_iff n 0).0 none_left in
      (0, rw none_left refl, omega (arith, empty), omega (arith, empty))
  | inr some_left ↦
      let most = div-mul-le_self (n + (chunk - 1)) chunk in
      let positive : 0 < n = ground arith in
      rw some_left (
        counted_up ((n + (chunk - 1)) / chunk) n chunk h positive
          (lt-div-mul-add {a = n + (chunk - 1)} h) most)
]

-- Where the cipher refuses nothing, the chunk loop of `seal_signed`, given the number of chunks as
-- its fuel, writes the frames of the whole input: each chunk is full but the last, and is encrypted
-- with a nonce of the prefix and its number, and beside the header's hash, its number, and
-- whether it is the last.
pub seal_chunks-Frames :
    (c : Suite) (dek np hash : Bytes) (chunk : ℕ) (input : Bytes)
    → Accepts c
    → 0 < chunk
    → (frames : Bytes) × (seal_chunks c dek np hash chunk
          (chunk_count (length input) chunk)
          (chunk_count (length input) chunk)
          0
          input
        ≡ ok frames)
      × Frames c dek np hash chunk (chunk_count (length input) chunk) 0 input frames
seal_chunks-Frames c dek np hash chunk input accepts h =
    let (fuel, is, least, most) = counted (length input) chunk h in
    subst
      (λ n.
        (frames : Bytes) × (seal_chunks c dek np hash chunk n n 0 input ≡ ok frames)
        × Frames c dek np hash chunk n 0 input frames)
      (sym is)
      (Made-from c dek np hash chunk (suc fuel) accepts fuel 0 input (omega arith) least most)
