-- ===== src/Core/Chunks.antt =====
-- The chunk stream of crates/zbacs-core/src/container.rs: what `seal_signed` writes, `open_with_dek`
-- reads.
use z_bacs.Prelude.{
  ℕ, zero, suc, ◌+◌, ◌-◌, ◌*◌, ◌≤◌, ◌≡◌, refl, sym, ◌∙◌, ap, ◌⊎◌, ◌≢◌, inl, inr, [], ◌++◌,
  append-nil, append_assoc, true, false, some, Result, ok, >>=-ok, ok_or-ok, arith, ltb, ◌==◌,
  ==_iff, Bool-cases, length, length-append, length-take, length-drop, take, drop, take-append,
  drop-append, take-append-drop, take-all, min,
}
use native.Mathlib.Nat.{suc-mul}
use z_bacs.Prelude.Bytes.{Bytes}
use z_bacs.Core.External.{Suite, Aead}
use z_bacs.Core.Header.{Error, envelope_seal}
use z_bacs.Core.Container.{nonce, chunk_aad, seal_chunks, open_chunks}

-- What is left of the input after one chunk.
abbrev one : ℕ → Bytes → ℕ
one chunk rest = min (length rest) chunk

-- The frame of a chunk is written, and then the others unless it is the last.
abbrev Sealed : Suite → Bytes → Bytes → Bytes → ℕ → ℕ → ℕ → ℕ → Bytes → Bytes → Type 0
Sealed c dek np hash chunk total fuel index rest frames =
    (frame : Bytes) × (c.aead_encrypt dek (nonce np index)
        (chunk_aad hash index (index + 1 == total)) (take (one chunk rest) rest)
      ≡ some frame)
    × (((index + 1 == total) ≡ true) × (frames ≡ frame)
        ⊎ (((index + 1 == total) ≡ false)
            × ((more : Bytes) × (seal_chunks c dek np hash chunk total fuel (index + 1)
                    (drop (one chunk rest) rest)
                  ≡ ok more)
                × (frames ≡ frame ++ more))))

seal_chunks-Sealed :
    (c : Suite) (dek np hash : Bytes) (chunk total fuel index : ℕ) (rest : Bytes) {frames : Bytes}
    → seal_chunks c dek np hash chunk total (suc fuel) index rest ≡ ok frames
    → Sealed c dek np hash chunk total fuel index rest frames
unfolding seal_chunks
seal_chunks-Sealed c dek np hash chunk total fuel index rest h =
    let (frame, e, k) = >>=-ok _ _ h in
    (
      frame,
      ok_or-ok _ envelope_seal e,
      elim (Bool-cases (index + 1 == total)) [
        | inl last ↦ inl (last, ground (arith, rw last at k))
        | inr not_last ↦
            let (more, m, w) = >>=-ok _ _ (rw not_last at k) in
            inr (not_last, (more, m, ground (arith, w)))
      ],
    )

open-step :
    (c : Suite) (dek np hash : Bytes) (chunk total left index remaining : ℕ)
    (frame r pt plain frames rest : Bytes)
    → length frame ≡ min remaining chunk + 16
    → c.aead_decrypt dek (nonce np index) (chunk_aad hash index (index + 1 == total)) frame
      ≡ some pt
    → open_chunks c dek np hash chunk total left (index + 1) (remaining - min remaining chunk) r
      ≡ ok (plain, frames, rest)
    → open_chunks c dek np hash chunk total (suc left) index remaining (frame ++ r)
      ≡ ok (pt ++ plain, frame ++ frames, rest)
unfolding open_chunks
open-step c dek np hash chunk total left index remaining frame r pt plain frames rest l d h =
    let long = length-append frame r in
    let first : take (min remaining chunk + 16) (frame ++ r) ≡ frame =
      ap (λ n. take n (frame ++ r)) (sym l) ∙ take-append frame r in
    let after : drop (min remaining chunk + 16) (frame ++ r) ≡ r =
      ap (λ n. drop n (frame ++ r)) (sym l) ∙ drop-append frame r in
    let n : remaining - (min remaining chunk + 16 - 16) ≡ remaining - min remaining chunk =
      omega arith in
    let enough : ltb (length (frame ++ r)) (min remaining chunk + 16) ≡ false = ground arith in
    rw (enough, first, after, n, d, h) refl

unsealed :
    (c : Suite) (dek np hash : Bytes) (chunk total index : ℕ) (rest : Bytes) {frames : Bytes}
    → seal_chunks c dek np hash chunk total 0 index rest ≢ ok frames
unfolding seal_chunks
unsealed c dek np hash chunk total index rest h = cc

chunk_fits : (fuel chunk n : ℕ) → fuel ≡ 0 → n ≤ suc fuel * chunk → n ≤ chunk
chunk_fits fuel chunk n done h = omega (arith, suc-mul fuel chunk, ap (λ x. x * chunk) done)

others_fit : (fuel chunk n : ℕ) → n ≤ suc fuel * chunk → n - min n chunk ≤ fuel * chunk
others_fit fuel chunk n h = omega (arith, suc-mul fuel chunk)

joined_last :
    (pt rest frame tail : Bytes)
    → pt ≡ rest
    → ◌≡◌ {A = Result Error (Bytes × Bytes × Bytes)}
        (ok (pt ++ [], frame ++ [], tail))
        (ok (rest, frame, tail))
joined_last pt rest frame tail e = rw (append-nil pt, append-nil frame, e) refl

-- The frames that are sealed are opened to the same bytes, and what follows them is left, if the
-- fuel is the number of chunks that are left and these hold the rest of the input.
pub open_chunks-seal_chunks :
    (c : Suite) (dek np hash : Bytes) (chunk total fuel index : ℕ) (rest tail : Bytes)
    {frames : Bytes}
    → Aead c
    → index + fuel ≡ total
    → length rest ≤ fuel * chunk
    → seal_chunks c dek np hash chunk total fuel index rest ≡ ok frames
    → open_chunks c dek np hash chunk total fuel index (length rest) (frames ++ tail)
      ≡ ok (rest, frames, tail)
open_chunks-seal_chunks c dek np hash chunk total zero index rest tail a t l h =
    absurd (unsealed c dek np hash chunk total index rest h)
open_chunks-seal_chunks c dek np hash chunk total (suc fuel) index rest tail {frames} a t l h =
    let (frame, e, k) = seal_chunks-Sealed c dek np hash chunk total fuel index rest h in
    let n = one chunk rest in
    let long : length frame ≡ n + 16 =
      a.length-encrypt _ _ _ _ e ∙ ap (λ x. x + 16) (length-take n rest ∙ omega arith) in
    let d = a.decrypt-encrypt _ _ _ _ e in
    elim k [
      | inl (last, whole) ↦
          let done : fuel ≡ 0 = omega (arith, (==_iff (index + 1) total).0 last) in
          let fits = chunk_fits fuel chunk (length rest) done l in
          let step =
            open-step c dek np hash chunk total 0 index (length rest) frame tail (take n rest) [] []
              tail long d (unfold open_chunks in refl) in
          rw (done, whole)
            (step
              ∙ joined_last (take n rest) rest frame tail (take-all n rest (omega (arith, fits))))
      | inr (not_last, (more, m, whole)) ↦
          let left : length (drop n rest) ≡ length rest - n = length-drop n rest in
          let fits = others_fit fuel chunk (length rest) l in
          let ih =
            open_chunks-seal_chunks c dek np hash chunk total fuel (index + 1) (drop n rest) tail a
              (omega arith) (omega (arith, left, fits)) m in
          let step =
            open-step c dek np hash chunk total fuel index (length rest) frame (more ++ tail)
              (take n rest) (drop n rest) more tail long d (rw left at ih) in
          rw whole (
            ap (open_chunks c dek np hash chunk total (suc fuel) index (length rest))
              (append_assoc frame more tail)
            ∙ step
            ∙ ap (λ x. ok (x, frame ++ more, tail)) (take-append-drop n rest))
    ]
