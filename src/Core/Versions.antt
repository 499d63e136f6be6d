-- ===== src/Core/Versions.antt =====
-- `verify_version_chain` of crates/zbacs-core/src/container.rs.
use z_bacs.Prelude.{
  ℕ, ◌+◌, ◌%◌, ◌^◌, ◌<◌, ◌≡◌, ◌↔◌, refl, sym, ◌∙◌, ap, subst, List, [], ◌∷◌, Bool, true, false, not,
  ◌||◌, Option, some, none, Result, ok, err, ◌>>=◌, ◌>>◌, >>=-ok, refuse_if, arith, ◌==◌, ==_iff,
  length,
}
use z_bacs.Prelude.Bytes.{Bytes, bytes_beq, bytes_beq_iff}
use z_bacs.Core.External.{Suite}
use z_bacs.Core.Header.{Error, broken_chain, Header, Forms, header_hash}

-- `prev != Some(hash)` and `prev.is_some()`.
abbrev pub names : Option Bytes → Bytes → Bool
names none hash = false
names (some p) hash = bytes_beq p hash

abbrev pub is_some : Option Bytes → Bool
is_some none = false
is_some (some p) = true

names_iff : (p : Option Bytes) (hash : Bytes) → (names p hash ≡ true) ↔ (p ≡ some hash)
names_iff none hash = (λ e. cc, λ e. cc)
names_iff (some p) hash = ground (arith, bytes_beq_iff p hash)

passed : (b : Bool) (e : Error) → refuse_if (not b) e ≡ ok tt → b ≡ true
passed true e h = refl
passed false e h = cc

passed_both :
    (a b : Bool) (e : Error) → refuse_if (not a || not b) e ≡ ok tt → (a ≡ true) × (b ≡ true)
passed_both true true e h = (refl, refl)
passed_both true false e h = cc
passed_both false b e h = cc

starts :
    (v : ℕ) (p : Option Bytes) (e : Error)
    → refuse_if (not (v == 1) || is_some p) e ≡ ok tt
    → (v ≡ 1) × (p ≡ none)
starts v none e h = ground arith
starts v (some p) e h = ground arith

module _ (c : Suite) (f : Forms) where
  -- The loop, after an entry with its hash.
  unfoldable pub check_links : Header → Bytes → List (Header × Bytes) → Result Error (Unit {0})
  check_links prev prev_hash [] = ok tt
  check_links prev prev_hash ((h, hash) ∷ rest) = do
    refuse_if (not (h.body.ver == (prev.body.ver + 1) % 2 ^ 32))
        (broken_chain "version numbers are not consecutive")
    refuse_if (not (names h.body.prev prev_hash))
        (broken_chain "prev does not match the previous header hash")
    refuse_if
        (not (bytes_beq h.body.fid prev.body.fid) || not (bytes_beq h.body.salt prev.body.salt))
        (broken_chain "file identity changed between versions")
    actual ← header_hash c f h
    refuse_if (not (bytes_beq actual hash)) (broken_chain "header hash does not match the header")
    check_links h hash rest

  unfoldable pub verify_version_chain : List (Header × Bytes) → Result Error (Unit {0})
  unfolding check_links
  verify_version_chain [] = err (broken_chain "empty chain")
  verify_version_chain ((first, first_hash) ∷ rest) = do
    refuse_if (not (first.body.ver == 1) || is_some first.body.prev)
        (broken_chain "chain does not start at version 1")
    check_links first first_hash rest

  -- The versions of one file after version `n`, each linked to the one before by its hash.
  abbrev pub Versions : Bytes → Bytes → ℕ → Bytes → List (Header × Bytes) → Type 0
  Versions fid salt n before [] = Unit
  Versions fid salt n before ((h, hash) ∷ rest) =
      (h.body.ver ≡ n + 1)
      × (h.body.prev ≡ some before)
      × (h.body.fid ≡ fid)
      × (h.body.salt ≡ salt)
      × (header_hash c f h ≡ ok hash)
      × Versions fid salt (n + 1) hash rest

  pub check_links-cons_iff :
      (prev : Header) (prev_hash : Bytes) (h : Header) (hash : Bytes) (rest : List (Header × Bytes))
      → prev.body.ver + 1 < 2 ^ 32
      → (check_links prev prev_hash ((h, hash) ∷ rest) ≡ ok tt) ↔ (
          (h.body.ver ≡ prev.body.ver + 1)
          × (h.body.prev ≡ some prev_hash)
          × (h.body.fid ≡ prev.body.fid)
          × (h.body.salt ≡ prev.body.salt)
          × (header_hash c f h ≡ ok hash)
          × (check_links h hash rest ≡ ok tt))
  unfolding check_links
  check_links-cons_iff prev prev_hash h hash rest small =
      let no_wrap : (prev.body.ver + 1) % 2 ^ 32 ≡ prev.body.ver + 1 = omega arith in
      let links = names_iff h.body.prev prev_hash in
      let fids = bytes_beq_iff h.body.fid prev.body.fid in
      let salts = bytes_beq_iff h.body.salt prev.body.salt in
      (
        λ e.
            let (_, v, e₁) =
              >>=-ok
                (refuse_if (not (h.body.ver == (prev.body.ver + 1) % 2 ^ 32))
                  (broken_chain "version numbers are not consecutive"))
                _ e in
            let (_, p, e₂) =
              >>=-ok
                (refuse_if (not (names h.body.prev prev_hash))
                  (broken_chain "prev does not match the previous header hash"))
                _ e₁ in
            let (_, i, e₃) =
              >>=-ok
                (refuse_if
                  (not (bytes_beq h.body.fid prev.body.fid)
                    || not (bytes_beq h.body.salt prev.body.salt))
                  (broken_chain "file identity changed between versions"))
                _ e₂ in
            let (actual, a, e₄) = >>=-ok (header_hash c f h) _ e₃ in
            let (_, q, e₅) =
              >>=-ok
                (refuse_if (not (bytes_beq actual hash))
                  (broken_chain "header hash does not match the header"))
                _ e₄ in
            let same = (bytes_beq_iff actual hash).0 (passed (bytes_beq actual hash) _ q) in
            (
              (==_iff h.body.ver ((prev.body.ver + 1) % 2 ^ 32)).0 (passed _ _ v) ∙ no_wrap,
              links.0 (passed _ _ p),
              fids.0 (passed_both _ _ _ i).0,
              salts.0 (passed_both _ _ _ i).1,
              a ∙ ap ok same,
              e₅,
            ),
        λ (v, p, i, l, a, k).
            let ver = (==_iff h.body.ver ((prev.body.ver + 1) % 2 ^ 32)).1 (v ∙ sym no_wrap) in
            rw (ver, links.1 p, fids.1 i, salts.1 l, a, (bytes_beq_iff hash hash).1 refl) k,
      )

  Versions-run :
      (rest : List (Header × Bytes)) (prev : Header) (prev_hash : Bytes)
      → prev.body.ver + length rest < 2 ^ 32
      → (check_links prev prev_hash rest ≡ ok tt)
        ↔ Versions prev.body.fid prev.body.salt prev.body.ver prev_hash rest
  Versions-run [] prev prev_hash small = (λ e. tt, λ v. unfold check_links in refl)
  Versions-run ((h, hash) ∷ rest) prev prev_hash small =
      let step = check_links-cons_iff prev prev_hash h hash rest (omega arith) in
      (
        λ e.
            let (v, p, i, l, a, k) = step.0 e in
            let more = (Versions-run rest h hash (omega arith)).0 k in
            (v, p, i, l, a, rw (i, l, v) at more),
        λ (v, p, i, l, a, k).
            step.1 (v, p, i, l, a, (Versions-run rest h hash (omega arith)).1 (rw (i, l, v) k)),
      )

  -- A chain of fewer than 2^32 headers, each given with a hash, is accepted exactly if it starts with
  -- a version 1 that has no predecessor, and each later header has the next version number, the
  -- file's identity and salt of the first, as its `prev` the hash that is given with the one before,
  -- and as its own hash the one that is given with it. The hash given with version 1, which the
  -- `prev` of version 2 names, is not compared with that header.
  pub verify_version_chain-ok_iff :
      (first : Header) (first_hash : Bytes) (rest : List (Header × Bytes))
      → 1 + length rest < 2 ^ 32
      → (verify_version_chain ((first, first_hash) ∷ rest) ≡ ok tt) ↔ (
          (first.body.ver ≡ 1)
          × (first.body.prev ≡ none)
          × Versions first.body.fid first.body.salt 1 first_hash rest)
  unfolding verify_version_chain
  verify_version_chain-ok_iff first first_hash rest small = (
    λ e.
        let (_, s, k) =
          >>=-ok
            (refuse_if (not (first.body.ver == 1) || is_some first.body.prev)
              (broken_chain "chain does not start at version 1"))
            _ e in
        let (v, n) = starts first.body.ver first.body.prev _ s in
        (
          v,
          n,
          subst (λ x. Versions first.body.fid first.body.salt x first_hash rest) v
              ((Versions-run rest first first_hash (omega arith)).0 k),
        ),
    λ (v, n, k).
        let one = (==_iff first.body.ver 1).1 v in
        let fresh : is_some first.body.prev ≡ false = ap is_some n in
        let linked =
          (Versions-run rest first first_hash (omega arith)).1
            (subst (λ x. Versions first.body.fid first.body.salt x first_hash rest) (sym v) k) in
        rw (one, fresh) linked,
  )
