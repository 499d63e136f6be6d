-- ===== src/Core/Superseding.antt =====
-- A next version of a container, as crates/zbacs-core/src/container.rs writes it.
use z_bacs.Prelude.{
  ℕ, ◌+◌, ◌^◌, ◌<◌, ◌≤◌, ◌≡◌, refl, sym, ◌∙◌, true, not, ◌||◌, ◌%◌, ◌-◌, Option, some, List, [],
  ◌∷◌, Result, ok, err, ◌>>=◌, >>=-ok, refuse_if, ok_or, ok_or-ok, ltb, ◌==◌, length, take, drop,
  any, arith, some_inj,
}
use z_bacs.Prelude.Bytes.{Bytes, bytes_beq, from_le_bytes, codes}
use z_bacs.Proto.External.{RoundTripsAt}
use z_bacs.Core.External.{Suite}
use z_bacs.Core.Header.{
  Error, io, name_auth, no_owner_key, max_header_len, Policy, Header, Envelope, wrap, unwrap, Forms,
  header_hash, decode_verified, sign_header,
}
use z_bacs.Core.Name.{unpad_name, name_pad_block, max_name_ct_len, tag_len, max_name_len}
use z_bacs.Core.Container.{
  SealOptions, Draws, prev_version, nonce, name_index, encrypt_name, wrap_all, identity, successor,
  make_header, seal_signed, validate_header, read_header, decrypt_name, open_container,
  find_envelope, magic, version_major, max_chunk, max_owner_len, mismatch, two_bytes,
  cipher_xchacha20_poly1305_chunked,
}
use z_bacs.Core.Sealing.{Sensible, make_header-Shaped}
use z_bacs.Core.Reading.{seal_signed-Written}
use z_bacs.Core.Opening.{Laws, seal_signed-Reads, open_container-seal_signed}
use z_bacs.Core.Versions.{check_links, check_links-cons_iff}
use z_bacs.Core.Resealing.{
  Files, next_options, replaced, sealed_file, next_as_recipient, reseal_as_recipient_to_path,
}

validated-Sensible :
    (h : Header)
    → validate_header h ≡ ok tt
    → (0 < length h.body.own) × (length h.body.own ≤ max_owner_len) × (0 < h.body.ver)
unfolding validate_header
validated-Sensible h e =
    let b = h.body in
    let (_, u₁, e₁) =
      >>=-ok {E = Error} (refuse_if (not (b.cipher == cipher_xchacha20_poly1305_chunked)) _) _ e in
    let (_, u₂, e₂) =
      >>=-ok {E = Error} (refuse_if (b.chunk == 0 || ltb max_chunk b.chunk) _) _ e₁ in
    let (_, u₃, e₃) = >>=-ok {E = Error} (refuse_if (b.ver == 0) _) _ e₂ in
    let (_, u₄, e₄) = >>=-ok {E = Error} (refuse_if (mismatch (b.ver == 1) b.prev) _) _ e₃ in
    let (_, u₅, e₅) =
      >>=-ok {E = Error} (refuse_if (length b.own == 0 || ltb max_owner_len (length b.own)) _) _
        e₄ in
    (ground (arith, u₅), ground (arith, u₅), ground (arith, u₃))

module _ (c : Suite) (f : Forms) where
  read_header-valid :
      (b : Bytes) {h : Header} {hash rest : Bytes}
      → read_header c f b ≡ ok (h, hash, rest)
      → validate_header h ≡ ok tt
  unfolding read_header
  read_header-valid b e =
      let len = from_le_bytes (take 4 (drop 8 b)) in
      let (_, u₁, e₁) = >>=-ok {E = Error} (refuse_if (ltb (length b) 8) _) _ e in
      let (_, u₂, e₂) = >>=-ok {E = Error} (refuse_if (not (bytes_beq (take 6 b) magic)) _) _ e₁ in
      let (_, u₃, e₃) =
        >>=-ok {E = Error} (refuse_if (not ((two_bytes (drop 6 b)).0 == version_major)) _) _ e₂ in
      let (_, u₄, e₄) = >>=-ok {E = Error} (refuse_if (ltb (length (drop 8 b)) 4) _) _ e₃ in
      let (_, u₅, e₅) = >>=-ok {E = Error} (refuse_if (ltb max_header_len len) _) _ e₄ in
      let (_, u₆, e₆) = >>=-ok {E = Error} (refuse_if (ltb (length (drop 12 b)) len) _) _ e₅ in
      let ((h, hash), d, e₇) = >>=-ok (decode_verified c f (take len (drop 12 b))) _ e₆ in
      let (_, v, e₈) = >>=-ok (validate_header h) _ e₇ in ground (arith, e₈, v)

  decrypt_name-is_utf8 :
      (h : Header) (dek : Bytes) {name : Bytes}
      → decrypt_name c h dek ≡ ok name
      → c.is_utf8 name ≡ true
  unfolding decrypt_name unpad_name
  decrypt_name-is_utf8 h dek e =
      let (buf, d, e₁) =
        >>=-ok
          (ok_or (c.aead_decrypt dek (nonce h.body.np name_index) (codes "name") h.body.name)
            name_auth)
          _ e in
      let len = from_le_bytes (take 2 buf) in
      let (_, u₁, e₂) =
        >>=-ok {E = Error}
          (refuse_if
            (ltb (length buf) name_pad_block
              || not (length buf % name_pad_block == 0)
              || ltb (max_name_ct_len - tag_len) (length buf))
            _)
          _ e₁ in
      let (_, u₂, e₃) =
        >>=-ok {E = Error} (refuse_if (ltb max_name_len len || ltb (length buf) (2 + len)) _) _
          e₂ in
      let (_, u₃, e₄) =
        >>=-ok {E = Error} (refuse_if (any (λ b. not (b == 0)) (drop (2 + len) buf)) _) _ e₃ in
      let (_, u₄, e₅) =
        >>=-ok {E = Error} (refuse_if (not (c.is_utf8 (take len (drop 2 buf)))) _) _ e₄ in
      ground (arith, e₅, u₄)

  make_header-identity :
      (input owner_pk sk : Bytes) (opts : SealOptions) (draws : Draws) {h : Header}
      → make_header c f input owner_pk sk opts draws ≡ ok h
      → (h.body.fid ≡ (identity c opts.prev input draws.salt).0)
        × (h.body.salt ≡ (identity c opts.prev input draws.salt).1)
        × (successor opts.prev ≡ ok (h.body.prev, h.body.ver))
  unfolding make_header sign_header
  make_header-identity input owner_pk sk opts draws e =
      let (name, n, e₁) = >>=-ok (encrypt_name c draws.dek draws.np opts.file_name) _ e in
      let (env, w, e₂) =
        >>=-ok
          (wrap_all c draws.dek (identity c opts.prev input draws.salt).0
            (owner_pk ∷ opts.extra_recipients))
          _ e₁ in
      let ((prev, ver), v, e₃) = >>=-ok (successor opts.prev) _ e₂ in
      (ground (arith, e₃), ground (arith, e₃), ground (arith, e₃, v))

  replaced-ok :
      (old : Option Bytes) (r : Result Error (Header × Bytes)) {new : Option Bytes} {h : Header}
      → replaced c f old r ≡ (new, ok h)
      → (out : Bytes) × (r ≡ ok (h, out)) × (new ≡ some out)
  replaced-ok old (ok (h, out)) e = (out, ground arith, ground arith)
  replaced-ok old (err x) e = absurd (ground arith)

  sealed_file-ok :
      (fs : Files) (owner_pk sk : Bytes) (opts : SealOptions) (draws : Draws) {h : Header}
      {out : Bytes}
      → sealed_file c f fs owner_pk sk opts draws ≡ ok (h, out)
      → (input : Bytes) × (fs.input ≡ some input)
        × (seal_signed c f input owner_pk sk opts draws ≡ ok (h, out))
  unfolding sealed_file
  sealed_file-ok fs owner_pk sk opts draws e =
      let (input, i, e₁) = >>=-ok {E = Error} (ok_or fs.input io) _ e in
      let (_, u₁, e₂) = >>=-ok {E = Error} (refuse_if (not fs.creates) io) _ e₁ in
      let ((h, out), s, e₃) = >>=-ok (seal_signed c f input owner_pk sk opts draws) _ e₂ in
      let (_, u₂, e₄) = >>=-ok {E = Error} (refuse_if (not fs.syncs) io) _ e₃ in
      let (_, u₃, e₅) = >>=-ok {E = Error} (refuse_if (not fs.renames) io) _ e₄ in
      (input, ok_or-ok _ io i, ground (arith, e₅, s))

  next_as_recipient-ok :
      (prev_dek : Bytes) (policy : Policy) (b : Bytes) {pk : Bytes} {opts : SealOptions}
      {p : Header} {ph rest : Bytes}
      → read_header c f b ≡ ok (p, ph, rest)
      → next_as_recipient c f prev_dek policy (some b) ≡ ok (pk, opts)
      → (name : Bytes) × (p.body.opub ≡ some pk)
        × (decrypt_name c p prev_dek ≡ ok name)
        × (opts ≡ next_options p ph name policy)
  unfolding next_as_recipient
  next_as_recipient-ok prev_dek policy b {p = p} {ph = ph} r e =
      let e₁ = rw r at e in
      let (pk, o, e₂) = >>=-ok {E = Error} (ok_or p.body.opub no_owner_key) _ e₁ in
      let (name, n, e₃) = >>=-ok (decrypt_name c p prev_dek) _ e₂ in
      let is = ok_or-ok {E = Error} p.body.opub no_owner_key o in
      (name, ground (arith, is, e₃), n, ground (arith, e₃))

  next_options-Sensible :
      (p : Header) (ph name : Bytes) (policy : Policy)
      → validate_header p ≡ ok tt
      → Sensible (next_options p ph name policy)
  unfolding next_options prev_version
  next_options-Sensible p ph name policy v =
      let (low, high, later) = validated-Sensible p v in
      record {
        owner = (low, high);
        recipients = omega arith;
        later = λ q e. ground (arith, later, e);
      }

-- A container that supersedes another: it names that one as its predecessor, keeps the file's
-- identity, and carries one envelope, of which the owner's secret takes the data key.
pub record Supersedes (c : Suite) (f : Forms) (p : Header) (ph owner dek : Bytes) (h : Header)
    (out : Bytes) : Type 0 where
  pub hash : Bytes
  pub rest : Bytes
  pub mine : Envelope
  pub hashed : header_hash c f h ≡ ok hash
  pub read : read_header c f out ≡ ok (h, hash, rest)
  pub linked : check_links c f p ph ((h, hash) ∷ []) ≡ ok tt
  pub same_file : h.body.fid ≡ p.body.fid
  pub version : h.body.ver ≡ p.body.ver + 1
  pub small : p.body.ver + 1 < 2 ^ 32
  pub env : h.body.env ≡ mine ∷ []
  pub unwrapped : unwrap c mine owner h.body.fid ≡ ok dek

successor-some :
    (p : Header) (ph : Bytes) {prev : Option Bytes} {v : ℕ}
    → successor (some (prev_version p ph)) ≡ ok (prev, v)
    → (v ≡ p.body.ver + 1) × (prev ≡ some ph) × (p.body.ver + 1 < 2 ^ 32)
unfolding successor prev_version
successor-some p ph e = ground arith

only-found :
    (c : Suite) (pk dek fid kid : Bytes) {es : List Envelope} {e : Envelope}
    → wrap_all c dek fid (pk ∷ []) ≡ ok es
    → find_envelope kid es ≡ some e
    → es ≡ e ∷ []
unfolding wrap_all find_envelope
only-found c pk dek fid kid w found =
    let (e, one, w₁) = >>=-ok (wrap c pk dek fid) _ w in ground (arith, w₁, found)

module _ (c : Suite) (f : Forms) where
  seal_signed-Supersedes :
      (input owner sk name ph : Bytes) (policy : Policy) (draws : Draws) (p h : Header)
      (out : Bytes)
      → Laws c sk
      → RoundTripsAt f.header h
      → validate_header p ≡ ok tt
      → c.is_utf8 name ≡ true
      → length draws.dek ≡ 32
      → length input < 2 ^ 64
      → seal_signed c f input (c.x25519_public owner) sk (next_options p ph name policy) draws
        ≡ ok (h, out)
      → Supersedes c f p ph owner draws.dek h out
  unfolding next_options prev_version identity successor
  seal_signed-Supersedes input owner sk name ph policy draws p h out laws trips v u l small e =
      let opts = next_options p ph name policy in
      let good = next_options-Sensible c f p ph name policy v in
      let r = seal_signed-Reads c f input owner sk opts draws h out laws trips good u l small e in
      let w = seal_signed-Written c f input (c.x25519_public owner) sk opts draws e in
      let (fid, salt, next) =
        make_header-identity c f input (c.x25519_public owner) sk opts draws w.made in
      let m = make_header-Shaped c f input (c.x25519_public owner) sk opts draws w.made in
      let (ver, prev, below) = successor-some p ph next in
      record {
        hash = r.hash;
        rest = r.rest;
        mine = r.mine;
        hashed = r.hashed;
        read = r.read;
        linked =
            (check_links-cons_iff c f p ph h r.hash [] below).1
              (ver, prev, fid, salt, r.hashed, unfold check_links in refl);
        same_file = fid;
        version = ver;
        small = below;
        env = only-found c (c.x25519_public owner) draws.dek h.body.fid _ m.env r.found;
        unwrapped = r.unwrapped;
      }

  -- What a recipient writes over a container is its next version, and the owner's: it is linked to
  -- the header that was there, keeps the file's identity, and the owner, whose key that
  -- header carries, opens it to the edited plaintext under the old name. The recipient's key signs
  -- it, the draws and the plaintext are within the limits of `seal`, and the header's encoding is read
  -- back to it.
  pub reseal_as_recipient_to_path-Supersedes :
      (fs : Files) (b input prev_dek owner sk ph r : Bytes) (policy : Policy) (draws : Draws)
      (p h : Header) (new : Option Bytes)
      → Laws c sk
      → RoundTripsAt f.header h
      → length draws.dek ≡ 32
      → length input < 2 ^ 64
      → fs.input ≡ some input
      → read_header c f b ≡ ok (p, ph, r)
      → p.body.opub ≡ some (c.x25519_public owner)
      → reseal_as_recipient_to_path c f fs prev_dek sk policy draws (some b) ≡ (new, ok h)
      → (out name : Bytes) × (new ≡ some out)
        × (decrypt_name c p prev_dek ≡ ok name)
        × Supersedes c f p ph owner draws.dek h out
        × ((hash : Bytes) × (header_hash c f h ≡ ok hash)
            × (open_container c f out owner
                ≡ ok (record { header = h; header_hash = hash; file_name = name }, input)))
  unfolding reseal_as_recipient_to_path
  reseal_as_recipient_to_path-Supersedes fs b input prev_dek owner sk ph r policy draws p h new laws
        trips l small has read key e =
      let next = next_as_recipient c f prev_dek policy (some b) in
      let (out, sealed, is) =
        replaced-ok c f (some b) (next >>= λ (opub, opts). sealed_file c f fs opub sk opts draws)
          e in
      let ((pk, opts), n, s) = >>=-ok next _ sealed in
      let (name, opub, named, options) = next_as_recipient-ok c f prev_dek policy b read n in
      let (input', has', s') = sealed_file-ok c f fs pk sk opts draws s in
      let same_input = some_inj (sym has' ∙ has) in
      let same_key = some_inj (sym opub ∙ key) in
      let written = rw (same_input, same_key, options) at s' in
      let v = read_header-valid c f b read in
      let u = decrypt_name-is_utf8 c f p prev_dek named in
      let good = next_options-Sensible c f p ph name policy v in
      (
        out,
        name,
        is,
        named,
        seal_signed-Supersedes input owner sk name ph policy draws p h out laws trips v u l small
            written,
        unfold next_options in
            open_container-seal_signed c f input owner sk (next_options p ph name policy) draws h
              out laws trips good u l small written,
      )
