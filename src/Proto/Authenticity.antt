-- ===== src/Proto/Authenticity.antt =====
-- What an envelope that verifies proves about its sender: crates/zbacs-proto/src/signed.rs.
use z_bacs.Prelude.{
  ℕ, ◌^◌, ◌≤◌, ◌<◌, true, ◌++◌, ◌≡◌, refl, sym, ap, ◌∙◌, ◌⊎◌, some, ok, ◌>>=◌, ◌↔◌, arith, length,
  length-append,
}
use z_bacs.Prelude.Bytes.{
  Bytes, bytes_beq_iff, to_le_bytes, length-to_le_bytes, to_le_bytes_inj, append_inj, abs_diff,
  Collision, hash_inj,
}
use z_bacs.Proto.External.{Primitives, Signs, RoundTrips}
use z_bacs.Proto.Messages.{Kind, as_str, announce, Message}
use z_bacs.Proto.Signed.{
  Signed, DeviceIdentity, relay_sig_domain, max_body_len, max_skew_secs, same_kind, kid_of, kid,
  ed25519_pub, verify_raw, signing_bytes, sign, verify, verify_queued,
}

same_kind_iff_eq : (a b : Kind) → same_kind a b ≡ true → a ≡ b
unfolding same_kind
same_kind_iff_eq announce b h = ground arith
same_kind_iff_eq _ b h = ground arith

pub same_kind_self : (a : Kind) → same_kind a a ≡ true
unfolding same_kind
same_kind_self announce = refl
same_kind_self _ = refl

-- The part of the signed bytes behind the kind has one length.
abbrev tail_of : Primitives → ℕ → Bytes → Bytes → Bytes
tail_of c ts nonce payload = to_le_bytes 8 ts ++ (nonce ++ c.sha256 payload)

length-tail_of :
    (c : Primitives) (ts : ℕ) (nonce payload : Bytes)
    → length nonce ≡ 16
    → length (c.sha256 payload) ≡ 32
    → length (tail_of c ts nonce payload) ≡ 56
length-tail_of c ts nonce payload hn hp = omega (
  arith,
  length-append (to_le_bytes 8 ts) (nonce ++ c.sha256 payload),
  length-append nonce (c.sha256 payload),
  length-to_le_bytes 8 ts,
)

-- No kind's word is that of another, at equal lengths.
as_str_inj : (a b : Kind) → as_str a ≡ as_str b → a ≡ b
unfolding as_str
as_str_inj announce b h = ground arith
as_str_inj _ b h = ground arith

-- Everything that an envelope binds, up to a collision of the payload's hash.
abbrev pub Bound : Primitives → Kind → ℕ → Bytes → Bytes → Kind → ℕ → Bytes → Bytes → Type 0
Bound c k ts n p k' ts' n' p' = (k ≡ k') × (ts ≡ ts') × (n ≡ n') × ((p ≡ p') ⊎ Collision c.sha256)

-- The signed bytes determine the kind, the time, the nonce and the payload: one signature cannot
-- be presented for another kind, time or nonce, nor for another payload short of a SHA-256
-- collision. Nonces are 16 bytes, times are u64, digests 32 bytes.
pub signing_bytes_inj :
    (c : Primitives) (k k' : Kind) (ts ts' : ℕ) (n n' p p' : Bytes)
    → ((b : Bytes) → length (c.sha256 b) ≡ 32)
    → ts < 2 ^ 64
    → ts' < 2 ^ 64
    → length n ≡ 16
    → length n' ≡ 16
    → signing_bytes c k ts n p ≡ signing_bytes c k' ts' n' p'
    → Bound c k ts n p k' ts' n' p'
unfolding signing_bytes
signing_bytes_inj c k k' ts ts' n n' p p' d hts hts' hn hn' e =
    let (_, body) = append_inj relay_sig_domain relay_sig_domain refl e in
    let whole = ap length body in
    let same_len : length (as_str k) ≡ length (as_str k') = omega (
      arith,
      whole,
      length-append (as_str k) (tail_of c ts n p),
      length-append (as_str k') (tail_of c ts' n' p'),
      length-tail_of c ts n p hn (d p),
      length-tail_of c ts' n' p' hn' (d p'),
    ) in
    let (kinds, tails) = append_inj (as_str k) (as_str k') same_len body in
    let (times, rest) =
      append_inj (to_le_bytes 8 ts) (to_le_bytes 8 ts')
        (length-to_le_bytes 8 ts ∙ sym (length-to_le_bytes 8 ts')) tails in
    let (nonces, hashes) = append_inj n n' (hn ∙ sym hn') rest in
    (
      as_str_inj k k' kinds,
      to_le_bytes_inj 8 ts ts' (omega arith) (omega arith) times,
      nonces,
      hash_inj c.sha256 p p' hashes,
    )

-- What `verify` has checked when it accepts.
pub record Accepted {A : Type 0} (c : Primitives) (m : Message A) (s : Signed) (pk : Bytes)
    (now : ℕ) (a : A) (n : Bytes) : Type 0 where
  pub kind_is : s.kind ≡ m.kind
  pub fits : length s.payload ≤ max_body_len
  pub fresh : abs_diff now s.ts ≤ max_skew_secs
  pub signer : kid_of c pk ≡ s.kid
  pub key : c.is_key pk ≡ true
  pub signature : c.ed25519_verify pk (signing_bytes c s.kind s.ts s.nonce s.payload) s.sig ≡ true
  pub payload_is : m.cbor.from_reader s.payload ≡ some a
  pub nonce_is : n ≡ s.nonce

module _ (c : Primitives) {A : Type 0} (m : Message A) where
  verify-Accepted :
      (s : Signed) (pk : Bytes) (now : ℕ) {a : A} {n : Bytes}
      → verify c m s pk now ≡ ok (a, n)
      → Accepted c m s pk now a n
  unfolding verify verify_raw
  verify-Accepted s pk now h = record {
    kind_is = same_kind_iff_eq _ _ (ground arith);
    fits = ground arith;
    fresh = ground arith;
    signer = (bytes_beq_iff _ _).0 (ground arith);
    key = ground arith;
    signature = ground arith;
    payload_is = ground arith;
    nonce_is = ground arith;
  }

  Accepted-verify :
      (s : Signed) (pk : Bytes) (now : ℕ) (a : A) (n : Bytes)
      → Accepted c m s pk now a n
      → verify c m s pk now ≡ ok (a, n)
  unfolding verify verify_raw
  Accepted-verify s pk now a n v =
      let k = same_kind_self m.kind in
      let i = (bytes_beq_iff (kid_of c pk) s.kid).1 v.signer in
      ground (arith, k, i, v.kind_is, v.nonce_is, v.signature, v.key, v.payload_is, v.fits, v.fresh)

  -- `verify` accepts an envelope exactly if its kind is that of the payload type, it fits the size
  -- limit, its time is within the skew of the clock, the key is the one that its key id names and
  -- has signed these fields, and the payload parses; it then returns that payload and its nonce.
  pub verify-ok_iff :
      (s : Signed) (pk : Bytes) (now : ℕ) (a : A) (n : Bytes)
      → (verify c m s pk now ≡ ok (a, n)) ↔ Accepted c m s pk now a n
  verify-ok_iff s pk now a n = (verify-Accepted s pk now, Accepted-verify s pk now a n)

  pub sign-signed :
      (device : DeviceIdentity) (a : A) (ts : ℕ) (n : Bytes) {s : Signed}
      → sign c m device a ts n ≡ ok s
      → (s.kind ≡ m.kind)
        × (length s.payload ≤ max_body_len)
        × (s.ts ≡ ts)
        × (s.kid ≡ kid c device)
        × (s.nonce ≡ n)
        × (m.cbor.into_writer a ≡ ok s.payload)
        × (s.sig ≡ c.ed25519_sign device.ed25519_sk (signing_bytes c s.kind s.ts s.nonce s.payload))
  unfolding sign
  sign-signed device a ts n h = ground arith

  -- An envelope that a device signed verifies under its key within the skew, and yields the
  -- payload and the nonce that went in.
  verify-sign :
      (device : DeviceIdentity) (a : A) (ts now : ℕ) (n : Bytes) (s : Signed)
      → Signs c
      → RoundTrips m.cbor
      → abs_diff now ts ≤ max_skew_secs
      → sign c m device a ts n ≡ ok s
      → verify c m s (ed25519_pub c device) now ≡ ok (a, n)
  unfolding ed25519_pub kid
  verify-sign device a ts now n s signs trips skew h =
      let f = sign-signed device a ts n h in
      Accepted-verify s (ed25519_pub c device) now a n (record {
        kind_is = f.0;
        fits = f.1;
        fresh = rw (f.2) skew;
        signer = sym (f.3);
        key = signs.public-is_key device.ed25519_sk;
        signature = rw (f.6) (signs.verify-sign device.ed25519_sk _);
        payload_is = trips.read-written a s.payload (f.5);
        nonce_is = sym (f.4);
      })

  -- For a message read back from a queue the clock is the only check that is dropped: where the
  -- time is within the skew both forms accept and refuse alike.
  pub verify-verify_queued :
      (s : Signed) (pk : Bytes) (now : ℕ)
      → abs_diff now s.ts ≤ max_skew_secs
      → verify c m s pk now ≡ (verify_queued c m s pk >>= λ r. ok (r.0, s.nonce))
  unfolding verify verify_queued
  verify-verify_queued s pk now h = ground arith

-- A call of `sign`, by what it put under the signature.
pub record SigningCall : Type 0 where
  pub kind : Kind
  pub ts : ℕ
  pub nonce : Bytes
  pub payload : Bytes

-- Ed25519 for one key: whatever verifies under it is a message that its holder signed.
abbrev pub SignedOnly : Primitives → Bytes → (SigningCall → Type 0) → Type 0
SignedOnly c pk Made =
    (msg sig : Bytes)
    → c.ed25519_verify pk msg sig ≡ true
    → (call : SigningCall) × Made call
      × (msg ≡ signing_bytes c call.kind call.ts call.nonce call.payload)

-- If nothing verifies under a key but what its holder signed with `Signed::sign`, then an accepted
-- envelope is one of the holder's calls: made for this kind of message, at the envelope's time, which is
-- within the skew of the receiver's clock, with the nonce that is returned, and for the envelope's
-- payload short of a collision; and what is returned is what that payload reads as. Digests are 32
-- bytes, times u64 and nonces 16 bytes.
pub verify-authentic :
    (c : Primitives) {A : Type 0} (m : Message A) (s : Signed) (pk : Bytes) (now : ℕ) (a : A)
    (n : Bytes) (Made : SigningCall → Type 0)
    → ((b : Bytes) → length (c.sha256 b) ≡ 32)
    → ((call : SigningCall) → Made call → (call.ts < 2 ^ 64) × (length call.nonce ≡ 16))
    → SignedOnly c pk Made
    → s.ts < 2 ^ 64
    → length s.nonce ≡ 16
    → verify c m s pk now ≡ ok (a, n)
    → (call : SigningCall) × Made call
      × (call.kind ≡ m.kind)
      × (call.nonce ≡ n)
      × (call.ts ≡ s.ts)
      × (abs_diff now call.ts ≤ max_skew_secs)
      × (m.cbor.from_reader s.payload ≡ some a)
      × ((call.payload ≡ s.payload) ⊎ Collision c.sha256)
verify-authentic c m s pk now a n Made digests made only hts hn h =
    let v = (verify-ok_iff c m s pk now a n).0 h in
    let (call, was_made, same) = only _ s.sig v.signature in
    let (narrow, wide) = made call was_made in
    let b =
      signing_bytes_inj c call.kind s.kind call.ts s.ts call.nonce s.nonce call.payload s.payload
        digests narrow hts wide hn (sym same) in
    (
      call,
      was_made,
      b.0 ∙ v.kind_is,
      b.2 ∙ sym v.nonce_is,
      b.1,
      rw (b.1) v.fresh,
      v.payload_is,
      b.3,
    )
