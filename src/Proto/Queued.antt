-- ===== src/Proto/Queued.antt =====
-- An envelope that was signed and stored, and is read later: crates/zbacs-proto/src/signed.rs.
use z_bacs.Prelude.{ℕ, ◌≡◌, ok, arith, map_err, map_err-ok, >>=-ok}
use z_bacs.Prelude.Bytes.{Bytes, bytes_beq_iff}
use z_bacs.Proto.External.{Primitives, Signs, Cbor, RoundTripsAt}
use z_bacs.Proto.Messages.{Message, encode}
use z_bacs.Proto.Signed.{
  Signed, DeviceIdentity, kid_of, kid, ed25519_pub, verify_raw, signing_bytes, sign, verify_queued,
  to_bytes, from_bytes,
}
use z_bacs.Proto.Authenticity.{sign-signed, same_kind_self}

module _ (c : Primitives) {A : Type 0} (m : Message A) (signs : Signs c) where
  pub verify_queued-sign :
      (device : DeviceIdentity) (a : A) (ts : ℕ) (n : Bytes) (s : Signed)
      → RoundTripsAt m.cbor a
      → sign c m device a ts n ≡ ok s
      → verify_queued c m s (ed25519_pub c device) ≡ ok (a, ts)
  unfolding verify_queued verify_raw ed25519_pub kid
  verify_queued-sign device a ts n s trips h =
      let f = sign-signed c m device a ts n h in
      let read = trips.read-written s.payload (f.5) in
      let pk = signs.public-is_key device.ed25519_sk in
      let sig =
        signs.verify-sign device.ed25519_sk (signing_bytes c s.kind s.ts s.nonce s.payload) in
      ground (
        arith,
        f,
        read,
        pk,
        sig,
        same_kind_self m.kind,
        bytes_beq_iff (kid_of c (c.ed25519_public device.ed25519_sk)) s.kid,
      )

-- The bytes of an envelope are read back.
pub from_bytes-to_bytes :
    (wire : Cbor Signed) (s : Signed) {b : Bytes}
    → RoundTripsAt wire s
    → to_bytes wire s ≡ ok b
    → from_bytes wire b ≡ ok s
unfolding to_bytes from_bytes
from_bytes-to_bytes wire s {b} trips h =
    let (out, written, rest) = >>=-ok (map_err encode (wire.into_writer s)) _ h in
    let read = trips.read-written out (map_err-ok encode _ written) in ground (arith, read)
