-- ===== src/Agent/Exchange/Asked.antt =====
-- A request of apps/agent/src-tauri/src/request.rs at `accept_request` of approve.rs.
use z_bacs.Prelude.{ℕ, ◌+◌, ◌≤◌, true, false, ◌||◌, ◌≡◌, ◌≢◌, refl, sym, ◌∙◌, ok, arith, ◌==◌}
use z_bacs.Prelude.Bytes.{Bytes, bytes_beq, bytes_beq_iff}
use z_bacs.Session.{Permission}
use z_bacs.Proto.External.{Primitives, Signs, RoundTripsAt}
use z_bacs.Proto.Messages.{req, Envelope, AccessRequest, access_request}
use z_bacs.Proto.Signed.{
  Signed, DeviceIdentity, max_skew_secs, kid, kid_of, ed25519_pub, same_kind, sign, to_bytes,
  verify_queued,
}
use z_bacs.Proto.Authenticity.{sign-signed, same_kind_self}
use z_bacs.Proto.Queued.{verify_queued-sign, from_bytes-to_bytes}
use z_bacs.Agent.Forms.{Forms}
use z_bacs.Agent.Approve.{accept_request, permission_u8, max_request_age_secs, untimely}
use z_bacs.Agent.Request.{Target, build_request}

request_fields :
    (c : Primitives) (target : Target) (device : DeviceIdentity) (p : Permission) (nonce : Bytes)
    (ts : ℕ)
    → p ≢ Permission.deny
    → let r = build_request c target device p nonce ts in
      (r.ed25519_pub ≡ ed25519_pub c device)
      × (kid_of c r.ed25519_pub ≡ r.device_kid)
      × (r.device_kid ≡ kid c device)
      × (r.owner ≡ target.owner)
      × ((r.requested == 1 || r.requested == 2) ≡ true)
unfolding build_request kid permission_u8
request_fields c target device Permission.deny nonce ts allows = absurd (allows refl)
request_fields c target device p nonce ts allows = (refl, refl, refl, refl, refl)

forms :
    (k : Forms) (r : AccessRequest)
    → RoundTripsAt k.request r
    → RoundTripsAt (access_request k.request).cbor r
unfolding access_request
forms k r t = t

written :
    (c : Primitives) (k : Forms) (r : AccessRequest) (device : DeviceIdentity) (ts : ℕ) (n : Bytes)
    {s : Signed}
    → sign c (access_request k.request) device r ts n ≡ ok s
    → k.request.into_writer r ≡ ok s.payload
unfolding access_request
written c k r device ts n h = (sign-signed c (access_request k.request) device r ts n h).5

-- A request that a device built and signed is taken by the owner's agent as it was sent, if it asks to
-- read or to edit, is for this owner, and its time is at most the allowed skew ahead of the
-- owner's clock and at most a day behind it.
pub accept_request-build_request :
    (c : Primitives) (k : Forms) (target : Target) (device : DeviceIdentity) (p : Permission)
    (nonce n : Bytes) (ts now : ℕ) (signed : Signed) (e : Envelope)
    → Signs c
    → RoundTripsAt k.request (build_request c target device p nonce ts)
    → RoundTripsAt k.signed signed
    → p ≢ Permission.deny
    → ts ≤ now + max_skew_secs
    → now ≤ ts + max_request_age_secs
    → sign c (access_request k.request) device (build_request c target device p nonce ts) ts n
      ≡ ok signed
    → to_bytes k.signed signed ≡ ok e.body
    → e.kind ≡ req
    → accept_request c k e target.owner now ≡ ok (build_request c target device p nonce ts)
unfolding accept_request build_request
accept_request-build_request c k target device p nonce n ts now signed e signs trips wire allows
      ahead behind made sent kind =
    let r = build_request c target device p nonce ts in
    let f = sign-signed c (access_request k.request) device r ts n made in
    let is_req : same_kind e.kind req ≡ true = rw kind (same_kind_self req) in
    let decoded = from_bytes-to_bytes k.signed signed wire sent in
    let read = trips.read-written signed.payload (written c k r device ts n made) in
    let queued =
      verify_queued-sign c (access_request k.request) signs device r ts n signed (forms k r trips)
        made in
    let (pk, mine, signer, theirs, asks) = request_fields c target device p nonce ts allows in
    let known : bytes_beq (kid_of c r.ed25519_pub) r.device_kid ≡ true =
      (bytes_beq_iff _ _).1 mine in
    let same : bytes_beq r.device_kid signed.kid ≡ true =
      (bytes_beq_iff _ _).1 (signer ∙ sym (f.3)) in
    let owner : bytes_beq r.owner target.owner ≡ true = (bytes_beq_iff _ _).1 theirs in
    let timely : untimely ts now ≡ false = ground arith in
    let queued' : verify_queued c (access_request k.request) signed r.ed25519_pub ≡ ok (r, ts) =
      rw pk queued in
    ground (arith, is_req, decoded, read, known, same, queued', owner, timely, asks)
