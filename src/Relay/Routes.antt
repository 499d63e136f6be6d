-- ===== src/Relay/Routes.antt =====
-- apps/relay/src/routes.rs: the HTTP handlers, and the live stream's pump. A handler's answer is the
-- acknowledgement or the envelopes that it would encode; encoding them, the router and the
-- WebSocket upgrade are the frameworks'.
use z_bacs.Prelude.{
  ℕ, Bool, true, false, not, ◌&&◌, ◌||◌, Option, none, some, List, [], ◌∷◌, Result, ok, err, ltb,
  leb, ◌==◌, if◌then◌else◌, length, ok_or, map_err, replicate, take,
}
use z_bacs.Prelude.Bytes.{Bytes, bytes_beq}
use z_bacs.Proto.External.{Primitives, Cbor}
use z_bacs.Proto.Messages.{
  Kind, ErrorCode, unauthenticated, code, http_status, Message, DeviceAnnounce, AccessRequest,
  GrantMsg, Revoke, VersionMsg, Ack, Envelope, device_announce, access_request, grant_msg,
  revoke_msg, version_msg,
}
use z_bacs.Proto.Signed.{Signed, kid_of, verify, from_bytes, max_body_len}
use z_bacs.Relay.State.{
  Relay, Inbox, Instant, device_of, announce, take_quota, take_nonce, remember_request,
  remember_interest, interested, route_for, enqueue, drain,
}
use z_bacs.Relay.Handler.{Handler, ◌>>=◌, ◌>>◌, pure, lift, reject_if, gets, modify, act, attempt}

-- The code that the handlers call and that is not the relay's.
pub record Wire : Type 0 where
  pub primitives : Primitives
  pub signed : Cbor Signed
  pub device_announce : Cbor DeviceAnnounce
  pub access_request : Cbor AccessRequest
  pub grant_msg : Cbor GrantMsg
  pub revoke : Cbor Revoke
  pub version_msg : Cbor VersionMsg
  -- `hex::decode`.
  pub unhex : Bytes → Option Bytes

-- What one handler reads from its surroundings, in the order in which it reads: the wall clock for
-- the envelope, the instant for quota and nonce, those for the records it keeps, and the wall
-- clock, random id and instant for the message it queues. A broadcast draws an id for each device.
pub record Readings : Type 0 where
  pub verify_unix : ℕ
  pub arrived : Instant
  pub looked_up : Instant
  pub noted : Instant
  pub queue_unix : ℕ
  pub id_for : Bytes → Bytes
  pub queued : Instant

pub data Answer : Type 0 where
  acked : Ack → Answer
  delivered : List Envelope → Answer

unfoldable pub accept : Bytes → Answer
accept id = acked (record { ok = true; id = some id; error = none })

unfoldable pub health : Answer
health = acked (record { ok = true; id = none; error = none })

-- The status and the answer that leave the relay.
unfoldable pub respond : Result ErrorCode Answer → ℕ × Answer
respond (ok a) = (200, a)
respond (err e) = (http_status e, acked (record { ok = false; id = none; error = some e }))

-- Any error of a step, for one code: `let Ok(x) = … else { return refuse(code) }`.
abbrev pub or_else : {E A : Type 0} → Result E A → ErrorCode → Result ErrorCode A
or_else r e = map_err (λ _. e) r

abbrev pub too_long : Option Bytes → Bool
too_long none = false
too_long (some l) = ltb 32 (length l)

abbrev pub bad_owner : Bytes → Bool
bad_owner o = length o == 0 || ltb 64 (length o)

module _ (w : Wire) where
  unfoldable pub authenticate : {A : Type 0} → Message A → Bytes → Readings → Handler (Signed × A)
  authenticate m body t = do
    reject_if (ltb max_body_len (length body)) ErrorCode.too_large
    signed ← lift (map_err code (from_bytes w.signed body))
    found ← gets (λ r. device_of r signed.kid)
    device ← lift (ok_or found ErrorCode.unknown_device)
    (payload, nonce) ←
        lift (map_err code (verify w.primitives m signed device.ed25519_pub t.verify_unix))
    attempt (take_quota signed.kid t.arrived)
    attempt (take_nonce nonce t.arrived)
    pure (signed, payload)

  -- The end of `devices`, once the envelope has verified against the key that it announces.
  unfoldable pub register : Signed → DeviceAnnounce → Bytes → Readings → Handler Answer
  register signed payload nonce t = do
    reject_if (not (bytes_beq (kid_of w.primitives payload.ed25519_pub) signed.kid)) unauthenticated
    reject_if (too_long payload.label) ErrorCode.malformed
    attempt (take_quota signed.kid t.arrived)
    attempt (take_nonce nonce t.arrived)
    modify (
        announce signed.kid (record {
          ed25519_pub = payload.ed25519_pub;
          x25519_pub = payload.x25519_pub;
          label = payload.label;
        }))
    pure (accept signed.kid)

  unfoldable pub devices : Bytes → Readings → Handler Answer
  devices body t = do
    reject_if (ltb max_body_len (length body)) ErrorCode.too_large
    signed ← lift (or_else (from_bytes w.signed body) ErrorCode.malformed)
    claimed ← lift (ok_or (w.device_announce.from_reader signed.payload) ErrorCode.malformed)
    (payload, nonce) ← lift (
        or_else
          (verify w.primitives (device_announce w.device_announce) signed claimed.ed25519_pub
            t.verify_unix)
          unauthenticated)
    register signed payload nonce t

  unfoldable pub requests : Bytes → Readings → Handler Answer
  requests body t = do
    (signed, request) ← authenticate (access_request w.access_request) body t
    reject_if
        (not (bytes_beq request.device_kid signed.kid)
          || not (bytes_beq (kid_of w.primitives request.ed25519_pub) signed.kid))
        unauthenticated
    reject_if (bad_owner request.owner) ErrorCode.malformed
    modify (remember_request request.nonce signed.kid t.looked_up)
    modify (remember_interest request.fid signed.kid t.noted)
    let id = t.id_for request.owner
    modify (enqueue (Inbox.owner request.owner) Kind.req body t.queue_unix id t.queued)
    pure (accept id)

  unfoldable pub grants : Bytes → Readings → Handler Answer
  grants body t = do
    (signed, grant) ← authenticate (grant_msg w.grant_msg) body t
    to ← attempt (route_for grant.request_nonce t.looked_up)
    let id = t.id_for to
    modify (enqueue (Inbox.device to) Kind.grant body t.queue_unix id t.queued)
    pure (accept id)

  unfoldable pub versions : Bytes → Readings → Handler Answer
  versions body t = do
    (signed, version) ← authenticate (version_msg w.version_msg) body t
    reject_if (not (bytes_beq (kid_of w.primitives version.ed25519_pub) signed.kid)) unauthenticated
    reject_if (bad_owner version.owner) ErrorCode.malformed
    let id = t.id_for version.owner
    modify (enqueue (Inbox.owner version.owner) Kind.version body t.queue_unix id t.queued)
    pure (accept id)

-- The loop of `revocations` over the interested devices; the last id is the answer's. One reading of
-- the clock stands for those of all its rounds.
unfoldable pub broadcast : Bytes → Readings → List Bytes → Bytes → Relay → Relay × Bytes
broadcast body t [] id r = (r, id)
broadcast body t (kid ∷ rest) id r =
    broadcast body t rest (t.id_for kid)
      (enqueue (Inbox.device kid) Kind.revoke body t.queue_unix (t.id_for kid) t.queued r)

module _ (w : Wire) where
  unfoldable pub revocations : Bytes → Readings → Handler Answer
  revocations body t = do
    (signed, revoke) ← authenticate w (revoke_msg w.revoke) body t
    devices ← act (interested revoke.fid t.looked_up)
    id ← act (broadcast body t devices (replicate 16 0))
    pure (accept id)

  pub owner_inbox : ℕ → Bytes → Result ErrorCode Inbox
  owner_inbox most text = elim (w.unhex text) [
    | none ↦ err ErrorCode.malformed
    | some b ↦
        if not (length b == 0) && leb (length b) most
        then ok (Inbox.owner b)
        else err ErrorCode.malformed
  ]

  pub device_inbox : Bytes → Result ErrorCode Inbox
  device_inbox text = elim (w.unhex text) [
    | none ↦ err ErrorCode.malformed
    | some b ↦ if length b == 16 then ok (Inbox.device b) else err ErrorCode.malformed
  ]

  -- `InboxQuery` of `inbox`: exactly one of the two is given.
  unfoldable pub inbox_target : Option Bytes → Option Bytes → Result ErrorCode Inbox
  unfolding owner_inbox device_inbox
  inbox_target (some o) none = owner_inbox 64 o
  inbox_target none (some d) = device_inbox d
  inbox_target _ _ = err ErrorCode.malformed

  unfoldable pub inbox : Option Bytes → Option Bytes → Instant → Handler Answer
  inbox o d now = do
    target ← lift (inbox_target o d)
    found ← act (drain target now)
    pure (delivered found)

  -- The target of `stream`.
  unfoldable pub stream_target : Option Bytes → Option Bytes → Result ErrorCode Inbox
  unfolding device_inbox
  stream_target (some o) none = elim (w.unhex o) [
    | none ↦ err ErrorCode.malformed
    | some b ↦ if length b == 0 then err ErrorCode.malformed else ok (Inbox.owner b)
  ]
  stream_target none (some d) = device_inbox d
  stream_target _ _ = err ErrorCode.malformed

-- One tick of `pump` on a socket that takes so many more frames: what is sent, and whether the
-- connection lives on. The envelopes are drained before any is sent; the ping is a frame too.
unfoldable pub pump_tick : Inbox → Instant → ℕ → Relay → Relay × List Envelope × Bool
pump_tick target now room r =
    let (r', waiting) = drain target now r in (r', take room waiting, ltb (length waiting) room)

-- A request to the relay: an HTTP call with what its handler reads, or a tick of a live stream.
pub data Call : Type 0 where
  posts_device posts_request posts_grant posts_version posts_revocation : Bytes → Readings → Call
  gets_inbox : Option Bytes → Option Bytes → Instant → Call
  ticks : Inbox → Instant → ℕ → Call

-- The state after a call.
unfoldable pub serve : Wire → Call → Relay → Relay
serve w (posts_device body t) r = (devices w body t r).0
serve w (posts_request body t) r = (requests w body t r).0
serve w (posts_grant body t) r = (grants w body t r).0
serve w (posts_version body t) r = (versions w body t r).0
serve w (posts_revocation body t) r = (revocations w body t r).0
serve w (gets_inbox o d now) r = (inbox w o d now r).0
serve w (ticks target now room) r = (pump_tick target now room r).0
