-- ===== src/Relay/Registry.antt =====
-- The registered devices: apps/relay/src/routes.rs `devices` over every history of calls.
use z_bacs.Prelude.{max, some, List, [], ◌∷◌, ◌≡◌, sym, ◌∙◌, ◌⊎◌, inl, inr, arith, Bool-cases}
use z_bacs.Prelude.Bytes.{Bytes, bytes_beq, bytes_beq_iff, Collision, hash_inj}
use z_bacs.Proto.External.{Primitives}
use z_bacs.Proto.Signed.{kid_of}
use z_bacs.Relay.State.{
  Relay, Device, Inbox, Instant, new, announce, device_of, take_quota, take_nonce, remember_request,
  remember_interest, interested, route_for, enqueue, drain,
}
use z_bacs.Relay.Routes.{
  Wire, Readings, Call, posts_device, posts_request, posts_grant, posts_version, posts_revocation,
  gets_inbox, ticks, serve,
}
use z_bacs.Relay.Operations.{
  Operation, announces, takes_quota, takes_nonce, remembers_request, remembers_interest,
  asks_interested, asks_route, enqueues, drains, perform, Reach-inv,
}
use z_bacs.Relay.Calls.{Legal, CallTimely, serve-Reach}

-- Each device is registered under the id of its key.
abbrev pub Registered : Primitives → Relay → Type 0
Registered c r =
    (kid : Bytes) (d : Device) → device_of r kid ≡ some d → kid_of c d.ed25519_pub ≡ kid

drain-devices : (i : Inbox) (now : Instant) (r : Relay) → (drain i now r).0.devices ≡ r.devices
unfolding drain
drain-devices i now r = ground arith

nonce-devices : (n : Bytes) (now : Instant) (r : Relay) → (take_nonce n now r).0.devices ≡ r.devices
unfolding take_nonce
nonce-devices n now r = ground arith

perform-Registered :
    (c : Primitives) (last : Instant) (op : Operation) (r : Relay)
    → Legal c last op
    → Registered c r
    → Registered c (perform op r)
unfolding perform device_of announce take_quota remember_request remember_interest interested
    route_for enqueue
perform-Registered c last (announces k d) r l v kid e h = elim (Bool-cases (bytes_beq k kid)) [
  | inl same ↦ ground (arith, (bytes_beq_iff k kid).0 same)
  | inr other ↦ v kid e (rw other at h)
]
perform-Registered c last (takes_quota k now) r l v kid e h = v kid e h
perform-Registered c last (takes_nonce n now) r l v kid e h =
    v kid e (rw (nonce-devices n now r) at h)
perform-Registered c last (remembers_request n k now) r l v kid e h = v kid e h
perform-Registered c last (remembers_interest f k now) r l v kid e h = v kid e h
perform-Registered c last (asks_interested f now) r l v kid e h = v kid e h
perform-Registered c last (asks_route n now) r l v kid e h = v kid e h
perform-Registered c last (enqueues i k b u id now) r l v kid e h = v kid e h
perform-Registered c last (drains i now) r l v kid e h = v kid e (rw (drain-devices i now r) at h)

-- The last instant that a call reads.
latest_reading : Readings → Instant
latest_reading t = max (max t.arrived t.looked_up) (max t.noted t.queued)

latest : Call → Instant
unfolding latest_reading
latest (posts_device body t) = latest_reading t
latest (posts_request body t) = latest_reading t
latest (posts_grant body t) = latest_reading t
latest (posts_version body t) = latest_reading t
latest (posts_revocation body t) = latest_reading t
latest (gets_inbox o d now) = now
latest (ticks target now room) = now

latest-timely : (w : Wire) (call : Call) → CallTimely w (latest call) call
unfolding latest
latest-timely w (gets_inbox o d now) = omega arith
latest-timely w (ticks target now room) = omega arith
latest-timely w _ = omega arith

-- The relay after a history of calls.
unfoldable pub run : Wire → Relay → List Call → Relay
run w r [] = r
run w r (call ∷ calls) = run w (serve w call r) calls

run-Registered :
    (w : Wire) (calls : List Call) (r : Relay)
    → Registered w.primitives r
    → Registered w.primitives (run w r calls)
unfolding run
run-Registered w [] r v = v
run-Registered w (call ∷ calls) r v = run-Registered w calls (serve w call r) (
    Reach-inv (Registered w.primitives) (perform-Registered w.primitives (latest call))
      (serve-Reach w (latest call) call r (latest-timely w call)) v)

new-Registered : (c : Primitives) → Registered c new
unfolding new device_of
new-Registered c kid d h = cc

-- After any history of calls to a new relay each device is registered under the id of its own key.
pub run-new-Registered : (w : Wire) (calls : List Call) → Registered w.primitives (run w new calls)
run-new-Registered w calls = run-Registered w calls new (new-Registered w.primitives)

-- So nobody can take over a registered device: whatever happens in between, the key found under a
-- key id stays the same, unless someone has found two keys with one id.
device_key_fixed :
    (w : Wire) (before after : List Call) (kid : Bytes) (d e : Device)
    → device_of (run w new before) kid ≡ some d
    → device_of (run w (run w new before) after) kid ≡ some e
    → (d.ed25519_pub ≡ e.ed25519_pub) ⊎ Collision (kid_of w.primitives)
device_key_fixed w before after kid d e hd he =
    let v = run-new-Registered w before in
    let v' = run-Registered w after (run w new before) v in
    hash_inj (kid_of w.primitives) d.ed25519_pub e.ed25519_pub (v kid d hd ∙ sym (v' kid e he))
