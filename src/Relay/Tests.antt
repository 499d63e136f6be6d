-- ===== src/Relay/Tests.antt =====
-- The relay at concrete inputs: two devices, a request, a grant and a revocation.
use z_bacs.Prelude.{ℕ, ◌+◌, [], ◌∷◌, List, ◌≡◌, refl, some, none, ok, arith, replicate, All, keep}
use z_bacs.Prelude.Bytes.{Bytes, bytes_beq, bytes_eq, to_le_bytes, to_be_bytes}
use z_bacs.Proto.Messages.{
  Kind, as_str, Message, Revoke, revoke_msg, DeviceAnnounce, AccessRequest, GrantMsg, VersionMsg,
  device_announce, access_request,
}
use z_bacs.Proto.Signed.{Signed, kid_of, signing_bytes, verify, verify_raw, from_bytes, same_kind}
use z_bacs.Relay.State.{
  Relay, Inbox, Device, from_secs, new, announce, device_of, take_quota, take_nonce, pop_while,
  remember_interest, remember_request, drain, envelopes, in_time, route_for, kids,
}
use z_bacs.Relay.Handler.{◌>>=◌}
use z_bacs.Relay.Routes.{
  Wire, Readings, accept, authenticate, requests, register, devices, revocations, serve,
  posts_device,
}
use z_bacs.Relay.Operations.{
  Operation, announces, takes_quota, enqueues, drains, remembers_request, remembers_interest,
  asks_route, perform, perform_all, here,
}
use z_bacs.Relay.Registry.{Registered, run, run-new-Registered}
use z_bacs.Relay.Authentication.{Spent, authenticate-Spent}
use z_bacs.Relay.Replay.{Passes, announcement, replay_refused}
use z_bacs.Relay.Quota.{accepted_calls, accepted_calls-WithinQuota}
use z_bacs.Relay.Windows.{WithinQuota}
use z_bacs.Relay.Queues.{mailbox, drain-mailbox}
use z_bacs.Relay.Routing.{askers, young, asked, answer_to, route_for-asked}
use z_bacs.Relay.Posting.{Goes, request, handler-Goes}
use z_bacs.Relay.Delivery.{Got, revocations-reach}
use z_bacs.Toy.{toy, toy_hash, toy_verify, only}

abbrev key : Bytes
key = 1 ∷ 2 ∷ 3 ∷ []

abbrev id : Bytes
id = kid_of toy key

abbrev nonce : Bytes
nonce = replicate 16 4

abbrev envelope : Kind → Signed
envelope kind = record {
  payload = 5 ∷ 6 ∷ [];
  kid = id;
  kind = kind;
  ts = 1000;
  nonce = nonce;
  sig = 1 ∷ 2 ∷ 3 ∷ signing_bytes toy kind 1000 nonce (5 ∷ 6 ∷ []);
}

abbrev revoke : Revoke
revoke = record { grant_id = 1 ∷ []; fid = 7 ∷ []; ts = 1000 }

abbrev announcing : DeviceAnnounce
announcing = record { x25519_pub = 8 ∷ []; ed25519_pub = key; label = none; ts = 1000 }

abbrev asks : AccessRequest
asks = record {
  fid = 7 ∷ [];
  header_hash = [];
  owner = 9 ∷ [];
  device_kid = id;
  x25519_pub = [];
  ed25519_pub = key;
  requested = 1;
  nonce = nonce;
  hint = none;
  ts = 1000;
}

abbrev gives : GrantMsg
gives = record {
  request_nonce = nonce;
  grant = none;
  owner_sig = none;
  envelope = none;
  tx_hash = none;
  decision = 0;
  ts = 1000;
}

abbrev publishes : VersionMsg
publishes = record {
  fid = 7 ∷ [];
  owner = 9 ∷ [];
  prev_header_hash = [];
  header_hash = [];
  ver = 2;
  grant_id = [];
  owner_envelope = [];
  ed25519_pub = key;
  ts = 1000;
}

-- A relay to which one envelope is posted, of the kind given.
abbrev wire : Kind → Wire
wire kind = record {
  primitives = toy;
  signed = only (envelope kind) (1 ∷ []);
  device_announce = only announcing (5 ∷ 6 ∷ []);
  access_request = only asks (5 ∷ 6 ∷ []);
  grant_msg = only gives (5 ∷ 6 ∷ []);
  revoke = only revoke (5 ∷ 6 ∷ []);
  version_msg = only publishes (5 ∷ 6 ∷ []);
  unhex = λ b. some b;
}

abbrev at : ℕ → Readings
at s = record {
  verify_unix = 1000 + s;
  arrived = from_secs s;
  looked_up = from_secs s;
  noted = from_secs s;
  queue_unix = 1000 + s;
  id_for = λ b. replicate 16 0;
  queued = from_secs s;
}

abbrev owner_device : Device
owner_device = record { ed25519_pub = key; x25519_pub = 8 ∷ []; label = none }

abbrev relay : Relay
relay = announce id owner_device new

abbrev as_revoke : Message Revoke
as_revoke = revoke_msg (only revoke (5 ∷ 6 ∷ []))

abbrev after_revoke : Relay
after_revoke = (authenticate (wire Kind.revoke) as_revoke (1 ∷ []) (at 10) relay).0

revoke_accepted :
    authenticate (wire Kind.revoke) as_revoke (1 ∷ []) (at 10) relay
    ≡ (after_revoke, ok (envelope Kind.revoke, revoke))
unfolding authenticate ◌>>=◌ from_bytes verify verify_raw same_kind bytes_beq kid_of device_of
    announce new take_quota take_nonce toy_hash toy_verify signing_bytes as_str to_le_bytes
    to_be_bytes revoke_msg pop_while
revoke_accepted = refl

authenticate-Spent_example :
    Spent
      (wire Kind.revoke)
      as_revoke
      (1 ∷ [])
      (at 10)
      relay
      (authenticate (wire Kind.revoke) as_revoke (1 ∷ []) (at 10) relay).0
authenticate-Spent_example = authenticate-Spent (wire Kind.revoke) as_revoke (1 ∷ []) (at 10) relay

abbrev announces_it : Relay
announces_it = (devices (wire Kind.announce) (1 ∷ []) (at 10) new).0

announcement_accepted :
    devices (wire Kind.announce) (1 ∷ []) (at 10) new ≡ (announces_it, ok (accept id))
unfolding devices register ◌>>=◌ from_bytes verify verify_raw same_kind bytes_beq kid_of device_of
    announce new take_quota take_nonce toy_hash toy_verify signing_bytes as_str to_le_bytes
    to_be_bytes device_announce pop_while
announcement_accepted = refl

replay_refused_example : ¬ Passes (wire Kind.announce) (1 ∷ []) (at 60) announces_it announces_it
replay_refused_example =
    replay_refused (wire Kind.announce) (1 ∷ []) (at 10) (at 60) new announces_it announces_it
      announces_it (announcement (accept id) announcement_accepted) here (omega arith)

run-new-Registered_example :
    Registered toy (run (wire Kind.announce) new (posts_device (1 ∷ []) (at 10) ∷ []))
run-new-Registered_example =
    run-new-Registered (wire Kind.announce) (posts_device (1 ∷ []) (at 10) ∷ [])

registers :
    device_of (run (wire Kind.announce) new (posts_device (1 ∷ []) (at 10) ∷ [])) id
    ≡ some owner_device
unfolding run serve devices register ◌>>=◌ from_bytes verify verify_raw same_kind bytes_beq kid_of
    device_of announce new take_quota take_nonce toy_hash toy_verify signing_bytes as_str
    to_le_bytes to_be_bytes device_announce pop_while
registers = refl

abbrev twice : List Operation
twice = takes_quota id (from_secs 1) ∷ takes_quota id (from_secs 2) ∷ []

accepted_calls-WithinQuota_example : WithinQuota (accepted_calls id new twice [])
unfolding bytes_beq kid_of toy_hash to_be_bytes
accepted_calls-WithinQuota_example = accepted_calls-WithinQuota id twice (omega arith)

abbrev traffic : List Operation
traffic =
    enqueues (Inbox.device id) Kind.grant (1 ∷ []) 0 [] (from_secs 1)
    ∷ drains (Inbox.device id) (from_secs 2)
    ∷ enqueues (Inbox.device id) Kind.revoke (2 ∷ []) 0 [] (from_secs 3)
    ∷ enqueues (Inbox.owner (9 ∷ [])) Kind.req (3 ∷ []) 0 [] (from_secs 3)
    ∷ []

drain-mailbox_example :
    (drain (Inbox.device id) (from_secs 4) (perform_all traffic new)).1
    ≡ envelopes (keep (in_time (from_secs 4)) (mailbox (Inbox.device id) traffic []))
drain-mailbox_example = drain-mailbox (Inbox.device id) (from_secs 4) traffic (omega arith)

abbrev questions : List Operation
questions =
    remembers_request nonce (1 ∷ []) (from_secs 1)
    ∷ remembers_interest (7 ∷ []) (1 ∷ []) (from_secs 1)
    ∷ asks_route nonce (from_secs 2)
    ∷ remembers_request nonce id (from_secs 3)
    ∷ remembers_interest (7 ∷ []) id (from_secs 3)
    ∷ remembers_interest (7 ∷ []) (1 ∷ []) (from_secs 4)
    ∷ []

route_for-asked_example :
    (route_for nonce (from_secs 5) (perform_all questions new)).1
    ≡ answer_to (from_secs 5) (asked nonce questions none)
route_for-asked_example = route_for-asked nonce (from_secs 5) questions (omega arith)

abbrev before_revoke : List Operation
before_revoke = announces id owner_device ∷ questions

abbrev revoked_then : Relay
revoked_then =
    (authenticate (wire Kind.revoke) as_revoke (1 ∷ []) (at 10) (perform_all before_revoke new)).0

revoke_authentic :
    authenticate (wire Kind.revoke) as_revoke (1 ∷ []) (at 10) (perform_all before_revoke new)
    ≡ (revoked_then, ok (envelope Kind.revoke, revoke))
unfolding authenticate ◌>>=◌ from_bytes verify verify_raw same_kind bytes_beq kid_of device_of
    announce new take_quota take_nonce toy_hash toy_verify signing_bytes as_str to_le_bytes
    to_be_bytes revoke_msg perform_all perform remember_interest remember_request route_for
    pop_while
revoke_authentic = refl

revocations-reach_example :
    All
      (Got
        (1 ∷ [])
        (at 10)
        (revocations (wire Kind.revoke) (1 ∷ []) (at 10) (perform_all before_revoke new)).0)
      (kids (keep (young (from_secs 10)) (askers (7 ∷ []) before_revoke [])))
revocations-reach_example =
    revocations-reach (wire Kind.revoke) (1 ∷ []) (at 10) before_revoke revoked_then
      (envelope Kind.revoke) revoke (omega arith) revoke_authentic

abbrev registered : List Operation
registered = announces id owner_device ∷ []

abbrev asked_then : Relay
asked_then = (requests (wire Kind.req) (1 ∷ []) (at 10) (perform_all registered new)).0

request_accepted :
    requests (wire Kind.req) (1 ∷ []) (at 10) (perform_all registered new)
    ≡ (asked_then, ok (accept (replicate 16 0)))
unfolding requests authenticate ◌>>=◌ from_bytes verify verify_raw same_kind bytes_beq kid_of
    device_of announce new take_quota take_nonce toy_hash toy_verify signing_bytes as_str
    to_le_bytes to_be_bytes access_request perform_all perform remember_interest remember_request
    pop_while
request_accepted = refl

handler-Goes_example : Goes (wire Kind.req) (1 ∷ []) (at 10) registered asked_then request
handler-Goes_example =
    handler-Goes (wire Kind.req) request (1 ∷ []) (at 10) registered asked_then
      (accept (replicate 16 0)) (tt, tt) request_accepted
