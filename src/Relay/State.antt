-- ===== src/Relay/State.antt =====
-- apps/relay/src/state.rs. Each operation runs under one lock, so it is a function on the state; a
-- `HashMap` is a function from keys (its size, which only `device_count` reads, is not modelled).
-- An `Instant` is in nanoseconds, and `duration_since` stops at 0. Times that an operation reads
-- itself, and the random id of a queued message, are arguments.
use z_bacs.Prelude.{
  ℕ, ◌-◌, ◌*◌, Bool, true, false, not, ◌||◌, ◌≡◌, ◌↔◌, Option, none, some, List, [], ◌∷◌, ◌++◌, map,
  Result, ok, err, ltb, leb, arith, if◌then◌else◌, length, keep,
}
use z_bacs.Prelude.Bytes.{Bytes, bytes_beq, bytes_beq_iff, bytes_eq}
use z_bacs.Prelude.Maps.{Map, Eq, empty, put, retain, entry_or}
use z_bacs.Proto.Messages.{Envelope, Kind}

abbrev pub Instant : Type 0
Instant = ℕ

-- `Duration::from_secs`.
abbrev pub from_secs : ℕ → ℕ
from_secs s = s * 1_000_000_000

-- `now.duration_since(t)`.
abbrev pub since : Instant → Instant → ℕ
since now t = now - t

abbrev pub queue_ttl : ℕ
queue_ttl = from_secs 86_400

abbrev pub rate_per_minute : ℕ
rate_per_minute = 30

abbrev pub rate_per_hour : ℕ
rate_per_hour = 300

abbrev pub nonce_memory_secs : ℕ
nonce_memory_secs = 300

pub data Inbox : Type 0 where
  owner device : Bytes → Inbox

unfoldable pub inbox_beq : Inbox → Inbox → Bool
inbox_beq (owner a) (owner b) = bytes_beq a b
inbox_beq (device a) (device b) = bytes_beq a b
inbox_beq _ _ = false

pub inbox_beq_iff : (a b : Inbox) → (inbox_beq a b ≡ true) ↔ (a ≡ b)
unfolding inbox_beq
inbox_beq_iff (owner a) (owner b) = ground (arith, bytes_beq_iff a b)
inbox_beq_iff (device a) (device b) = ground (arith, bytes_beq_iff a b)
inbox_beq_iff _ _ = ground arith

instance abbrev pub inbox_eq : Eq Inbox
inbox_eq = record { beq = inbox_beq; beq_iff = inbox_beq_iff }

pub record Queued : Type 0 where
  pub envelope : Envelope
  pub queued_at : Instant

pub record Device : Type 0 where
  pub ed25519_pub : Bytes
  pub x25519_pub : Bytes
  pub label : Option Bytes

-- `Inner`.
pub record Relay : Type 0 where
  pub devices : Map Bytes Device
  pub queues : Map Inbox (List Queued)
  pub nonces : Map Bytes Instant
  pub request_routes : Map Bytes (Bytes × Instant)
  pub interests : Map Bytes (List (Bytes × Instant))
  pub calls : Map Bytes (List Instant)

pub data Refusal : Type 0 where
  unknown_device replayed rate_limited unknown_request : Refusal

unfoldable pub new : Relay
new = record {
  devices = empty;
  queues = empty;
  nonces = empty;
  request_routes = empty;
  interests = empty;
  calls = empty;
}

unfoldable pub announce : Bytes → Device → Relay → Relay
announce kid d r = record r { devices = put r.devices kid d }

unfoldable pub device_of : Relay → Bytes → Option Device
device_of r kid = r.devices kid

-- `while front().is_some_and(|t| p(t)) { pop_front() }`.
unfoldable pub pop_while {ℓ} : {A : Type ℓ} → (A → Bool) → List A → List A
pop_while p [] = []
pop_while p (x ∷ xs) = if p x then pop_while p xs else x ∷ xs

abbrev pub older_than_hour : Instant → Instant → Bool
older_than_hour now t = ltb (from_secs 3600) (since now t)

abbrev pub within_minute : Instant → Instant → Bool
within_minute now t = leb (since now t) (from_secs 60)

-- The calls of one device, after the pops and the push of `take_quota`.
unfoldable pub count_call : List Instant → Instant → List Instant × Result Refusal (Unit {0})
count_call calls now =
    let recent = pop_while (older_than_hour now) calls in
    if leb rate_per_minute (length (keep (within_minute now) recent))
      || leb rate_per_hour (length recent)
    then (recent, err rate_limited)
    else (recent ++ (now ∷ []), ok tt)

unfoldable pub take_quota : Bytes → Instant → Relay → Relay × Result Refusal (Unit {0})
unfolding count_call
take_quota kid now r =
    let (calls, answer) = count_call (entry_or r.calls kid []) now in
    (record r { calls = put r.calls kid calls }, answer)

-- The entry of a nonce is kept while it is younger than the memory.
abbrev pub remembered : Instant → Instant → Option Instant
remembered now seen = if ltb (since now seen) (from_secs nonce_memory_secs) then some seen else none

unfoldable pub take_nonce : Bytes → Instant → Relay → Relay × Result Refusal (Unit {0})
take_nonce nonce now r =
    let nonces = retain (remembered now) r.nonces in
    elim (nonces nonce) [
      | some _ ↦ (record r { nonces = nonces }, err replayed)
      | none ↦ (record r { nonces = put nonces nonce now }, ok tt)
    ]

unfoldable pub remember_request : Bytes → Bytes → Instant → Relay → Relay
remember_request request_nonce kid now r = record r {
  request_routes = put r.request_routes request_nonce (kid, now);
}

abbrev pub others : Bytes → List (Bytes × Instant) → List (Bytes × Instant)
others kid = keep (λ e. not (bytes_beq e.0 kid))

unfoldable pub remember_interest : Bytes → Bytes → Instant → Relay → Relay
remember_interest fid kid now r = record r {
  interests = put r.interests fid (others kid (entry_or r.interests fid []) ++ ((kid, now) ∷ []));
}

-- The closure of `interests.retain`: the fresh entries, and nothing where none is left.
abbrev pub if_any : List (Bytes × Instant) → Option (List (Bytes × Instant))
if_any [] = none
if_any (e ∷ es) = some (e ∷ es)

abbrev pub fresh_entries : Instant → List (Bytes × Instant) → Option (List (Bytes × Instant))
fresh_entries now l = if_any (keep (λ e. ltb (since now e.1) queue_ttl) l)

abbrev pub kids : List (Bytes × Instant) → List Bytes
kids = map (λ e. e.0)

unfoldable pub interested : Bytes → Instant → Relay → Relay × List Bytes
interested fid now r =
    let interests = retain (fresh_entries now) r.interests in
    (record r { interests = interests }, kids (entry_or interests fid []))

abbrev pub fresh_route : Instant → Bytes × Instant → Option (Bytes × Instant)
fresh_route now e = if ltb (since now e.1) queue_ttl then some e else none

unfoldable pub route_for : Bytes → Instant → Relay → Relay × Result Refusal Bytes
route_for request_nonce now r =
    let routes = retain (fresh_route now) r.request_routes in
    (
      record r { request_routes = routes },
      elim (routes request_nonce) [ none ↦ err unknown_request | some e ↦ ok e.0 ],
    )

abbrev pub overdue : Instant → Queued → Bool
overdue now q = ltb queue_ttl (since now q.queued_at)

-- `id` is the random id, `unix` the sender's wall clock and `now` the instant of queueing.
unfoldable pub enqueue : Inbox → Kind → Bytes → ℕ → Bytes → Instant → Relay → Relay
unfolding pop_while
enqueue inbox kind body unix id now r =
    let e : Envelope = record { id = id; kind = kind; body = body; queued_at = unix } in
    let q : Queued = record { envelope = e; queued_at = now } in
    record r {
      queues =
          put r.queues inbox (pop_while (overdue now) (entry_or r.queues inbox []) ++ (q ∷ []));
    }

abbrev pub in_time : Instant → Queued → Bool
in_time now q = leb (since now q.queued_at) queue_ttl

abbrev pub envelopes : List Queued → List Envelope
envelopes = map (λ q. q.envelope)

unfoldable pub drain : Inbox → Instant → Relay → Relay × List Envelope
drain inbox now r = elim (r.queues inbox) [
  | none ↦ (r, [])
  | some queue ↦ (record r { queues = put r.queues inbox [] }, envelopes (keep (in_time now) queue))
]

unfoldable pub queued : Relay → Inbox → ℕ
queued r inbox = length (entry_or r.queues inbox [])
