-- ===== src/Relay/Calls.antt =====
-- Every HTTP call of the relay is a sequence of legal operations of its state layer.
use z_bacs.Prelude.{
  ℕ, ◌≤◌, Bool, true, Option, List, [], ◌∷◌, Result, ◌≡◌, refl, inl, inr, Bool-cases,
}
use z_bacs.Prelude.Bytes.{Bytes, bytes_beq, bytes_beq_iff}
use z_bacs.Proto.External.{Primitives}
use z_bacs.Proto.Messages.{
  Kind, ErrorCode, Message, DeviceAnnounce, AccessRequest, GrantMsg, VersionMsg, Revoke,
}
use z_bacs.Proto.Signed.{Signed, kid_of}
use z_bacs.Relay.State.{
  Relay, Inbox, Instant, take_quota, take_nonce, interested, route_for, enqueue, drain,
}
use z_bacs.Relay.Handler.{Handler, ◌>>=◌, pure, lift, reject_if, gets, modify, act, attempt}
use z_bacs.Relay.Routes.{
  Wire, Readings, authenticate, register, devices, requests, grants, versions, revocations, inbox,
  broadcast, pump_tick, Call, posts_device, posts_request, posts_grant, posts_version,
  posts_revocation, gets_inbox, ticks, serve,
}
use z_bacs.Relay.Operations.{
  Operation, announces, takes_quota, takes_nonce, remembers_request, remembers_interest,
  asks_interested, asks_route, enqueues, drains, perform, Reach, here, next, Reach-trans, Runs,
  bind-Runs, still-Runs, attempt-Runs, one-Runs,
}

-- An operation no later than `last`; a device is registered under the id of its own key only.
abbrev pub Legal : Primitives → Instant → Operation → Type 0
Legal c last (announces kid d) = kid_of c d.ed25519_pub ≡ kid
Legal c last (takes_quota kid now) = now ≤ last
Legal c last (takes_nonce n now) = now ≤ last
Legal c last (remembers_request n kid now) = now ≤ last
Legal c last (remembers_interest fid kid now) = now ≤ last
Legal c last (asks_interested fid now) = now ≤ last
Legal c last (asks_route n now) = now ≤ last
Legal c last (enqueues i k body unix id now) = now ≤ last
Legal c last (drains i now) = now ≤ last

pub record Timely (last : Instant) (t : Readings) : Type 0 where
  pub arrived : t.arrived ≤ last
  pub looked_up : t.looked_up ≤ last
  pub noted : t.noted ≤ last
  pub queued : t.queued ≤ last

module _ (w : Wire) (last : Instant) where
  abbrev Good : {A : Type 0} → Handler A → Type 0
  Good m = Runs (Legal w.primitives last) m

  lift-Good : {A : Type 0} (a : Result ErrorCode A) → Good (lift a)
  lift-Good a = still-Runs _ (lift a) (λ r. unfold lift in refl)

  gets-Good : {A : Type 0} (f : Relay → A) → Good (gets f)
  gets-Good f = still-Runs _ (gets f) (λ r. unfold gets in refl)

  pure-Good : {A : Type 0} (a : A) → Good (pure a)
  pure-Good a = still-Runs _ (pure a) (λ r. unfold pure in refl)

  modify-Good :
      (f : Relay → Relay) (op : Operation)
      → Legal w.primitives last op
      → ((r : Relay) → f r ≡ perform op r)
      → Good (modify f)
  unfolding modify
  modify-Good f op l h = one-Runs _ (modify f) op l h

  quota-Good : (kid : Bytes) (now : Instant) → now ≤ last → Good (attempt (take_quota kid now))
  unfolding perform
  quota-Good kid now h = attempt-Runs _ _ (takes_quota kid now) h (λ r. refl)

  nonce-Good : (n : Bytes) (now : Instant) → now ≤ last → Good (attempt (take_nonce n now))
  unfolding perform
  nonce-Good n now h = attempt-Runs _ _ (takes_nonce n now) h (λ r. refl)

  route-Good : (n : Bytes) (now : Instant) → now ≤ last → Good (attempt (route_for n now))
  unfolding perform
  route-Good n now h = attempt-Runs _ _ (asks_route n now) h (λ r. refl)

  enqueue-Good :
      (i : Inbox) (k : Kind) (body : Bytes) (unix : ℕ) (id : Bytes) (now : Instant)
      → now ≤ last
      → Good (modify (enqueue i k body unix id now))
  unfolding perform
  enqueue-Good i k body unix id now h = modify-Good _ (enqueues i k body unix id now) h (λ r. refl)

  authenticate-Good :
      {A : Type 0} (m : Message A) (body : Bytes) (t : Readings)
      → Timely last t
      → Good (authenticate w m body t)
  unfolding authenticate
  authenticate-Good {A} m body t h = bind-Runs _ _ _ (lift-Good _) λ _.
      bind-Runs _ _ _ (lift-Good _) λ (signed : Signed). bind-Runs _ _ _ (gets-Good _) λ found.
        bind-Runs _ _ _ (lift-Good _) λ device.
          bind-Runs _ _ _ (lift-Good _) λ (verified : A × Bytes).
            bind-Runs _ _ _ (quota-Good signed.kid t.arrived h.arrived)
              λ _. bind-Runs _ _ _ (nonce-Good (verified.1) t.arrived h.arrived) λ _. pure-Good _

  enqueue-then :
      {A : Type 0} (i : Inbox) (k : Kind) (body : Bytes) (t : Readings) (id : Bytes) (a : A)
      → Timely last t
      → Good (modify (enqueue i k body t.queue_unix id t.queued) >>= λ _. pure a)
  enqueue-then i k body t id a h =
      bind-Runs _ _ _ (enqueue-Good i k body t.queue_unix id t.queued h.queued) λ _. pure-Good a

  rejected-Good :
      {A : Type 0} (b : Bool) (e : ErrorCode) (f : Unit {0} → Handler A)
      → b ≡ true
      → Good (reject_if b e >>= f)
  unfolding ◌>>=◌
  rejected-Good b e f h = still-Runs _ _ (λ r. rw h refl)

  -- The end of `devices`, on whether the key id is the one that signed.
  announce-Good :
      (signed : Signed) (payload : DeviceAnnounce) (nonce : Bytes) (t : Readings)
      → Timely last t
      → Good (register w signed payload nonce t)
  unfolding register perform
  announce-Good signed payload nonce t h =
      elim (Bool-cases (bytes_beq (kid_of w.primitives payload.ed25519_pub) signed.kid)) [
        | inl same ↦ bind-Runs _ _ _ (lift-Good _) λ _. bind-Runs _ _ _ (lift-Good _) λ _.
            bind-Runs _ _ _ (quota-Good signed.kid t.arrived h.arrived) λ _.
              bind-Runs _ _ _ (nonce-Good nonce t.arrived h.arrived) λ _.
                bind-Runs _ _ _
                  (modify-Good _ (announces signed.kid _) ((bytes_beq_iff _ _).0 same) (λ r. refl))
                  λ _. pure-Good _
        | inr other ↦ rejected-Good _ _ _ (rw other refl)
      ]

  devices-Good : (body : Bytes) (t : Readings) → Timely last t → Good (devices w body t)
  unfolding devices
  devices-Good body t h = bind-Runs _ _ _ (lift-Good _) λ _.
      bind-Runs _ _ _ (lift-Good _) λ (signed : Signed).
        bind-Runs _ _ _ (lift-Good _) λ (claimed : DeviceAnnounce).
          bind-Runs _ _ _ (lift-Good _) λ (verified : DeviceAnnounce × Bytes).
            announce-Good signed (verified.0) (verified.1) t h

  requests-Good : (body : Bytes) (t : Readings) → Timely last t → Good (requests w body t)
  unfolding requests perform
  requests-Good body t h =
      bind-Runs _ _ _ (authenticate-Good _ body t h) λ (sent : Signed × AccessRequest).
        bind-Runs _ _ _ (lift-Good _) λ _. bind-Runs _ _ _ (lift-Good _) λ _.
          bind-Runs _ _ _
            (modify-Good _ (remembers_request _ _ t.looked_up) h.looked_up (λ r. refl))
            λ _.
              bind-Runs _ _ _ (modify-Good _ (remembers_interest _ _ t.noted) h.noted (λ r. refl))
                λ _. enqueue-then _ _ body t _ _ h

  grants-Good : (body : Bytes) (t : Readings) → Timely last t → Good (grants w body t)
  unfolding grants
  grants-Good body t h =
      bind-Runs _ _ _ (authenticate-Good _ body t h) λ (sent : Signed × GrantMsg).
        bind-Runs _ _ _ (route-Good _ t.looked_up h.looked_up) λ _. enqueue-then _ _ body t _ _ h

  versions-Good : (body : Bytes) (t : Readings) → Timely last t → Good (versions w body t)
  unfolding versions
  versions-Good body t h =
      bind-Runs _ _ _ (authenticate-Good _ body t h) λ (sent : Signed × VersionMsg).
        bind-Runs _ _ _ (lift-Good _)
          λ _. bind-Runs _ _ _ (lift-Good _) λ _. enqueue-then _ _ body t _ _ h

  broadcast-Reach :
      (body : Bytes) (t : Readings) (ks : List Bytes) (id : Bytes) (r : Relay)
      → t.queued ≤ last
      → Reach (Legal w.primitives last) r (broadcast body t ks id r).0
  unfolding broadcast perform
  broadcast-Reach body t [] id r h = here
  broadcast-Reach body t (k ∷ ks) id r h =
      Reach-trans
        (next (enqueues (Inbox.device k) Kind.revoke body t.queue_unix (t.id_for k) t.queued) h
          here)
        (broadcast-Reach body t ks (t.id_for k) _ h)

  broadcast-Good :
      (body : Bytes) (t : Readings) (ks : List Bytes) (id : Bytes)
      → t.queued ≤ last
      → Good (act (broadcast body t ks id))
  unfolding Runs act
  broadcast-Good body t ks id h r = broadcast-Reach body t ks id r h

  interested-Good : (fid : Bytes) (now : Instant) → now ≤ last → Good (act (interested fid now))
  unfolding act perform
  interested-Good fid now h = one-Runs _ _ (asks_interested fid now) h (λ r. refl)

  drain-Good : (i : Inbox) (now : Instant) → now ≤ last → Good (act (drain i now))
  unfolding act perform
  drain-Good i now h = one-Runs _ _ (drains i now) h (λ r. refl)

  revocations-Good : (body : Bytes) (t : Readings) → Timely last t → Good (revocations w body t)
  unfolding revocations
  revocations-Good body t h =
      bind-Runs _ _ _ (authenticate-Good _ body t h) λ (sent : Signed × Revoke).
        bind-Runs _ _ _ (interested-Good _ t.looked_up h.looked_up)
          λ _. bind-Runs _ _ _ (broadcast-Good body t _ _ h.queued) λ _. pure-Good _

  inbox-Good : (o d : Option Bytes) (now : Instant) → now ≤ last → Good (inbox w o d now)
  unfolding inbox
  inbox-Good o d now h =
      bind-Runs _ _ _ (lift-Good _)
        λ target. bind-Runs _ _ _ (drain-Good target now h) λ _. pure-Good _

  -- The instants that a call reads.
  abbrev pub CallTimely : Call → Type 0
  CallTimely (posts_device body t) = Timely last t
  CallTimely (posts_request body t) = Timely last t
  CallTimely (posts_grant body t) = Timely last t
  CallTimely (posts_version body t) = Timely last t
  CallTimely (posts_revocation body t) = Timely last t
  CallTimely (gets_inbox o d now) = now ≤ last
  CallTimely (ticks target now room) = now ≤ last

  -- Every call to the relay, whatever it answers, does nothing to the state but a sequence of legal
  -- operations: none later than the last instant that it reads, and no key registered under an id
  -- that is not its own.
  pub serve-Reach :
      (call : Call) (r : Relay)
      → CallTimely call
      → Reach (Legal w.primitives last) r (serve w call r)
  unfolding serve Runs pump_tick perform
  serve-Reach (posts_device body t) r h = devices-Good body t h r
  serve-Reach (posts_request body t) r h = requests-Good body t h r
  serve-Reach (posts_grant body t) r h = grants-Good body t h r
  serve-Reach (posts_version body t) r h = versions-Good body t h r
  serve-Reach (posts_revocation body t) r h = revocations-Good body t h r
  serve-Reach (gets_inbox o d now) r h = inbox-Good o d now h r
  serve-Reach (ticks target now room) r h = next (drains target now) h here
