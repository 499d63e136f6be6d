-- ===== src/Relay/Replay.antt =====
-- Replays: `authenticate` of apps/relay/src/routes.rs and the nonce memory of src/state.rs.
use z_bacs.Prelude.{
  ℕ, ◌+◌, ◌-◌, ◌≤◌, ◌<◌, some, Result, ok, ◌≡◌, ◌≢◌, ap, subst, arith, refl, sym, ◌∙◌, map_err-ok,
}
use z_bacs.Prelude.Bytes.{Bytes, bytes_beq_iff, abs_diff}
use z_bacs.Proto.External.{Primitives}
use z_bacs.Proto.Messages.{
  Message, ErrorCode, AccessRequest, GrantMsg, VersionMsg, Revoke, device_announce, access_request,
  grant_msg, version_msg, revoke_msg,
}
use z_bacs.Proto.Signed.{Signed, max_skew_secs, from_bytes, verify}
use z_bacs.Proto.Authenticity.{verify-ok_iff}
use z_bacs.Relay.State.{
  Relay, Device, Inbox, Instant, Refusal, from_secs, since, nonce_memory_secs, remembered, announce,
  take_quota, take_nonce, remember_request, remember_interest, interested, route_for, enqueue,
  drain,
}
use z_bacs.Relay.Routes.{Wire, Readings, Answer, authenticate, devices, register, or_else}
use z_bacs.Relay.Handler.{Handler, ◌>>=◌, ◌>>◌, bind_lift, bind_attempt, modify, pure}
use z_bacs.Relay.Operations.{Operation, takes_nonce, drains, perform, Reach, Reach-inv}
use z_bacs.Relay.Authentication.{authenticate-Authentic}
use z_bacs.Relay.Calls.{Legal}

abbrev Knows : Bytes → Instant → Relay → Type 0
Knows n seen r = r.nonces n ≡ some seen

remembered_young :
    (now seen : Instant)
    → since now seen < from_secs nonce_memory_secs
    → remembered now seen ≡ some seen
remembered_young now seen h = ground arith

take_nonce-Knows :
    (n other : Bytes) (now seen : Instant) (r : Relay)
    → since now seen < from_secs nonce_memory_secs
    → Knows n seen r
    → Knows n seen (take_nonce other now r).0
unfolding take_nonce
take_nonce-Knows n other now seen r young h =
    ground (arith, remembered_young now seen young, bytes_beq_iff other n)

drain-nonces : (i : Inbox) (now : Instant) (r : Relay) → (drain i now r).0.nonces ≡ r.nonces
unfolding drain
drain-nonces i now r = ground arith

perform-Knows :
    (c : Primitives) (n : Bytes) (seen last : Instant) (op : Operation) (r : Relay)
    → since last seen < from_secs nonce_memory_secs
    → Legal c last op
    → Knows n seen r
    → Knows n seen (perform op r)
unfolding perform announce take_quota remember_request remember_interest interested route_for
    enqueue
perform-Knows c n seen last (takes_nonce other now) r young l k =
    take_nonce-Knows n other now seen r (omega arith) k
perform-Knows c n seen last (drains i now) r young l k = rw (drain-nonces i now r) k
perform-Knows c n seen last _ r young l k = k

take_nonce-recorded :
    (n : Bytes) (now : Instant) (r s : Relay) → take_nonce n now r ≡ (s, ok tt) → Knows n now s
unfolding take_nonce
take_nonce-recorded n now r s h = ground (arith, bytes_beq_iff n n)

take_nonce-refused :
    (n : Bytes) (now seen : Instant) (r s : Relay)
    → since now seen < from_secs nonce_memory_secs
    → Knows n seen r
    → take_nonce n now r ≢ (s, ok tt)
unfolding take_nonce
take_nonce-refused n now seen r s young k h = ground (arith, remembered_young now seen young)

-- Elapsed time by the two clocks of the relay: the wall clock lags at most a minute behind.
abbrev pub ClocksAgree : Readings → Readings → Type 0
ClocksAgree t t' = since t'.arrived t.arrived < from_secs (t'.verify_unix - t.verify_unix + 60)

young_within_skew :
    (t t' : Readings) (ts : ℕ)
    → abs_diff t.verify_unix ts ≤ max_skew_secs
    → abs_diff t'.verify_unix ts ≤ max_skew_secs
    → ClocksAgree t t'
    → since t'.arrived t.arrived < from_secs nonce_memory_secs
young_within_skew t t' ts h h' c = omega arith

quota-nonces :
    (kid : Bytes) (now : Instant) (r : Relay) {s : Relay} {u : Result Refusal (Unit {0})}
    → take_quota kid now r ≡ (s, u)
    → r.nonces ≡ s.nonces
unfolding take_quota
quota-nonces kid now r h = ap (λ x. x.0.nonces) h

-- What a message has passed that is accepted.
record Received (w : Wire) (body : Bytes) (t : Readings) (r s : Relay) : Type 0 where
  pub sent : Signed
  pub metered : Relay
  pub stored : Relay
  pub parses : from_bytes w.signed body ≡ ok sent
  pub fresh : abs_diff t.verify_unix sent.ts ≤ max_skew_secs
  pub within_quota : take_quota sent.kid t.arrived r ≡ (metered, ok tt)
  pub not_replayed : take_nonce sent.nonce t.arrived metered ≡ (stored, ok tt)
  pub nonces_are : s.nonces ≡ stored.nonces

authenticate-Received :
    {A : Type 0} (w : Wire) (m : Message A) (body : Bytes) (t : Readings) (r s : Relay)
    (x : Signed × A)
    → authenticate w m body t r ≡ (s, ok x)
    → Received w body t r s
authenticate-Received w m body t r s (sent, a) h =
    let one = authenticate-Authentic w m body t r s sent a h in
    record {
      sent = sent;
      metered = one.metered;
      stored = s;
      parses = one.parses;
      fresh =
          ((verify-ok_iff w.primitives m sent _ t.verify_unix a sent.nonce).0 one.accepted).fresh;
      within_quota = one.within_quota;
      not_replayed = one.not_replayed;
      nonces_are = refl;
    }

pub modify_then :
    {B : Type 0} (g : Relay → Relay) (f : Handler B) (r : Relay) {y : Relay × Result ErrorCode B}
    → (modify g >> f) r ≡ y
    → f (g r) ≡ y
unfolding ◌>>=◌
modify_then g f r h = h

announced-nonces :
    (kid : Bytes) (d : Device) (a a' : Answer) (r s : Relay)
    → pure a (announce kid d r) ≡ (s, ok a')
    → s.nonces ≡ r.nonces
unfolding pure announce
announced-nonces kid d a a' r s h = sym (ap (λ y. y.0.nonces) h)

parsed :
    (w : Wire) (body : Bytes) {sent : Signed}
    → or_else (from_bytes w.signed body) ErrorCode.malformed ≡ ok sent
    → from_bytes w.signed body ≡ ok sent
parsed w body h = map_err-ok _ (from_bytes w.signed body) h

devices-Received :
    (w : Wire) (body : Bytes) (t : Readings) (r s : Relay) (a : Answer)
    → devices w body t r ≡ (s, ok a)
    → Received w body t r s
unfolding devices register
devices-Received w body t r s a h =
    let (_, _, h₁) = bind_lift _ _ r h in
    let (signed, parses, h₂) = bind_lift _ _ r h₁ in
    let (claimed, _, h₃) = bind_lift _ _ r h₂ in
    let ((payload, nonce), verified, h₄) = bind_lift _ _ r h₃ in
    let (_, _, h₅) = bind_lift _ _ r h₄ in
    let (_, _, h₆) = bind_lift _ _ r h₅ in
    let (metered, u, quota, h₇) = bind_attempt _ _ r h₆ in
    let (stored, v, fresh, h₈) = bind_attempt _ _ metered h₇ in
    let h₉ = modify_then _ _ stored h₈ in
    let m = device_announce w.device_announce in
    let accepted =
      (verify-ok_iff w.primitives m signed claimed.ed25519_pub t.verify_unix payload nonce).0
        (map_err-ok _ (verify w.primitives m signed claimed.ed25519_pub t.verify_unix) verified) in
    record {
      sent = signed;
      metered = metered;
      stored = stored;
      parses = parsed w body parses;
      fresh = accepted.fresh;
      within_quota = quota;
      not_replayed =
          subst (λ n. take_nonce n t.arrived metered ≡ (stored, ok tt)) accepted.nonce_is fresh;
      nonces_are = announced-nonces signed.kid _ _ a stored s h₉;
    }

-- A body that the relay accepts, as a message of any of its types: as an announcement of a device, or
-- through the check that each of the other posts starts with.
pub data Passes (w : Wire) (body : Bytes) (t : Readings) (r s : Relay) : Type 0 where
  announcement : (a : Answer) → devices w body t r ≡ (s, ok a) → Passes w body t r s
  request :
      (x : Signed × AccessRequest)
      → authenticate w (access_request w.access_request) body t r ≡ (s, ok x)
      → Passes w body t r s
  grant :
      (x : Signed × GrantMsg)
      → authenticate w (grant_msg w.grant_msg) body t r ≡ (s, ok x)
      → Passes w body t r s
  version :
      (x : Signed × VersionMsg)
      → authenticate w (version_msg w.version_msg) body t r ≡ (s, ok x)
      → Passes w body t r s
  revocation :
      (x : Signed × Revoke)
      → authenticate w (revoke_msg w.revoke) body t r ≡ (s, ok x)
      → Passes w body t r s

Passes-Received :
    (w : Wire) (body : Bytes) (t : Readings) (r s : Relay)
    → Passes w body t r s
    → Received w body t r s
Passes-Received w body t r s (announcement a h) = devices-Received w body t r s a h
Passes-Received w body t r s (request x h) = authenticate-Received w _ body t r s x h
Passes-Received w body t r s (Passes.grant x h) = authenticate-Received w _ body t r s x h
Passes-Received w body t r s (version x h) = authenticate-Received w _ body t r s x h
Passes-Received w body t r s (revocation x h) = authenticate-Received w _ body t r s x h

-- A body that the relay has accepted once is never accepted again, as a message of any type, an
-- announcement of a device included, whatever other calls ran in between: as long as the skew rule
-- would let it pass, its nonce is still remembered. This needs the wall clock not to lag more than
-- a minute behind the instants.
pub replay_refused :
    (w : Wire) (body : Bytes) (t t' : Readings) (r s r' s' : Relay)
    → Passes w body t r s
    → Reach (Legal w.primitives t'.arrived) s r'
    → ClocksAgree t t'
    → ¬ Passes w body t' r' s'
replay_refused w body t t' r s r' s' h way clocks h' =
    let one = Passes-Received w body t r s h in
    let two = Passes-Received w body t' r' s' h' in
    let sent = one.sent in
    let same : sent ≡ two.sent = ground (arith, one.parses, two.parses) in
    let young = young_within_skew t t' sent.ts one.fresh (rw same two.fresh) clocks in
    let known =
      Reach-inv (Knows sent.nonce t.arrived)
        (λ op x l k. perform-Knows w.primitives sent.nonce t.arrived t'.arrived op x young l k) way
        (ap (λ n. n sent.nonce) one.nonces_are
          ∙ take_nonce-recorded sent.nonce t.arrived one.metered one.stored one.not_replayed) in
    let metered : Knows sent.nonce t.arrived two.metered =
      rw (← quota-nonces two.sent.kid t'.arrived r' two.within_quota) known in
    take_nonce-refused two.sent.nonce t'.arrived t.arrived two.metered two.stored young
      (subst (λ x. Knows x.nonce t.arrived two.metered) same metered) two.not_replayed
