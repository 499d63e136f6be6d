-- ===== src/Relay/Delivery.antt =====
-- The handler `revocations` of apps/relay/src/routes.rs: where its message arrives.
use z_bacs.Prelude.{
  keep, ap, ◌≡◌, refl, sym, ◌∙◌, subst, List, [], ◌∷◌, ◌++◌, All, ok, inl, inr, arith, Bool-cases,
  false, replicate, ℕ,
}
use z_bacs.Prelude.Bytes.{Bytes}
use z_bacs.Proto.Messages.{Kind, Revoke, revoke_msg}
use z_bacs.Proto.Signed.{Signed}
use z_bacs.Relay.State.{
  Relay, Inbox, Instant, Queued, enqueue, interested, inbox_beq, inbox_beq_iff, inbox_eq, pop_while,
  overdue, new, kids, fresh_entries, take_nonce, take_quota,
}
use z_bacs.Relay.Handler.{◌>>=◌}
use z_bacs.Relay.Routes.{Wire, Readings, authenticate, broadcast, revocations}
use z_bacs.Prelude.Maps.{retain, entry_or}
use z_bacs.Relay.Operations.{Operation, perform_all}
use z_bacs.Relay.Authentication.{authenticate-Authentic}
use z_bacs.Relay.Routing.{Forgets, young, askers, interested-askers}
use z_bacs.Relay.Queues.{delivery, waiting}

-- The inbox of a device ends with the revocation.
abbrev pub Got : Bytes → Readings → Relay → Bytes → Type 0
Got body t r kid =
    (before : List Queued) × (waiting (Inbox.device kid) r
      ≡ before ++ (delivery Kind.revoke body t.queue_unix (t.id_for kid) t.queued ∷ []))

pub enqueue-waiting :
    (i : Inbox) (kind : Kind) (body : Bytes) (unix : ℕ) (id : Bytes) (now : Instant) (r : Relay)
    → waiting i (enqueue i kind body unix id now r)
      ≡ pop_while (overdue now) (waiting i r) ++ (delivery kind body unix id now ∷ [])
unfolding enqueue
enqueue-waiting i kind body unix id now r = ground (arith, (inbox_beq_iff i i).1 refl)

enqueue-waiting_other :
    (i j : Inbox) (kind : Kind) (body : Bytes) (unix : ℕ) (id : Bytes) (now : Instant) (r : Relay)
    → inbox_beq j i ≡ false
    → waiting i (enqueue j kind body unix id now r) ≡ waiting i r
unfolding enqueue
enqueue-waiting_other i j kind body unix id now r other = ground arith

abbrev tell : Bytes → Readings → Bytes → Relay → Relay
tell body t k r = enqueue (Inbox.device k) Kind.revoke body t.queue_unix (t.id_for k) t.queued r

tell-Got :
    (body : Bytes) (t : Readings) (kid : Bytes) (r : Relay) → Got body t (tell body t kid r) kid
tell-Got body t kid r = (
  pop_while (overdue t.queued) (waiting (Inbox.device kid) r),
  enqueue-waiting (Inbox.device kid) Kind.revoke body t.queue_unix (t.id_for kid) t.queued r,
)

tell-keeps-Got :
    (body : Bytes) (t : Readings) (kid k : Bytes) (r : Relay)
    → Got body t r kid
    → Got body t (tell body t k r) kid
tell-keeps-Got body t kid k r (before, e) =
    elim (Bool-cases (inbox_beq (Inbox.device k) (Inbox.device kid))) [
      | inl same ↦
          let same_kid : Inbox.device k ≡ Inbox.device kid =
            (inbox_beq_iff (Inbox.device k) (Inbox.device kid)).0 same in
          let k_kid : k ≡ kid = ground arith in
          subst (λ x. Got body t (tell body t x r) kid) (sym k_kid) (tell-Got body t kid r)
      | inr other ↦ (
        before,
        enqueue-waiting_other (Inbox.device kid) (Inbox.device k) Kind.revoke body t.queue_unix
              (t.id_for k) t.queued r other
            ∙ e,
      )
    ]

broadcast-keeps-Got :
    (body : Bytes) (t : Readings) (kid : Bytes) (ks : List Bytes) (id : Bytes) (r : Relay)
    → Got body t r kid
    → Got body t (broadcast body t ks id r).0 kid
unfolding broadcast
broadcast-keeps-Got body t kid [] id r h = h
broadcast-keeps-Got body t kid (k ∷ ks) id r h =
    broadcast-keeps-Got body t kid ks (t.id_for k) _ (tell-keeps-Got body t kid k r h)

broadcast-Got :
    (body : Bytes) (t : Readings) (ks : List Bytes) (id : Bytes) (r : Relay)
    → All (Got body t (broadcast body t ks id r).0) ks
unfolding broadcast
broadcast-Got body t [] id r = tt
broadcast-Got body t (k ∷ ks) id r = (
  broadcast-keeps-Got body t k ks (t.id_for k) _ (tell-Got body t k r),
  broadcast-Got body t ks (t.id_for k) _,
)

revoked :
    (w : Wire) (body : Bytes) (t : Readings) (r s : Relay) (sent : Signed) (revoke : Revoke)
    → authenticate w (revoke_msg w.revoke) body t r ≡ (s, ok (sent, revoke))
    → (revocations w body t r).0
      ≡ (broadcast body t
          (interested revoke.fid t.looked_up s).1
          (replicate 16 0)
          (interested revoke.fid t.looked_up s).0).0
unfolding revocations ◌>>=◌
revoked w body t r s sent revoke h = rw h refl

interests-same :
    (fid : Bytes) (now : Instant) (r s : Relay)
    → s.interests ≡ r.interests
    → (interested fid now s).1 ≡ (interested fid now r).1
unfolding interested
interests-same fid now r s same =
    ap (λ m. kids (entry_or (retain (fresh_entries now) m) fid [])) same

nonce-interests :
    (n : Bytes) (now : Instant) (r s : Relay)
    → take_nonce n now r ≡ (s, ok tt)
    → s.interests ≡ r.interests
unfolding take_nonce
nonce-interests n now r s h = ground arith

quota-interests :
    (kid : Bytes) (now : Instant) (r s : Relay)
    → take_quota kid now r ≡ (s, ok tt)
    → s.interests ≡ r.interests
unfolding take_quota
quota-interests kid now r s h = sym (ap (λ x. x.0.interests) h)

-- After a revocation that authenticates, whatever operations have run on the relay since it was new,
-- the inbox of every device whose last request for the file is less than a day old ends with it, whoever
-- else is told. What was forgotten in between was forgotten no later than the revocation arrives.
pub revocations-reach :
    (w : Wire) (body : Bytes) (t : Readings) (ops : List Operation) (s : Relay) (sent : Signed)
    (revoke : Revoke)
    → All (Forgets t.looked_up) ops
    → authenticate w (revoke_msg w.revoke) body t (perform_all ops new) ≡ (s, ok (sent, revoke))
    → All
        (Got body t (revocations w body t (perform_all ops new)).0)
        (kids (keep (young t.looked_up) (askers revoke.fid ops [])))
revocations-reach w body t ops s sent revoke forgets h =
    let r = perform_all ops new in
    let one = authenticate-Authentic w (revoke_msg w.revoke) body t r s sent revoke h in
    let same : s.interests ≡ r.interests =
      nonce-interests sent.nonce t.arrived one.metered s one.not_replayed
      ∙ quota-interests sent.kid t.arrived r one.metered one.within_quota in
    let who =
      interests-same revoke.fid t.looked_up r s same
      ∙ interested-askers revoke.fid t.looked_up ops forgets in
    subst (All (Got body t (revocations w body t r).0)) who (
      subst (λ x. All (Got body t x) (interested revoke.fid t.looked_up s).1)
        (sym (revoked w body t r s sent revoke h)) (broadcast-Got body t _ _ _))
