-- ===== src/Relay/Queues.antt =====
-- The inboxes of apps/relay/src/state.rs against a mailbox: `enqueue`, `drain` and what else runs.
use z_bacs.Prelude.{
  ℕ, ◌≤◌, List, [], ◌∷◌, ◌++◌, ◌≡◌, refl, ◌∙◌, ap, inl, inr, arith, Bool-cases, if◌then◌else◌, keep,
  keep-append, All,
}
use z_bacs.Prelude.Bytes.{Bytes}
use z_bacs.Prelude.Maps.{entry_or}
use z_bacs.Proto.Messages.{Kind}
use z_bacs.Relay.State.{
  Relay, Inbox, Instant, Queued, new, announce, take_quota, take_nonce, remember_request,
  remember_interest, interested, route_for, enqueue, drain, inbox_beq, inbox_beq_iff, inbox_eq,
  overdue, in_time, pop_while, envelopes,
}
use z_bacs.Relay.Operations.{Operation, takes_nonce, enqueues, drains, perform, perform_all}

-- What an inbox should hold: all that was enqueued for it since it was last drained, in order.
abbrev pub delivery : Kind → Bytes → ℕ → Bytes → Instant → Queued
delivery kind body unix id now = record {
  envelope = record { id = id; kind = kind; body = body; queued_at = unix };
  queued_at = now;
}

abbrev post : Inbox → Operation → List Queued → List Queued
post i (enqueues j kind body unix id now) l =
    if inbox_beq j i then l ++ (delivery kind body unix id now ∷ []) else l
post i (drains j now) l = if inbox_beq j i then [] else l
post i _ l = l

unfoldable pub mailbox : Inbox → List Operation → List Queued → List Queued
mailbox i [] l = l
mailbox i (op ∷ ops) l = mailbox i ops (post i op l)

-- The instants at which messages are enqueued.
abbrev pub NoLater : Instant → Operation → Type 0
NoLater now (enqueues j kind body unix id t) = t ≤ now
NoLater now _ = Unit

abbrev pub waiting : Inbox → Relay → List Queued
waiting i r = entry_or r.queues i []

-- What `enqueue` drops is overdue later too.
keep-pop_while :
    (t now : Instant) (xs : List Queued)
    → t ≤ now
    → keep (in_time now) (pop_while (overdue t) xs) ≡ keep (in_time now) xs
unfolding pop_while
keep-pop_while t now [] h = refl
keep-pop_while t now (x ∷ xs) h = ground (arith, keep-pop_while t now xs h)

abbrev Holds : Inbox → Instant → Relay → List Queued → Type 0
Holds i now r l = keep (in_time now) (waiting i r) ≡ keep (in_time now) l

nonce-queues : (n : Bytes) (now : Instant) (r : Relay) → (take_nonce n now r).0.queues ≡ r.queues
unfolding take_nonce
nonce-queues n now r = ground arith

enqueue-Holds :
    (i j : Inbox) (kind : Kind) (body : Bytes) (unix : ℕ) (id : Bytes) (t now : Instant) (r : Relay)
    (l : List Queued)
    → t ≤ now
    → Holds i now r l
    → Holds i now (enqueue j kind body unix id t r) (post i (enqueues j kind body unix id t) l)
unfolding enqueue
enqueue-Holds i j kind body unix id t now r l h v = elim (Bool-cases (inbox_beq j i)) [
  | inl same ↦
      let e = (inbox_beq_iff j i).0 same in
      let d = delivery kind body unix id t in
      ground (
        arith,
        keep-pop_while t now (waiting i r) h,
        keep-append (in_time now) l (d ∷ []),
        keep-append (in_time now) (pop_while (overdue t) (waiting i r)) (d ∷ []),
      )
  | inr other ↦ ground arith
]

drain-Holds :
    (i j : Inbox) (t now : Instant) (r : Relay) (l : List Queued)
    → Holds i now r l
    → Holds i now (drain j t r).0 (post i (drains j t) l)
unfolding drain
drain-Holds i j t now r l v = ground (arith, inbox_beq_iff j i)

perform-Holds :
    (i : Inbox) (now : Instant) (op : Operation) (r : Relay) (l : List Queued)
    → NoLater now op
    → Holds i now r l
    → Holds i now (perform op r) (post i op l)
unfolding perform announce take_quota remember_request remember_interest interested route_for
perform-Holds i now (enqueues j kind body unix id t) r l h v =
    enqueue-Holds i j kind body unix id t now r l h v
perform-Holds i now (drains j t) r l h v = drain-Holds i j t now r l v
perform-Holds i now (takes_nonce n t) r l h v =
    ap (λ m. keep (in_time now) (entry_or m i [])) (nonce-queues n t r) ∙ v
perform-Holds i now _ r l h v = v

run-Holds :
    (i : Inbox) (now : Instant) (ops : List Operation) (r : Relay) (l : List Queued)
    → All (NoLater now) ops
    → Holds i now r l
    → Holds i now (perform_all ops r) (mailbox i ops l)
unfolding mailbox perform_all
run-Holds i now [] r l h v = v
run-Holds i now (op ∷ ops) r l h v =
    run-Holds i now ops (perform op r) (post i op l) (h.1) (perform-Holds i now op r l (h.0) v)

drained :
    (i : Inbox) (now : Instant) (r : Relay)
    → (drain i now r).1 ≡ envelopes (keep (in_time now) (waiting i r))
unfolding drain
drained i now r = ground arith

-- Whatever operations run on a new relay, and however they interleave, a drain then delivers exactly
-- what was enqueued for the inbox since it was last drained, in that order and each once, less what
-- has waited more than a day. The drain's instant is no earlier than those of the enqueues.
pub drain-mailbox :
    (i : Inbox) (now : Instant) (ops : List Operation)
    → All (NoLater now) ops
    → (drain i now (perform_all ops new)).1 ≡ envelopes (keep (in_time now) (mailbox i ops []))
drain-mailbox i now ops h =
    drained i now (perform_all ops new)
    ∙ ap envelopes (run-Holds i now ops new [] h (unfold new in refl))
