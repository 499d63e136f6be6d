-- ===== src/Relay/Quota.antt =====
-- The quota of a device over every interleaving: `take_quota` of apps/relay/src/state.rs.
use z_bacs.Prelude.{
  ◌≤◌, true, false, List, [], ◌∷◌, ◌≡◌, refl, sym, ◌∙◌, subst, inl, inr, arith, Bool-cases,
  if◌then◌else◌,
}
use z_bacs.Prelude.Bytes.{Bytes, bytes_beq, bytes_beq_iff, bytes_eq}
use z_bacs.Prelude.Maps.{entry_or, entry_or-put}
use z_bacs.Relay.State.{
  Relay, Inbox, Instant, new, count_call, announce, take_quota, take_nonce, remember_request,
  remember_interest, interested, route_for, enqueue, drain,
}
use z_bacs.Relay.Operations.{Operation, takes_quota, takes_nonce, drains, perform}
use z_bacs.Relay.Windows.{Covers, WithinQuota, noted, count_call-Metered, count}

-- The instants at which a device's calls are accepted in a run of operations, newest first.
abbrev note : Bytes → Relay → Operation → List Instant → List Instant
note kid r (takes_quota k now) accepted =
    if bytes_beq k kid then noted (take_quota k now r).1 now accepted else accepted
note kid r _ accepted = accepted

unfoldable pub accepted_calls : Bytes → Relay → List Operation → List Instant → List Instant
accepted_calls kid r [] accepted = accepted
accepted_calls kid r (op ∷ ops) accepted =
    accepted_calls kid (perform op r) ops (note kid r op accepted)

-- The instants at which one device's calls arrive do not fall.
abbrev pub clock : Bytes → Instant → Operation → Instant
clock kid last (takes_quota k now) = if bytes_beq k kid then now else last
clock kid last _ = last

abbrev pub Ordered : Bytes → Instant → List Operation → Type 0
Ordered kid last [] = Unit
Ordered kid last (op ∷ ops) = (last ≤ clock kid last op) × Ordered kid (clock kid last op) ops

abbrev calls_of : Bytes → Relay → List Instant
calls_of kid r = entry_or r.calls kid []

record Within (kid : Bytes) (last : Instant) (r : Relay) (accepted : List Instant) : Type 0 where
  covers : Covers last (calls_of kid r) accepted
  bounded : WithinQuota accepted

nonce-calls : (n : Bytes) (now : Instant) (r : Relay) → (take_nonce n now r).0.calls ≡ r.calls
unfolding take_nonce
nonce-calls n now r = ground arith

drain-calls : (i : Inbox) (now : Instant) (r : Relay) → (drain i now r).0.calls ≡ r.calls
unfolding drain
drain-calls i now r = ground arith

take_quota-calls_same :
    (k kid : Bytes) (now : Instant) (r : Relay)
    → bytes_beq k kid ≡ true
    → calls_of kid (take_quota k now r).0 ≡ (count_call (calls_of k r) now).0
unfolding take_quota
take_quota-calls_same k kid now r h = entry_or-put r.calls k kid _ [] ∙ rw h refl

take_quota-calls_other :
    (k kid : Bytes) (now : Instant) (r : Relay)
    → bytes_beq k kid ≡ false
    → calls_of kid (take_quota k now r).0 ≡ calls_of kid r
unfolding take_quota
take_quota-calls_other k kid now r h = entry_or-put r.calls k kid _ [] ∙ rw h refl

take_quota-answer :
    (k : Bytes) (now : Instant) (r : Relay)
    → (take_quota k now r).1 ≡ (count_call (calls_of k r) now).1
unfolding take_quota
take_quota-answer k now r = refl

quota-Within :
    (kid : Bytes) (last : Instant) (k : Bytes) (now : Instant) (r : Relay) (accepted : List Instant)
    → last ≤ clock kid last (takes_quota k now)
    → Within kid last r accepted
    → Within kid
        (clock kid last (takes_quota k now))
        (take_quota k now r).0
        (note kid r (takes_quota k now) accepted)
quota-Within kid last k now r accepted h v = elim (Bool-cases (bytes_beq k kid)) [
  | inl same ↦
      let e = (bytes_beq_iff k kid).0 same in
      let mine = subst (λ x. Covers last (calls_of x r) accepted) (sym e) v.covers in
      let m = count_call-Metered last now (calls_of k r) accepted (ground arith) mine v.bounded in
      rw same (record {
        covers = rw (take_quota-calls_same k kid now r same, take_quota-answer k now r) (m.0);
        bounded = rw (take_quota-answer k now r) (m.1);
      })
  | inr other ↦ rw other (record {
    covers = rw (take_quota-calls_other k kid now r other) v.covers;
    bounded = v.bounded;
  })
]

moved :
    (kid : Bytes) (last : Instant) (r s : Relay) (accepted : List Instant)
    → s.calls ≡ r.calls
    → Within kid last r accepted
    → Within kid last s accepted
moved kid last r s accepted e v = record {
  covers = subst (λ m. Covers last (entry_or m kid []) accepted) (sym e) v.covers;
  bounded = v.bounded;
}

perform-Within :
    (kid : Bytes) (last : Instant) (op : Operation) (r : Relay) (accepted : List Instant)
    → last ≤ clock kid last op
    → Within kid last r accepted
    → Within kid (clock kid last op) (perform op r) (note kid r op accepted)
unfolding perform announce remember_request remember_interest interested route_for enqueue
perform-Within kid last (takes_quota k now) r accepted h v =
    quota-Within kid last k now r accepted h v
perform-Within kid last (takes_nonce n now) r accepted h v =
    moved kid last r _ accepted (nonce-calls n now r) v
perform-Within kid last (drains i now) r accepted h v =
    moved kid last r _ accepted (drain-calls i now r) v
perform-Within kid last _ r accepted h v = moved kid last r _ accepted refl v

accepted-Within :
    (kid : Bytes) (last : Instant) (r : Relay) (ops : List Operation) (accepted : List Instant)
    → Ordered kid last ops
    → Within kid last r accepted
    → WithinQuota (accepted_calls kid r ops accepted)
unfolding accepted_calls
accepted-Within kid last r [] accepted o v = v.bounded
accepted-Within kid last r (op ∷ ops) accepted o v =
    accepted-Within kid (clock kid last op) (perform op r) ops _ (o.1)
      (perform-Within kid last op r accepted (o.0) v)

-- Whatever operations run on a new relay, and however they interleave: of a device whose calls
-- arrive in order, at most 30 are accepted in the minute up to any accepted call, it included, and
-- at most 300 in the hour up to it.
pub accepted_calls-WithinQuota :
    (kid : Bytes) (ops : List Operation)
    → Ordered kid 0 ops
    → WithinQuota (accepted_calls kid new ops [])
unfolding new count
accepted_calls-WithinQuota kid ops o = accepted-Within kid 0 new ops [] o (record {
  covers = record { minute = λ now h. omega arith; hour = λ now h. omega arith };
  bounded = tt;
})
