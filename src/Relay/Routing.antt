-- ===== src/Relay/Routing.antt =====
-- Where grants and revocations go: `remember_request`, `route_for`, `remember_interest`, `interested`
-- of apps/relay/src/state.rs and the loop of `revocations` of src/routes.rs.
use z_bacs.Prelude.{
  ◌≤◌, Bool, not, List, [], ◌∷◌, ◌++◌, ◌≡◌, refl, ◌∙◌, ap, inl, inr, arith, Bool-cases,
  if◌then◌else◌, keep, keep-append, All, some, none, Option, Result, ok, err, ltb,
}
use z_bacs.Prelude.Bytes.{Bytes, bytes_beq, bytes_beq_iff, bytes_eq}
use z_bacs.Prelude.Maps.{Map, retain, entry_or}
use z_bacs.Relay.State.{
  Relay, Inbox, Instant, Refusal, unknown_request, new, announce, take_quota, take_nonce,
  remember_request, remember_interest, interested, route_for, enqueue, drain, queue_ttl, since,
  fresh_route, fresh_entries, others, kids, if_any,
}
use z_bacs.Relay.Operations.{
  Operation, takes_nonce, remembers_request, remembers_interest, asks_interested, asks_route,
  drains, perform, perform_all,
}

abbrev pub young : Instant → Bytes × Instant → Bool
young now e = ltb (since now e.1) queue_ttl

-- The instants of the operations that forget stale entries.
abbrev pub Forgets : Instant → Operation → Type 0
Forgets now (asks_route n t) = t ≤ now
Forgets now (asks_interested fid t) = t ≤ now
Forgets now _ = Unit

-- Who asked with a nonce last.
abbrev pub asked : Bytes → List Operation → Option (Bytes × Instant) → Option (Bytes × Instant)
asked n [] last = last
asked n (remembers_request m kid t ∷ ops) last =
    asked n ops (if bytes_beq m n then some (kid, t) else last)
asked n (op ∷ ops) last = asked n ops last

abbrev pub answer_to : Instant → Option (Bytes × Instant) → Result Refusal Bytes
answer_to now none = err unknown_request
answer_to now (some e) = if young now e then ok e.0 else err unknown_request

abbrev still : Instant → Option (Bytes × Instant) → Option (Bytes × Instant)
still now none = none
still now (some e) = fresh_route now e

abbrev Routed : Bytes → Instant → Relay → Option (Bytes × Instant) → Type 0
Routed n now r last = still now (r.request_routes n) ≡ still now last

nonce-routes :
    (n : Bytes) (now : Instant) (r : Relay)
    → (take_nonce n now r).0.request_routes ≡ r.request_routes
unfolding take_nonce
nonce-routes n now r = ground arith

drain-routes :
    (i : Inbox) (now : Instant) (r : Relay) → (drain i now r).0.request_routes ≡ r.request_routes
unfolding drain
drain-routes i now r = ground arith

still-retain :
    (n : Bytes) (t now : Instant) (m : Map Bytes (Bytes × Instant))
    → t ≤ now
    → still now (retain (fresh_route t) m n) ≡ still now (m n)
still-retain n t now m h = ground arith

run-Routed :
    (n : Bytes) (now : Instant) (ops : List Operation) (r : Relay) (last : Option (Bytes × Instant))
    → All (Forgets now) ops
    → Routed n now r last
    → Routed n now (perform_all ops r) (asked n ops last)
unfolding perform_all perform announce take_quota remember_request remember_interest interested
    route_for enqueue
run-Routed n now [] r last h v = v
run-Routed n now (remembers_request m kid t ∷ ops) r last h v =
    run-Routed n now ops _ _ (h.1) (ground arith)
run-Routed n now (asks_route m t ∷ ops) r last h v =
    run-Routed n now ops _ _ (h.1) (still-retain n t now r.request_routes (h.0) ∙ v)
run-Routed n now (takes_nonce m t ∷ ops) r last h v =
    run-Routed n now ops _ _ (h.1) (ap (λ m. still now (m n)) (nonce-routes m t r) ∙ v)
run-Routed n now (drains i t ∷ ops) r last h v =
    run-Routed n now ops _ _ (h.1) (ap (λ m. still now (m n)) (drain-routes i t r) ∙ v)
run-Routed n now (op ∷ ops) r last h v = run-Routed n now ops _ _ (h.1) v

routed :
    (n : Bytes) (now : Instant) (r : Relay)
    → (route_for n now r).1 ≡ answer_to now (still now (r.request_routes n))
unfolding route_for
routed n now r = ground arith

answer_to-still :
    (now : Instant) (e : Option (Bytes × Instant)) → answer_to now (still now e) ≡ answer_to now e
answer_to-still now e = ground arith

-- Whatever operations run on a new relay, a grant is then routed to the device that last asked with
-- its request nonce, if that was less than a day ago, and is otherwise refused as unknown. What was
-- forgotten in between was forgotten no later than the grant arrives.
pub route_for-asked :
    (n : Bytes) (now : Instant) (ops : List Operation)
    → All (Forgets now) ops
    → (route_for n now (perform_all ops new)).1 ≡ answer_to now (asked n ops none)
route_for-asked n now ops h =
    routed n now (perform_all ops new)
    ∙ ap (answer_to now) (run-Routed n now ops new none h (unfold new in refl))
    ∙ answer_to-still now (asked n ops none)

-- The devices that asked for a file, each at its last request, oldest first.
abbrev pub askers : Bytes → List Operation → List (Bytes × Instant) → List (Bytes × Instant)
askers fid [] l = l
askers fid (remembers_interest f kid t ∷ ops) l =
    askers fid ops (if bytes_beq f fid then others kid l ++ ((kid, t) ∷ []) else l)
askers fid (op ∷ ops) l = askers fid ops l

abbrev entries : Bytes → Relay → List (Bytes × Instant)
entries fid r = entry_or r.interests fid []

abbrev Interests : Bytes → Instant → Relay → List (Bytes × Instant) → Type 0
Interests fid now r l = keep (young now) (entries fid r) ≡ keep (young now) l

keep-keep : {A : Type 0} (p q : A → Bool) (xs : List A) → keep p (keep q xs) ≡ keep q (keep p xs)
keep-keep p q [] = refl
keep-keep p q (x ∷ xs) = ground (arith, keep-keep p q xs)

keep-young :
    (t now : Instant) (l : List (Bytes × Instant))
    → t ≤ now
    → keep (young now) (keep (young t) l) ≡ keep (young now) l
keep-young t now [] h = refl
keep-young t now (e ∷ l) h = ground (arith, keep-young t now l h)

if_any-entry : (l : List (Bytes × Instant)) → (elim (if_any l) [ none ↦ [] | some v ↦ v ]) ≡ l
if_any-entry [] = refl
if_any-entry (e ∷ l) = refl

entry_or-retain :
    (fid : Bytes) (t : Instant) (m : Map Bytes (List (Bytes × Instant)))
    → entry_or (retain (fresh_entries t) m) fid [] ≡ keep (young t) (entry_or m fid [])
entry_or-retain fid t m = ground (arith, if_any-entry (keep (young t) (entry_or m fid [])))

remember-Interests :
    (fid f kid : Bytes) (t now : Instant) (r : Relay) (l : List (Bytes × Instant))
    → Interests fid now r l
    → Interests fid now
        (remember_interest f kid t r)
        (if bytes_beq f fid then others kid l ++ ((kid, t) ∷ []) else l)
unfolding remember_interest
remember-Interests fid f kid t now r l v = elim (Bool-cases (bytes_beq f fid)) [
  | inl same ↦
      let e = (bytes_beq_iff f fid).0 same in
      let p : Bytes × Instant → Bool = λ x. not (bytes_beq x.0 kid) in
      ground (
        arith,
        keep-keep (young now) p (entries fid r),
        keep-keep (young now) p l,
        keep-append (young now) (others kid l) ((kid, t) ∷ []),
        keep-append (young now) (others kid (entries fid r)) ((kid, t) ∷ []),
      )
  | inr other ↦ ground arith
]

nonce-interests :
    (n : Bytes) (now : Instant) (r : Relay) → (take_nonce n now r).0.interests ≡ r.interests
unfolding take_nonce
nonce-interests n now r = ground arith

drain-interests :
    (i : Inbox) (now : Instant) (r : Relay) → (drain i now r).0.interests ≡ r.interests
unfolding drain
drain-interests i now r = ground arith

abbrev view : Bytes → Instant → Map Bytes (List (Bytes × Instant)) → List (Bytes × Instant)
view fid now m = keep (young now) (entry_or m fid [])

run-Interests :
    (fid : Bytes) (now : Instant) (ops : List Operation) (r : Relay) (l : List (Bytes × Instant))
    → All (Forgets now) ops
    → Interests fid now r l
    → Interests fid now (perform_all ops r) (askers fid ops l)
unfolding perform_all perform announce take_quota remember_request interested route_for enqueue
run-Interests fid now [] r l h v = v
run-Interests fid now (remembers_interest f kid t ∷ ops) r l h v =
    run-Interests fid now ops _ _ (h.1) (remember-Interests fid f kid t now r l v)
run-Interests fid now (asks_interested f t ∷ ops) r l h v = run-Interests fid now ops _ _ (h.1) (
    ap (keep (young now)) (entry_or-retain fid t r.interests)
    ∙ keep-young t now (entries fid r) (h.0)
    ∙ v)
run-Interests fid now (takes_nonce m t ∷ ops) r l h v =
    run-Interests fid now ops _ _ (h.1) (ap (view fid now) (nonce-interests m t r) ∙ v)
run-Interests fid now (drains i t ∷ ops) r l h v =
    run-Interests fid now ops _ _ (h.1) (ap (view fid now) (drain-interests i t r) ∙ v)
run-Interests fid now (op ∷ ops) r l h v = run-Interests fid now ops _ _ (h.1) v

-- Whatever operations run on a new relay, a revocation of a file is then sent to exactly the
-- devices that asked for the file in the day before, in the order of their last requests.
pub interested-askers :
    (fid : Bytes) (now : Instant) (ops : List Operation)
    → All (Forgets now) ops
    → (interested fid now (perform_all ops new)).1 ≡ kids (keep (young now) (askers fid ops []))
unfolding interested
interested-askers fid now ops h = ap kids (
    entry_or-retain fid now (perform_all ops new).interests
    ∙ run-Interests fid now ops new [] h (unfold new in refl))
