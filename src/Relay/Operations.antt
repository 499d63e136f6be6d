-- ===== src/Relay/Operations.antt =====
-- The relay as a sequence of operations of its state layer. Handlers run concurrently, and each
-- operation holds the lock, so an execution is an interleaving of operations: `Reach`.
use z_bacs.Prelude.{ℕ, List, [], ◌∷◌, Result, ok, err, ◌≡◌, refl, subst, sym, ◌∙◌}
use z_bacs.Prelude.Bytes.{Bytes}
use z_bacs.Proto.Messages.{Kind, ErrorCode}
use z_bacs.Relay.State.{
  Relay, Device, Inbox, Instant, Refusal, announce, take_quota, take_nonce, remember_request,
  remember_interest, interested, route_for, enqueue, drain,
}
use z_bacs.Relay.Handler.{Handler, ◌>>=◌, attempt, continue, refused}

pub data Operation : Type 0 where
  announces : Bytes → Device → Operation
  takes_quota : Bytes → Instant → Operation
  takes_nonce : Bytes → Instant → Operation
  remembers_request : Bytes → Bytes → Instant → Operation
  remembers_interest : Bytes → Bytes → Instant → Operation
  asks_interested : Bytes → Instant → Operation
  asks_route : Bytes → Instant → Operation
  enqueues : Inbox → Kind → Bytes → ℕ → Bytes → Instant → Operation
  drains : Inbox → Instant → Operation

unfoldable pub perform : Operation → Relay → Relay
perform (announces kid d) r = announce kid d r
perform (takes_quota kid now) r = (take_quota kid now r).0
perform (takes_nonce n now) r = (take_nonce n now r).0
perform (remembers_request n kid now) r = remember_request n kid now r
perform (remembers_interest fid kid now) r = remember_interest fid kid now r
perform (asks_interested fid now) r = (interested fid now r).0
perform (asks_route n now) r = (route_for n now r).0
perform (enqueues i k body unix id now) r = enqueue i k body unix id now r
perform (drains i now) r = (drain i now r).0

-- One after the other.
unfoldable pub perform_all : List Operation → Relay → Relay
perform_all [] r = r
perform_all (op ∷ ops) r = perform_all ops (perform op r)

-- The states that operations of a class lead to.
pub data Reach (Class : Operation → Type 0) (r : Relay) : Relay → Type 0 where
  here : Reach Class r r
  next : {s : Relay} (op : Operation) → Class op → Reach Class r s → Reach Class r (perform op s)

-- An invariant of the operations of a class holds in all states that they reach.
pub Reach-inv :
    {Class : Operation → Type 0} {r s : Relay} (P : Relay → Type 0)
    → ((op : Operation) (r : Relay) → Class op → P r → P (perform op r))
    → Reach Class r s
    → P r
    → P s
Reach-inv P keeps here p = p
Reach-inv P keeps (next {s} op c way) p = keeps op s c (Reach-inv P keeps way p)

pub Reach-trans :
    {Class : Operation → Type 0} {r s t : Relay}
    → Reach Class r s
    → Reach Class s t
    → Reach Class r t
Reach-trans a here = a
Reach-trans a (next op c b) = next op c (Reach-trans a b)

module _ (Class : Operation → Type 0) where
  unfoldable pub Runs : {A : Type 0} → Handler A → Type 0
  Runs m = (r : Relay) → Reach Class r (m r).0

  continue-Runs :
      {A B : Type 0} (r : Relay) (x : Relay × Result ErrorCode A) (f : A → Handler B)
      → Reach Class r x.0
      → ((a : A) → Runs (f a))
      → Reach Class r (continue x f).0
  unfolding Runs
  continue-Runs r (s, ok a) f h k = Reach-trans h (k a s)
  continue-Runs r (s, err e) f h k = h

  pub bind-Runs :
      {A B : Type 0} (m : Handler A) (f : A → Handler B)
      → Runs m
      → ((a : A) → Runs (f a))
      → Runs (m >>= f)
  unfolding Runs ◌>>=◌
  bind-Runs m f h k r = continue-Runs r (m r) f (h r) k

  pub still-Runs : {A : Type 0} (m : Handler A) → ((r : Relay) → (m r).0 ≡ r) → Runs m
  unfolding Runs
  still-Runs m h r = subst (Reach Class r) (sym (h r)) here

  refused-state : {A : Type 0} (x : Relay × Result Refusal A) → (refused x).0 ≡ x.0
  refused-state (s, ok a) = refl
  refused-state (s, err e) = refl

  pub attempt-Runs :
      {A : Type 0} (f : Relay → Relay × Result Refusal A) (op : Operation)
      → Class op
      → ((r : Relay) → (f r).0 ≡ perform op r)
      → Runs (attempt f)
  unfolding Runs attempt
  attempt-Runs f op c h r =
      subst (Reach Class r) (sym (h r) ∙ sym (refused-state (f r))) (next op c here)

  pub one-Runs :
      {A : Type 0} (m : Handler A) (op : Operation)
      → Class op
      → ((r : Relay) → (m r).0 ≡ perform op r)
      → Runs m
  unfolding Runs
  one-Runs m op c h r = subst (Reach Class r) (sym (h r)) (next op c here)
