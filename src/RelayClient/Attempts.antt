-- ===== src/RelayClient/Attempts.antt =====
-- Which calls `submit` of crates/zbacs-relay-client/src/client.rs makes, and what it returns.
use z_bacs.Prelude.{
  arith, subst, ℕ, zero, suc, ◌≡◌, refl, sym, ap, ◌∙◌, ◌⊎◌, inl, inr, Option, none, some, List, [],
  ◌∷◌, ◌++◌, append_assoc, Result, ok, err, if◌then◌else◌, All, Option-cases,
}
use z_bacs.Proto.External.{Cbor}
use z_bacs.Proto.Messages.{Ack, rate_limited, internal, replayed}
use z_bacs.RelayClient.{
  RetryPolicy, Delivery, ClientError, unreachable, Http, submit_once, decisive, delivery_of,
  retryable, queued, already_delivered, refused, not_sent, no_body, response, zero_id, attempts,
  tag_all, submit,
}

-- The plan: every attempt at one endpoint, then those at the next one.
unfoldable pub count : ℕ → ℕ → List ℕ
count from zero = []
count from (suc n) = from ∷ count (suc from) n

unfoldable pub schedule : ℕ → ℕ → ℕ → List (ℕ × ℕ)
unfolding count
schedule per_endpoint zero endpoint = []
schedule per_endpoint (suc left) endpoint =
    tag_all endpoint (count 0 per_endpoint) ++ schedule per_endpoint left (suc endpoint)

-- The calls follow a plan until one settles the matter, and it is the last; or none does.
module _ {A B : Type 0} (settles : A → Option B) where
  abbrev pub Unsettled : A → Type 0
  Unsettled a = settles a ≡ none

  pub record Settled (plan calls : List A) (b : B) : Type 0 where
    pub before : List A
    pub last : A
    pub rest : List A
    pub calls_are : calls ≡ before ++ (last ∷ [])
    pub planned : before ++ (last ∷ rest) ≡ plan
    pub unsettled : All Unsettled before
    pub settled : settles last ≡ some b

  later :
      {plan calls : List A} {b : B} (a : A)
      → Unsettled a
      → Settled plan calls b
      → Settled (a ∷ plan) (a ∷ calls) b
  later a u s = record {
    before = a ∷ s.before;
    last = s.last;
    rest = s.rest;
    calls_are = ap (◌∷◌ a) s.calls_are;
    planned = ap (◌∷◌ a) s.planned;
    unsettled = (u, s.unsettled);
    settled = s.settled;
  }

-- The relay's acknowledgement, in what an HTTP call gives.
abbrev acknowledged : Cbor Ack → Http → Option Ack
acknowledged acks (response status body) = acks.from_reader body
acknowledged acks (not_sent why) = none
acknowledged acks (no_body why) = none

-- What an acknowledgement settles: acceptance, a replay, or a refusal but for the two that pass.
abbrev final : Ack → Option (Result ClientError Delivery)
final a =
    if a.ok
    then some (ok (queued (elim a.id [ none ↦ zero_id | some id ↦ id ])))
    else elim a.error [
      | none ↦ none
      | some replayed ↦ some (ok already_delivered)
      | some rate_limited ↦ none
      | some internal ↦ none
      | some code ↦ some (err (refused code))
    ]

-- What an HTTP call settles: an answer that is no acknowledgement, or none at all, settles nothing.
abbrev pub settled_by : Cbor Ack → Http → Option (Result ClientError Delivery)
settled_by acks h = elim (acknowledged acks h) [ none ↦ none | some a ↦ final a ]

decisive-delivery_of : (a : Ack) → decisive (delivery_of a.ok a.id a.error) ≡ final a
unfolding decisive delivery_of retryable
decisive-delivery_of a = ground arith

decisive-settled_by :
    (acks : Cbor Ack) (h : Http) → decisive (submit_once acks h) ≡ settled_by acks h
unfolding decisive submit_once
decisive-settled_by acks (not_sent why) = refl
decisive-settled_by acks (no_body why) = refl
decisive-settled_by acks (response status body) = elim (Option-cases (acks.from_reader body)) [
  | inl unread ↦ ground arith
  | inr (a, read) ↦ ground (arith, decisive-delivery_of a)
]

module _ (acks : Cbor Ack) (http : ℕ → Http) where
  abbrev at_one : ℕ → Option (Result ClientError Delivery)
  at_one n = settled_by acks (http n)

  attempts-cases :
      (left a : ℕ)
      → ((attempts acks http left a ≡ (count a left, none)) × All (Unsettled at_one) (count a left))
        ⊎ ((calls : List ℕ) × (r : Result ClientError Delivery) × (attempts acks http left a
              ≡ (calls, some r))
            × Settled at_one (count a left) calls r)
  unfolding attempts count
  attempts-cases zero a = inl (refl, tt)
  attempts-cases (suc left) a = elim (Option-cases (at_one a)) [
    | inr (r, settles) ↦
        let ends = decisive-settled_by acks (http a) ∙ settles in
        inr (
          a ∷ [],
          r,
          rw (ends, attempts) refl,
          record {
            before = [];
            last = a;
            rest = count (suc a) left;
            calls_are = refl;
            planned = refl;
            unsettled = tt;
            settled = settles;
          },
        )
    | inl on ↦
        let goes = decisive-settled_by acks (http a) ∙ on in
        elim (attempts-cases left (suc a)) [
          | inl (same, all) ↦ inl (rw (goes, same, attempts) refl, (on, all))
          | inr (calls, r, same, s) ↦
              inr (a ∷ calls, r, rw (goes, same, attempts) refl, later at_one a on s)
        ]
  ]

module _ {A B : Type 0} (settles : A → Option B) where
  -- Calls that settle nothing come before.
  behind :
      (xs : List A) {plan calls : List A} {b : B}
      → All (Unsettled settles) xs
      → Settled settles plan calls b
      → Settled settles (xs ++ plan) (xs ++ calls) b
  behind [] all s = s
  behind (x ∷ xs) (u, all) s = later settles x u (behind xs all s)

  All-append :
      (xs ys : List A)
      → All (Unsettled settles) xs
      → All (Unsettled settles) ys
      → All (Unsettled settles) (xs ++ ys)
  All-append [] ys a b = b
  All-append (x ∷ xs) ys (u, a) b = (u, All-append xs ys a b)

tag_all-append :
    {A : Type 0} (e : ℕ) (xs ys : List A) → tag_all e (xs ++ ys) ≡ tag_all e xs ++ tag_all e ys
tag_all-append e [] ys = refl
tag_all-append e (x ∷ xs) ys = ap (◌∷◌ (e, x)) (tag_all-append e xs ys)

module _ (acks : Cbor Ack) (http : ℕ → ℕ → Http) where
  abbrev pub at : ℕ × ℕ → Option (Result ClientError Delivery)
  at (e, n) = settled_by acks (http e n)

  All-tag_all :
      (e : ℕ) (ns : List ℕ)
      → All (Unsettled (at_one acks (http e))) ns
      → All (Unsettled at) (tag_all e ns)
  All-tag_all e [] all = tt
  All-tag_all e (n ∷ ns) (u, all) = (u, All-tag_all e ns all)

  tagged :
      (e : ℕ) {plan calls : List ℕ} (more : List (ℕ × ℕ)) {r : Result ClientError Delivery}
      → Settled (at_one acks (http e)) plan calls r
      → Settled at (tag_all e plan ++ more) (tag_all e calls) r
  tagged e {plan} more s = record {
    before = tag_all e s.before;
    last = (e, s.last);
    rest = tag_all e s.rest ++ more;
    calls_are = ap (tag_all e) s.calls_are ∙ tag_all-append e s.before (s.last ∷ []);
    planned =
        sym (append_assoc (tag_all e s.before) (tag_all e (s.last ∷ s.rest)) more)
        ∙ ap (λ l. l ++ more)
            (sym (tag_all-append e s.before (s.last ∷ s.rest)) ∙ ap (tag_all e) s.planned);
    unsettled = All-tag_all e s.before s.unsettled;
    settled = s.settled;
  }

  after :
      RetryPolicy
      → ℕ
      → ℕ
      → List ℕ × Option (Result ClientError Delivery)
      → List (ℕ × ℕ) × Result ClientError Delivery
  after policy left e (tried, some r) = (tag_all e tried, r)
  after policy left e (tried, none) =
      let (more, last) = submit acks policy http left (suc e) in (tag_all e tried ++ more, last)

  submit-after :
      (policy : RetryPolicy) (left e : ℕ)
      → submit acks policy http (suc left) e
        ≡ after policy left e (attempts acks (http e) policy.attempts_per_endpoint 0)
  unfolding submit after
  submit-after policy left e =
      elim (Option-cases (attempts acks (http e) policy.attempts_per_endpoint 0).1) [
        | inl goes_on ↦ ground arith
        | inr (r, ends) ↦ ground arith
      ]

  submit-is :
      (policy : RetryPolicy) (left e : ℕ) {y : List ℕ × Option (Result ClientError Delivery)}
      → attempts acks (http e) policy.attempts_per_endpoint 0 ≡ y
      → submit acks policy http (suc left) e ≡ after policy left e y
  submit-is policy left e h = submit-after policy left e ∙ ap (after policy left e) h

  -- `submit` calls the endpoints one after another, each as often as the policy says, and stops at the
  -- first answer that settles the matter, which it returns: an acknowledgement that accepts, or
  -- that refuses with a code, of which a replay counts as delivered, and rate_limited and internal
  -- settle nothing, as does any answer that is no acknowledgement. Where no answer settles the
  -- matter, it has made every call of the plan and returns that no relay could be reached.
  pub submit-Settled :
      (policy : RetryPolicy) (left endpoint : ℕ)
      → Settled at
          (schedule policy.attempts_per_endpoint left endpoint)
          (submit acks policy http left endpoint).0
          (submit acks policy http left endpoint).1
        ⊎ (((submit acks policy http left endpoint) ≡ (
          schedule policy.attempts_per_endpoint left endpoint,
          err (unreachable "every endpoint failed"),
        ))
            × All (Unsettled at) (schedule policy.attempts_per_endpoint left endpoint))
  unfolding submit schedule after
  submit-Settled policy zero endpoint = inr (refl, tt)
  submit-Settled policy (suc left) endpoint =
      let per = policy.attempts_per_endpoint in
      let here = tag_all endpoint (count 0 per) in
      let Good : List (ℕ × ℕ) × Result ClientError Delivery → Type 0 =
        λ y. Settled at (schedule per (suc left) endpoint) y.0 y.1 in
      elim (attempts-cases acks (http endpoint) per 0) [
        | inr (calls, r, same, s) ↦ inl (
            subst Good (sym (submit-is policy left endpoint same))
              (tagged endpoint (schedule per left (suc endpoint)) s))
        | inl (same, all) ↦
            let none_here = All-tag_all endpoint (count 0 per) all in
            elim (submit-Settled policy left (suc endpoint)) [
              | inl s ↦ inl (
                  subst Good (sym (submit-is policy left endpoint same))
                    (behind at here none_here s))
              | inr (rest, every) ↦ inr (
                submit-is policy left endpoint same ∙ ap (λ y. (here ++ y.0, y.1)) rest,
                All-append at here (schedule per left (suc endpoint)) none_here every,
              )
            ]
      ]
