-- ===== src/Chain/Watcher/Ranges.antt =====
-- The blocks that crates/zbacs-chain/src/watcher.rs reads.
use z_bacs.Prelude.{
  ℕ, suc, zero, ◌+◌, ◌-◌, ◌<◌, ◌^◌, ◌≡◌, refl, sym, ap, ◌∙◌, inl, inr, List, [], ◌∷◌, ◌++◌,
  append_assoc, ok, some, none, Option, ◌≢◌, subst, some_inj, false, ltb, arith, All, Result-cases,
  Option-cases, Bool-cases,
}
use z_bacs.Prelude.Bytes.{Bytes, bytes_beq, bytes_beq_iff}
use z_bacs.Chain.Watcher.{ChainEvent, Contracts, Node, event_of, events_of, poll, delivered, run}

-- The logs of `n` blocks from a first one on.
unfoldable pub logs_from : {Log : Type 0} → (ℕ → List Log) → ℕ → ℕ → List Log
logs_from chain from zero = []
logs_from chain from (suc n) = chain from ++ logs_from chain (suc from) n

-- A node of this chain: whatever logs it returns are those of the blocks asked for; its newest block
-- has a number below 2^64 - 1. It may fail, and it may be behind.
pub record IsNodeOf {Log : Type 0} (chain : ℕ → List Log) (n : Node Log) : Type 0 where
  pub block-small : (head : ℕ) → n.get_block_number ≡ ok head → head + 1 < 2 ^ 64
  pub logs_asked :
      (from to : ℕ) (ls : List Log)
      → n.get_logs from to ≡ ok ls
      → ls ≡ logs_from chain from (to + 1 - from)

-- What a log says, by its topic: what the contract's event of that topic decodes to, which is
-- nothing where it does not decode, and nothing under any other topic.
pub data Means {Log : Type 0} (c : Contracts Log) (l : Log) : Option ChainEvent → Type 0 where
  grants : c.topic0 l ≡ some c.granted_topic → Means c l (c.decode_granted l)
  revokes : c.topic0 l ≡ some c.revoked_topic → Means c l (c.decode_revoked l)
  bumps : c.topic0 l ≡ some c.bumped_topic → Means c l (c.decode_bumped l)
  unknown :
      c.topic0 l ≢ some c.granted_topic
      → c.topic0 l ≢ some c.revoked_topic
      → c.topic0 l ≢ some c.bumped_topic
      → Means c l none

-- The events that logs say, in their order.
pub data Reads {Log : Type 0} (c : Contracts Log) : List Log → List ChainEvent → Type 0 where
  ends : Reads c [] []
  silent :
      {l : Log} {ls : List Log} {es : List ChainEvent}
      → Means c l none
      → Reads c ls es
      → Reads c (l ∷ ls) es
  told :
      {l : Log} {ls : List Log} {e : ChainEvent} {es : List ChainEvent}
      → Means c l (some e)
      → Reads c ls es
      → Reads c (l ∷ ls) (e ∷ es)

module _ {Log : Type 0} (c : Contracts Log) where
  event_of-Means : (l : Log) → Means c l (event_of c l)
  unfolding event_of
  event_of-Means l = elim (Option-cases (c.topic0 l)) [
    | inl bare ↦
        let is : event_of c l ≡ none = ground arith in
        subst (Means c l) (sym is) (
          unknown (λ h. ground (arith, bare, h)) (λ h. ground (arith, bare, h))
            (λ h. ground (arith, bare, h)))
    | inr (t, topic) ↦ elim (Bool-cases (bytes_beq t c.granted_topic)) [
      | inl g ↦
          let is : event_of c l ≡ c.decode_granted l = rw (topic, g, event_of) refl in
          subst (Means c l) (sym is) (grants (topic ∙ ap some ((bytes_beq_iff _ _).0 g)))
      | inr ng ↦ elim (Bool-cases (bytes_beq t c.revoked_topic)) [
        | inl v ↦
            let is : event_of c l ≡ c.decode_revoked l = rw (topic, ng, v, event_of) refl in
            subst (Means c l) (sym is) (revokes (topic ∙ ap some ((bytes_beq_iff _ _).0 v)))
        | inr nv ↦ elim (Bool-cases (bytes_beq t c.bumped_topic)) [
          | inl b ↦
              let is : event_of c l ≡ c.decode_bumped l = rw (topic, ng, nv, b, event_of) refl in
              subst (Means c l) (sym is) (bumps (topic ∙ ap some ((bytes_beq_iff _ _).0 b)))
          | inr nb ↦
              let is : event_of c l ≡ none = rw (topic, ng, nv, nb, event_of) refl in
              subst (Means c l) (sym is) (
                unknown (other_topic t c.granted_topic topic ng)
                  (other_topic t c.revoked_topic topic nv) (other_topic t c.bumped_topic topic nb))
        ]
      ]
    ]
  ]
    where
      other_topic :
          (t u : Bytes) → c.topic0 l ≡ some t → bytes_beq t u ≡ false → c.topic0 l ≢ some u
      other_topic t u h n same = ground (arith, some_inj (sym h ∙ same), bytes_beq_iff t u)

  events_of-Reads : (ls : List Log) → Reads c ls (events_of c ls)
  unfolding events_of
  events_of-Reads [] = ends
  events_of-Reads (l ∷ ls) =
      let rest = events_of-Reads ls in
      let means = event_of-Means l in
      elim (Option-cases (event_of c l)) [
        | inl none_of ↦
            let is : events_of c (l ∷ ls) ≡ events_of c ls = rw (none_of, events_of) refl in
            subst (Reads c (l ∷ ls)) (sym is) (silent (subst (Means c l) none_of means) rest)
        | inr (e, some_of) ↦
            let is : events_of c (l ∷ ls) ≡ e ∷ events_of c ls = rw (some_of, events_of) refl in
            subst (Reads c (l ∷ ls)) (sym is) (told (subst (Means c l) some_of means) rest)
      ]

module _ {Log : Type 0} (c : Contracts Log) (chain : ℕ → List Log) where
  events_of-append : (xs ys : List Log) → events_of c (xs ++ ys) ≡ events_of c xs ++ events_of c ys
  unfolding events_of
  events_of-append [] ys = refl
  events_of-append (x ∷ xs) ys = elim (Option-cases (event_of c x)) [
    | inl none_of ↦ rw (none_of, events_of) (events_of-append xs ys)
    | inr (e, some_of) ↦ rw (some_of, events_of) (ap (◌∷◌ e) (events_of-append xs ys))
  ]

  logs_from-append :
      (from m n : ℕ)
      → logs_from chain from (m + n) ≡ logs_from chain from m ++ logs_from chain (from + m) n
  unfolding logs_from
  logs_from-append from zero n =
      let left : 0 + n ≡ n = omega arith in
      let right : from ≡ from + 0 = omega arith in
      ap (logs_from chain from) left ∙ ap (λ x. logs_from chain x n) right
  logs_from-append from (suc m) n =
      let count : suc m + n ≡ suc (m + n) = omega arith in
      let start : suc from + m ≡ from + suc m = omega arith in
      let tail =
        logs_from-append (suc from) m n
        ∙ ap (λ x. logs_from chain (suc from) m ++ logs_from chain x n) start in
      ap (logs_from chain from) count
      ∙ ap (λ l. chain from ++ l) tail
      ∙ sym (
          append_assoc (chain from) (logs_from chain (suc from) m)
            (logs_from chain (from + suc m) n))

  -- One poll hands on the events of the blocks that it passes over.
  poll-events :
      (n : Node Log) (next : ℕ)
      → IsNodeOf chain n
      → (k : ℕ) × ((poll c n next).0 ≡ next + k)
        × (delivered c (poll c n next).1 ≡ events_of c (logs_from chain next k))
  unfolding poll logs_from
  poll-events n next is = elim (Result-cases n.get_block_number) [
    | inl (e, bad) ↦ (0, rw (bad, poll) (omega arith), rw (bad, poll) refl)
    | inr (head, good) ↦ elim (Bool-cases (ltb head next)) [
      | inl behind ↦ (0, rw (good, behind, poll) (omega arith), rw (good, behind, poll) refl)
      | inr ahead ↦ elim (Result-cases (n.get_logs next head)) [
        | inl (e, bad) ↦
            (0, rw (good, ahead, bad, poll) (omega arith), rw (good, ahead, bad, poll) refl)
        | inr (ls, got) ↦
            let small = is.block-small head good in
            (
              head + 1 - next,
              rw (good, ahead, got, poll) (ground arith),
              rw (good, ahead, got, poll) (ap (events_of c) (is.logs_asked next head ls got)),
            )
      ]
    ]
  ]

  run-events_of :
      (ns : List (Node Log)) (first : ℕ)
      → All (IsNodeOf chain) ns
      → (k : ℕ) × ((run c ns first).0 ≡ first + k)
        × ((run c ns first).1 ≡ events_of c (logs_from chain first k))
  unfolding run logs_from events_of
  run-events_of [] first all = (0, omega arith, refl)
  run-events_of (n ∷ ns) first (is, all) =
      let (k, next, these) = poll-events n first is in
      let (m, last, those) = run-events_of ns (poll c n first).0 all in
      let on : events_of c (logs_from chain (poll c n first).0 m)
          ≡ events_of c (logs_from chain (first + k) m) =
        ap (λ x. events_of c (logs_from chain x m)) next in
      let all_of =
        ap (events_of c) (logs_from-append first k m)
        ∙ events_of-append (logs_from chain first k) (logs_from chain (first + k) m) in
      (
        k + m,
        last ∙ (omega arith),
        ap (λ l. delivered c (poll c n first).1 ++ l) (those ∙ on)
            ∙ ap (λ l. l ++ events_of c (logs_from chain (first + k) m)) these
            ∙ sym all_of,
      )

  -- Over any number of polls of nodes of one chain, which may fail or be behind, the events handed on are
  -- those that the logs of the blocks say from the first block up to the next one to read, each once
  -- and in the order of the chain: a log under the topic of one of the three events says what that
  -- event decodes to, so that none is skipped and none repeated but those that do not decode; any
  -- other log says nothing.
  pub run-events :
      (ns : List (Node Log)) (first : ℕ)
      → All (IsNodeOf chain) ns
      → (k : ℕ) × ((run c ns first).0 ≡ first + k)
        × Reads c (logs_from chain first k) (run c ns first).1
  run-events ns first all =
      let (k, next, these) = run-events_of ns first all in
      (k, next, subst (Reads c (logs_from chain first k)) (sym these) (events_of-Reads c _))
