-- ===== src/Chain/Watcher.antt =====
-- crates/zbacs-chain/src/watcher.rs: polling the node for the events of the contracts. The node's
-- answers are arguments, and the decoding of a log (alloy) is a parameter; `poll` mutates the
-- watcher, so the model returns it.
pub mod Ranges
use z_bacs.Prelude.{
  ℕ, ◌+◌, ◌%◌, ◌^◌, Bool, true, false, Option, none, some, List, [], ◌∷◌, ◌++◌, Result, ok, err,
  ltb, if◌then◌else◌, String,
}
use z_bacs.Prelude.Bytes.{Bytes, bytes_beq}

pub data ChainEvent : Type 0 where
  granted : Bytes → Bytes → ℕ → ℕ → ChainEvent
  revoked : Bytes → Bytes → ChainEvent
  version_bumped : Bytes → ℕ → Bytes → ChainEvent

-- The signature hashes of the three events, and `log_decode` at each.
pub record Contracts (Log : Type 0) : Type 0 where
  pub topic0 : Log → Option Bytes
  pub granted_topic : Bytes
  pub revoked_topic : Bytes
  pub bumped_topic : Bytes
  pub decode_granted : Log → Option ChainEvent
  pub decode_revoked : Log → Option ChainEvent
  pub decode_bumped : Log → Option ChainEvent

-- What the node answers to one poll: the number of its newest block, and the logs of a range.
pub record Node (Log : Type 0) : Type 0 where
  pub get_block_number : Result String ℕ
  pub get_logs : ℕ → ℕ → Result String (List Log)

module _ {Log : Type 0} (c : Contracts Log) where
  -- The arms of the loop for one log; `none` where it pushes nothing.
  unfoldable pub event_of : Log → Option ChainEvent
  event_of log = elim (c.topic0 log) [
    | none ↦ none
    | some topic ↦
        if bytes_beq topic c.granted_topic
        then c.decode_granted log
        else if bytes_beq topic c.revoked_topic
        then c.decode_revoked log
        else if bytes_beq topic c.bumped_topic
        then c.decode_bumped log
        else none
  ]

  unfoldable pub events_of : List Log → List ChainEvent
  unfolding event_of
  events_of [] = []
  events_of (l ∷ ls) =
      let rest = events_of ls in elim (event_of l) [ none ↦ rest | some e ↦ e ∷ rest ]

  -- The state is the next block; it is a u64, and wraps in a release build.
  unfoldable pub poll : Node Log → ℕ → ℕ × Result String (List ChainEvent)
  unfolding events_of
  poll node next_block = elim node.get_block_number [
    | err e ↦ (next_block, err e)
    | ok head ↦
        if ltb head next_block then (next_block, ok []) else elim (node.get_logs next_block head) [
          | err e ↦ (next_block, err e)
          | ok logs ↦ ((head + 1) % 2 ^ 64, ok (events_of logs))
        ]
  ]

  abbrev pub delivered : Result String (List ChainEvent) → List ChainEvent
  delivered (ok es) = es
  delivered (err e) = []

  -- `run`: the events that are handed on over a number of polls, and the next block after them.
  unfoldable pub run : List (Node Log) → ℕ → ℕ × List ChainEvent
  unfolding poll
  run [] next_block = (next_block, [])
  run (n ∷ ns) next_block =
      let (next, answer) = poll n next_block in
      let (last, rest) = run ns next in (last, delivered answer ++ rest)
