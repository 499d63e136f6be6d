-- ===== src/Chain/Tests.antt =====
-- The cache and the watcher at concrete inputs.
use z_bacs.Prelude.{
  ℕ, ◌+◌, ◌-◌, ◌≤◌, Bool, true, false, ◌≡◌, refl, some, none, [], ◌∷◌, List, ok, err, All, arith,
  inl, inr, ltb, if◌then◌else◌, zero, suc, ◌++◌,
}
use z_bacs.Chain.Cache.{
  Put, grants_put, new, puts, grant, Cached, cached, fresh, put_grant, if_fresh,
}
use z_bacs.Chain.Cache.Revocations.{Allowed, Confirms, Some, if_fresh-Allowed}
use z_bacs.Chain.Watcher.{ChainEvent, Contracts, Node, run}
use z_bacs.Chain.Watcher.Ranges.{logs_from, Reads, IsNodeOf, run-events}

abbrev answers : List Put
answers =
    grants_put (1 ∷ []) true 100 ∷ grants_put (2 ∷ []) false 110 ∷ grants_put (1 ∷ []) true 120 ∷ []

abbrev remembered : Cached Bool
remembered = record { value = true; freshness = fresh; age = 5 }

remembered_is : grant (1 ∷ []) 10 125 (puts answers new) ≡ some remembered
unfolding grant puts new put_grant cached z_bacs.Prelude.Bytes.bytes_beq
remembered_is = refl

if_fresh-Allowed_example : All (Allowed (1 ∷ [])) answers × Some (Confirms (1 ∷ []) 10 125) answers
unfolding if_fresh
if_fresh-Allowed_example = if_fresh-Allowed (1 ∷ []) 10 125 answers remembered remembered_is refl

-- A chain whose block `n` has one log, the number `n`, a revocation.
abbrev contracts : Contracts ℕ
contracts = record {
  topic0 = λ n. some [];
  granted_topic = 1 ∷ [];
  revoked_topic = [];
  bumped_topic = 2 ∷ [];
  decode_granted = λ n. none;
  decode_revoked = λ n. some (ChainEvent.revoked (n ∷ []) []);
  decode_bumped = λ n. none;
}

abbrev chain : ℕ → List ℕ
chain n = n ∷ []

abbrev node_at : ℕ → Node ℕ
node_at head = record {
  get_block_number = ok head;
  get_logs = λ from to. ok (logs_from chain from (to + 1 - from));
}

abbrev node_down : Node ℕ
node_down = record { get_block_number = ok 9; get_logs = λ from to. err "down" }

node_at_seven-IsNodeOf : IsNodeOf chain (node_at 7)
node_at_seven-IsNodeOf = record {
  block-small = λ head h. ground arith;
  logs_asked = λ from to ls h. ground arith;
}

node_down-IsNodeOf : IsNodeOf chain node_down
node_down-IsNodeOf = record {
  block-small = λ head h. ground arith;
  logs_asked = λ from to ls h. cc;
}

abbrev polls : List (Node ℕ)
polls = node_at 7 ∷ node_down ∷ node_at 7 ∷ []

run-events_example :
    (k : ℕ) × ((run contracts polls 5).0 ≡ 5 + k)
    × Reads contracts (logs_from chain 5 k) (run contracts polls 5).1
run-events_example =
    run-events contracts chain polls 5
      (node_at_seven-IsNodeOf, (node_down-IsNodeOf, (node_at_seven-IsNodeOf, tt)))

polls_read : (run contracts polls 5).0 ≡ 8
unfolding run
polls_read = refl
