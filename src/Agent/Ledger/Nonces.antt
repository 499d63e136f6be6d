-- ===== src/Agent/Ledger/Nonces.antt =====
-- `next_grant_nonce` of apps/agent/src-tauri/src/ledger.rs over runs of calls.
use z_bacs.Prelude.{
  ℕ, ◌+◌, ◌<◌, ◌≤◌, ◌^◌, ◌≡◌, ◌⊎◌, inl, inr, Option, some, List, [], ◌∷◌, Result, ok, String,
  length, sym, arith,
}
use z_bacs.Agent.Ledger.{
  File, Io, Json, ReadsBack, record_entry, advance_version, record_grant, mark_revoked,
  set_registered_tx, set_chain_cursor, defer_bump, clear_deferred_bumps, next_grant_nonce,
}
use z_bacs.Agent.Ledger.Calls.{Call, Reply, takes_nonce, nonce, change, run, held}
use z_bacs.Agent.Ledger.Runs.{call-cases}

-- The nonces among the results of a run.
unfoldable pub handed_out : List (Result String Reply) → List ℕ
handed_out [] = []
handed_out (ok (nonce n) ∷ rs) = n ∷ handed_out rs
handed_out (_ ∷ rs) = handed_out rs

-- Each number is at least the bound, and lies above the ones before it.
abbrev pub Ascending : ℕ → List ℕ → Type 0
Ascending low [] = Unit
Ascending low (n ∷ ns) = (low ≤ n) × Ascending (n + 1) ns

Ascending-weaken : (a b : ℕ) (ns : List ℕ) → a ≤ b → Ascending b ns → Ascending a ns
Ascending-weaken a b [] l h = tt
Ascending-weaken a b (n ∷ ns) l h = (omega arith, h.1)

-- A change takes the nonce and moves it on, or has nothing to do with it.
change-grant_nonce :
    (c : Call) (f g : File) (r : Reply)
    → f.grant_nonce + 1 < 2 ^ 64
    → change c f ≡ ok (g, r)
    → ((g.grant_nonce ≡ f.grant_nonce)
        × ((rs : List (Result String Reply)) → handed_out (ok r ∷ rs) ≡ handed_out rs))
      ⊎ ((g.grant_nonce ≡ f.grant_nonce + 1)
          × ((rs : List (Result String Reply))
              → handed_out (ok r ∷ rs) ≡ f.grant_nonce ∷ handed_out rs))
unfolding change record_entry advance_version record_grant mark_revoked set_registered_tx
    set_chain_cursor defer_bump clear_deferred_bumps next_grant_nonce handed_out
change-grant_nonce takes_nonce f g r small h = inr ground arith
change-grant_nonce c f g r small h = inl ground arith

module _ {Doc : Type 0} (json : Json Doc) (law : ReadsBack json) where
  -- The nonces that a run of calls hands out ascend, whatever the file system answers and whichever
  -- calls come between: none is handed out twice. The first is at least the one on disk, and the
  -- count stays below 2^64.
  pub handed_out-Ascending :
      (cs : List (Call × Io)) (disk : Option Doc) (f : File)
      → held json disk ≡ some f
      → f.grant_nonce + length cs < 2 ^ 64
      → Ascending f.grant_nonce (handed_out (run json cs disk).1)
  unfolding run handed_out
  handed_out-Ascending [] disk f h small = tt
  handed_out-Ascending ((c, io) ∷ cs) disk f h small = elim (call-cases json law c io disk f h) [
    | inl (e, same) ↦ rw same (handed_out-Ascending cs disk f h (omega arith))
    | inr (g, r, doc, changed, h', now) ↦
        rw now (elim (change-grant_nonce c f g r (omega arith) changed) [
          | inl (n, rest) ↦ rw (rest, sym n) (handed_out-Ascending cs (some doc) g h' (omega arith))
          | inr (n, rest) ↦
              rw rest
                (omega arith, rw (sym n) (handed_out-Ascending cs (some doc) g h' (omega arith)))
        ])
  ]
