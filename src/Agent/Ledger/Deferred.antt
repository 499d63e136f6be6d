-- ===== src/Agent/Ledger/Deferred.antt =====
-- The queue of `bumpVersion`s in apps/agent/src-tauri/src/ledger.rs.
use z_bacs.Prelude.{
  Bool, not, ◌≡◌, ◌≢◌, sym, Option, some, List, [], ◌∷◌, ◌++◌, ok, All, keep, any, arith,
}
use z_bacs.Prelude.Bytes.{Bytes, bytes_beq, bytes_beq_iff}
use z_bacs.Agent.Ledger.{
  File, Io, Json, ReadsBack, record_entry, advance_version, record_grant, mark_revoked,
  set_registered_tx, set_chain_cursor, defer_bump, clear_deferred_bumps, next_grant_nonce,
  same_bump,
}
use z_bacs.Agent.Ledger.Calls.{
  Call, Reply, advances, revokes, registers, defers, clears, change, run, held,
}
use z_bacs.Agent.Ledger.Runs.{run-preserves}

-- No file is queued twice.
abbrev pub Distinct : List (Bytes × Bytes) → Type 0
Distinct [] = Unit
Distinct (b ∷ bs) = All (λ c. c.0 ≢ b.0) bs × Distinct bs

All-keep :
    (P : Bytes × Bytes → Type 0) (p : Bytes × Bytes → Bool) (l : List (Bytes × Bytes))
    → All P l
    → All P (keep p l)
All-keep P p [] h = tt
All-keep P p (b ∷ bs) h = ground (arith, All-keep P p bs h.1)

keep-Distinct :
    (p : Bytes × Bytes → Bool) (l : List (Bytes × Bytes)) → Distinct l → Distinct (keep p l)
keep-Distinct p [] h = tt
keep-Distinct p (b ∷ bs) h =
    ground (arith, keep-Distinct p bs h.1, All-keep (λ c. c.0 ≢ b.0) p bs h.0)

All-append :
    (P : Bytes × Bytes → Type 0) (l : List (Bytes × Bytes)) (b : Bytes × Bytes)
    → All P l
    → P b
    → All P (l ++ (b ∷ []))
All-append P [] b h p = (p, tt)
All-append P (c ∷ l) b h p = (h.0, All-append P l b h.1 p)

others-differ :
    (fid : Bytes) (l : List (Bytes × Bytes))
    → All (λ c. c.0 ≢ fid) (keep (λ b. not (bytes_beq b.0 fid)) l)
others-differ fid [] = tt
others-differ fid (b ∷ bs) = ground (arith, bytes_beq_iff b.0 fid, others-differ fid bs)

append-Distinct :
    (l : List (Bytes × Bytes)) (b : Bytes × Bytes)
    → Distinct l
    → All (λ c. c.0 ≢ b.0) l
    → Distinct (l ++ (b ∷ []))
append-Distinct [] b d h = (tt, tt)
append-Distinct (c ∷ l) b d h =
    (All-append (λ e. e.0 ≢ c.0) l b d.0 (λ e. h.0 (sym e)), append-Distinct l b d.1 h.1)

pub defer_bump-Distinct :
    (fid hash : Bytes) (f : File)
    → Distinct f.deferred_bumps
    → Distinct (defer_bump fid hash f).deferred_bumps
unfolding defer_bump
defer_bump-Distinct fid hash f d =
    let p : Bytes × Bytes → Bool = λ b. not (bytes_beq b.0 fid) in
    append-Distinct (keep p f.deferred_bumps) (fid, hash) (keep-Distinct p f.deferred_bumps d)
      (others-differ fid f.deferred_bumps)

change-Distinct :
    (c : Call) (f g : File) (r : Reply)
    → change c f ≡ ok (g, r)
    → Distinct f.deferred_bumps
    → Distinct g.deferred_bumps
unfolding change record_entry advance_version record_grant mark_revoked set_registered_tx
    set_chain_cursor clear_deferred_bumps next_grant_nonce
change-Distinct (defers fid hash) f g r h d =
    let is : g ≡ defer_bump fid hash f = ground arith in rw is (defer_bump-Distinct fid hash f d)
change-Distinct (clears landed) f g r h d =
    let is : g ≡ clear_deferred_bumps landed f = ground arith in
    rw is (keep-Distinct (λ b. not (any (λ l. same_bump l b) landed)) f.deferred_bumps d)
change-Distinct (advances key prev next ver env) f g r h d =
    let same : g.deferred_bumps ≡ f.deferred_bumps = ground arith in rw same d
change-Distinct (revokes id now tx) f g r h d =
    let same : g.deferred_bumps ≡ f.deferred_bumps = ground arith in rw same d
change-Distinct (registers fid tx) f g r h d =
    let same : g.deferred_bumps ≡ f.deferred_bumps = ground arith in rw same d
change-Distinct c f g r h d = ground arith

module _ {Doc : Type 0} (json : Json Doc) (law : ReadsBack json) where
  -- Over any run of calls, whatever the file system answers, no file has two `bumpVersion`s in the
  -- queue, if none had at the start.
  run-Distinct :
      (cs : List (Call × Io)) (disk : Option Doc) (f : File)
      → held json disk ≡ some f
      → Distinct f.deferred_bumps
      → (g : File) × (held json (run json cs disk).0 ≡ some g) × Distinct g.deferred_bumps
  run-Distinct cs disk f h d =
      run-preserves json law (λ f'. Distinct f'.deferred_bumps) cs disk f (every cs) h d
    where
      every :
          (cs : List (Call × Io))
          → All
              (λ s.
                (a b : File) (r : Reply)
                → change s.0 a ≡ ok (b, r)
                → Distinct a.deferred_bumps
                → Distinct b.deferred_bumps)
              cs
      every [] = tt
      every (s ∷ cs) = (change-Distinct s.0, every cs)
