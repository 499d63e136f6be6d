-- ===== src/Agent/Ledger/Revocations.antt =====
-- `mark_revoked` of apps/agent/src-tauri/src/ledger.rs over runs of calls.
use z_bacs.Prelude.{
  ℕ, false, ◌≡◌, ◌≢◌, inl, inr, refl, Option, some, List, ok, All, All-map, arith, >>=-ok, ok_or,
  ok_or-ok, Bool-cases,
}
use z_bacs.Prelude.Bytes.{Bytes, bytes_beq, bytes_beq_iff}
use z_bacs.Agent.Dict.{get, assign, get-insert, get-assign}
use z_bacs.Agent.Ledger.{
  File, Grant, Io, Json, ReadsBack, is_active, record_entry, advance_version, record_grant,
  revoked_grant, mark_revoked, set_registered_tx, set_chain_cursor, defer_bump,
  clear_deferred_bumps, next_grant_nonce,
}
use z_bacs.Agent.Ledger.Calls.{
  Call, Reply, advances, grants_access, revokes, registers, change, run, held,
}
use z_bacs.Agent.Ledger.Runs.{run-preserves}

-- The approval was pulled back at `t`.
abbrev RevokedAt : Bytes → ℕ → File → Type 0
RevokedAt id t f = (g : Grant) × (get f.grants id ≡ some g) × (g.revoked_at ≡ some t)

-- The calls that do not record an approval under this id again.
unfoldable pub KeepsGrant : Bytes → Call → Type 0
KeepsGrant id (grants_access g) = g.grant_id ≢ id
KeepsGrant id _ = Unit

change-RevokedAt :
    (id : Bytes) (t : ℕ) (c : Call) (f g : File) (r : Reply)
    → KeepsGrant id c
    → change c f ≡ ok (g, r)
    → RevokedAt id t f
    → RevokedAt id t g
unfolding change KeepsGrant revoked_grant record_entry advance_version record_grant mark_revoked
    set_registered_tx set_chain_cursor defer_bump clear_deferred_bumps next_grant_nonce
change-RevokedAt id t (grants_access new) f g r fresh h (old, here, when) =
    let look = get-insert new.grant_id id new f.grants in
    let is : g ≡ record_grant new f = ground arith in
    (old, ground (arith, bytes_beq_iff new.grant_id id), when)
change-RevokedAt id t (revokes other now tx) f g r u h (old, here, when) =
    let ((g', out), marked, given) = >>=-ok (mark_revoked other now tx f) _ h in
    let (mine, found, rest) = >>=-ok (ok_or (get f.grants other) "unknown grant") _ marked in
    let is : g ≡ g' = ground arith in
    let file : g' ≡ record f { grants = assign other (revoked_grant mine now tx) f.grants } =
      ground arith in
    let look =
      get-assign other id (revoked_grant mine now tx) mine f.grants
        (ok_or-ok (get f.grants other) "unknown grant" found) in
    elim (Bool-cases (bytes_beq other id)) [
      | inl same ↦
          let at : other ≡ id = (bytes_beq_iff other id).0 same in
          let is_old : mine ≡ old =
            ground (arith, ok_or-ok (get f.grants other) "unknown grant" found) in
          (revoked_grant mine now tx, rw (is, file, look, same) refl, ground arith)
      | inr differ ↦ (old, rw (is, file, look, differ) here, when)
    ]
change-RevokedAt id t (advances key prev next ver env) f g r u h p =
    let same : g.grants ≡ f.grants = ground arith in rw same p
change-RevokedAt id t (registers fid tx) f g r u h p =
    let same : g.grants ≡ f.grants = ground arith in rw same p
change-RevokedAt id t c f g r u h p = ground arith

module _ {Doc : Type 0} (json : Json Doc) (law : ReadsBack json) where
  -- An approval that was pulled back stays so over any run of calls that does not record an
  -- approval under its id again, whatever the file system answers: it keeps the time at which it
  -- was first pulled back, and it is active at no time.
  pub run-revoked :
      (cs : List (Call × Io)) (disk : Option Doc) (f : File) (id : Bytes) (old : Grant) (t : ℕ)
      → held json disk ≡ some f
      → get f.grants id ≡ some old
      → old.revoked_at ≡ some t
      → All (λ s. KeepsGrant id s.0) cs
      → (g : File) × (new : Grant) × (held json (run json cs disk).0 ≡ some g)
        × (get g.grants id ≡ some new)
        × (new.revoked_at ≡ some t)
        × ((now : ℕ) → is_active new now ≡ false)
  unfolding is_active
  run-revoked cs disk f id old t h here when calls_keep =
      let steps = All-map (λ s u a b r. change-RevokedAt id t s.0 a b r u) cs calls_keep in
      let (g, end, later) =
        run-preserves json law (RevokedAt id t) cs disk f steps h (old, here, when) in
      let (new, there, when') = later in (g, new, end, there, when', λ now. ground arith)
