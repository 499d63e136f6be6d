-- ===== src/Agent/Link.antt =====
-- `ChainLink` of apps/agent/src-tauri/src/chain.rs: the writes to the chain, and the queue of those
-- that wait for the next tap (ADR-0008). What the chain and the file system answer are arguments.
use z_bacs.Prelude.{
  Bool, true, false, not, Option, none, some, List, [], ◌∷◌, ◌++◌, String, Result, ok, err,
  if◌then◌else◌,
}
use z_bacs.Prelude.Bytes.{Bytes, codes}
use z_bacs.Proto.Grant.{AccessGrantTerms}
use z_bacs.Agent.Forms.{Forms}
use z_bacs.Agent.Ledger.{Io, Json}
use z_bacs.Agent.Ledger.Calls.{defers, clears, call, deferred_bumps}

-- `zbacs_chain::ChainError`.
pub data ChainError : Type 0 where
  unreachable rejected malformed config : Bytes → ChainError

-- `zbacs_chain::Call`. Of a grant, the arguments are its terms (`grant_args`).
pub data ChainCall : Type 0 where
  register bump_version revoke : Bytes → Bytes → ChainCall
  grant : AccessGrantTerms → ChainCall

pub data Mode : Type 0 where
  direct smart_account read_only : Mode

abbrev pub is_smart : Mode → Bool
is_smart smart_account = true
is_smart _ = false

-- The parts of `ChainLink` that decide; the connections are outside.
pub record ChainLink : Type 0 where
  pub has_writer : Bool
  pub mode : Mode
  pub defers_silent_writes : Bool

abbrev pub Submit : Type 0
Submit = List ChainCall → Result ChainError Bytes

module _ (k : Forms) where
  -- The queued writes that decode, as calls.
  unfoldable pub waiting_calls : List (Bytes × Bytes) → List ChainCall
  waiting_calls [] = []
  waiting_calls ((fid, header) ∷ bs) =
      let rest = waiting_calls bs in
      elim (k.unhex32 fid) [
        | none ↦ rest
        | some f ↦ elim (k.unhex32 header) [ none ↦ rest | some h ↦ bump_version f h ∷ rest ]
      ]

abbrev is_empty {ℓ} : {A : Type ℓ} → List A → Bool
is_empty [] = true
is_empty (x ∷ xs) = false

module _ {Doc : Type 0} (json : Json Doc) (k : Forms) where
  -- `write`: `reading` and `clearing` are the file system's answers to the two uses of the ledger.
  unfoldable pub write :
      ChainLink → Submit → Io → Io → ChainCall → Option Doc → Option Doc × Result ChainError Bytes
  unfolding waiting_calls call deferred_bumps
  write link submit reading clearing about disk =
      let waiting = deferred_bumps json reading disk in
      if not link.has_writer
      then (disk, err (config (codes "no writer")))
      else elim (submit (waiting_calls k waiting ++ (about ∷ []))) [
        | err e ↦ (disk, err e)
        | ok tx ↦
            (if is_empty waiting then disk else (call json (clears waiting) clearing disk).0, ok tx)
      ]

  -- `bump_version`; `none` means that it is queued.
  unfoldable pub bump :
      ChainLink
      → Submit
      → Io
      → Bytes
      → Bytes
      → Option Doc
      → Option Doc × Result ChainError (Option Bytes)
  unfolding call
  bump link submit io file_id header_hash disk =
      if not link.has_writer
      then (disk, err (config (codes "no writer")))
      else (if link.defers_silent_writes
          then queued (call json (defers (k.hex file_id) (k.hex header_hash)) io disk)
          else (disk, sent (submit (bump_version file_id header_hash ∷ []))))
    where
      queued :
          {A : Type 0}
          → Option Doc × Result String A
          → Option Doc × Result ChainError (Option Bytes)
      queued (d, ok a) = (d, ok none)
      queued (d, err e) = (d, err (config (codes e)))

      sent : Result ChainError Bytes → Result ChainError (Option Bytes)
      sent (ok tx) = ok (some tx)
      sent (err e) = err e
