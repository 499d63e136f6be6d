-- ===== src/Agent/Ledger/Calls.antt =====
-- The operations of apps/agent/src-tauri/src/ledger.rs as the agent calls them: read the document,
-- change it, replace it. An operation whose replacement fails returns the error and leaves the
-- document as it was.
use z_bacs.Prelude.{
  ℕ, Bool, Option, none, some, List, [], ◌∷◌, String, Result, ok, err, ◌>>=◌, keep, leb,
  if◌then◌else◌,
}
use z_bacs.Prelude.Bytes.{Bytes}
use z_bacs.Agent.Dict.{get, values}
use z_bacs.Agent.Ledger.{
  File, Entry, Grant, Io, Json, is_active, record_entry, advance_version, record_grant,
  mark_revoked, set_registered_tx, set_chain_cursor, defer_bump, clear_deferred_bumps,
  next_grant_nonce, default_file, load, store,
}

-- One call of an operation that writes, with its arguments.
pub data Call : Type 0 where
  records : Entry → Call
  advances : Bytes → Bytes → Bytes → ℕ → Bytes → Call
  grants_access : Grant → Call
  revokes : Bytes → ℕ → Option Bytes → Call
  registers : Bytes → Bytes → Call
  moves_cursor : ℕ → Call
  defers : Bytes → Bytes → Call
  clears : List (Bytes × Bytes) → Call
  takes_nonce : Call

pub data Reply : Type 0 where
  done : Reply
  entry : Entry → Reply
  grant : Grant → Reply
  nonce : ℕ → Reply

-- What each operation does between its `load` and its `store`.
unfoldable pub change : Call → File → Result String (File × Reply)
change (records e) f = ok (record_entry e f, done)
change (advances key prev next ver env) f = do
  (g, e) ← advance_version key prev next ver env f
  ok (g, entry e)
change (grants_access g) f = ok (record_grant g f, done)
change (revokes id now tx) f = do (g, out) ← mark_revoked id now tx f; ok (g, grant out)
change (registers fid tx) f = do g ← set_registered_tx fid tx f; ok (g, done)
change (moves_cursor n) f = ok (set_chain_cursor n f, done)
change (defers fid h) f = ok (defer_bump fid h f, done)
change (clears landed) f = ok (clear_deferred_bumps landed f, done)
change takes_nonce f = let (g, n) = next_grant_nonce f in ok (g, nonce n)

-- `sort_by_key(Reverse(key))`, which is stable.
unfoldable pub place {ℓ} : {A : Type ℓ} → (A → ℕ) → A → List A → List A
place key x [] = x ∷ []
place key x (y ∷ ys) =
    let rest = place key x ys in if leb (key y) (key x) then x ∷ y ∷ ys else y ∷ rest

unfoldable pub newest_first {ℓ} : {A : Type ℓ} → (A → ℕ) → List A → List A
unfolding place
newest_first key [] = []
newest_first key (x ∷ xs) = place key x (newest_first key xs)

-- `unwrap_or_default` of what was read.
abbrev pub or_default : {A : Type 0} → A → Result String A → A
or_default d (ok a) = a
or_default d (err e) = d

abbrev or_none : {A : Type 0} → Result String (Option A) → Option A
or_none = or_default none

module _ {Doc : Type 0} (json : Json Doc) where
  unfoldable pub call : Call → Io → Option Doc → Option Doc × Result String Reply
  unfolding load store
  call c io disk = elim (load json io disk >>= change c) [
    | err e ↦ (disk, err e)
    | ok out ↦ let (disk', stored) = store json io out.0 disk in (disk', stored >>= λ _. ok out.1)
  ]

  -- The operations that only read.
  unfoldable pub find : Bytes → Io → Option Doc → Option Entry
  unfolding load
  find key io disk = or_none (load json io disk >>= λ f. ok (get f.files key))

  unfoldable pub entries : Io → Option Doc → List Entry
  unfolding load newest_first
  entries io disk =
      newest_first (λ e. e.sealed_at)
        (or_default [] (load json io disk >>= λ f. ok (values f.files)))

  unfoldable pub grants : Bool → ℕ → Io → Option Doc → List Grant
  unfolding load newest_first is_active
  grants active_only now io disk =
      let all = or_default [] (load json io disk >>= λ f. ok (values f.grants)) in
      newest_first (λ g. g.granted_at)
        (if active_only then keep (λ g. is_active g now) all else all)

  unfoldable pub find_grant : Bytes → Io → Option Doc → Option Grant
  unfolding load
  find_grant id io disk = or_none (load json io disk >>= λ f. ok (get f.grants id))

  unfoldable pub chain_cursor : Io → Option Doc → Option ℕ
  unfolding load
  chain_cursor io disk = or_none (load json io disk >>= λ f. ok f.chain_cursor)

  unfoldable pub deferred_bumps : Io → Option Doc → List (Bytes × Bytes)
  unfolding load
  deferred_bumps io disk = or_default [] (load json io disk >>= λ f. ok f.deferred_bumps)

  -- The calls one after another, with what the file system answers to each, and their results.
  unfoldable pub run : List (Call × Io) → Option Doc → Option Doc × List (Result String Reply)
  unfolding call
  run [] disk = (disk, [])
  run ((c, io) ∷ cs) disk =
      let (disk', reply) = call c io disk in
      let (last, replies) = run cs disk' in (last, reply ∷ replies)

  -- The file that a document on disk stands for; a missing one stands for the default.
  unfoldable pub held : Option Doc → Option File
  held none = some default_file
  held (some doc) = json.from_slice doc
