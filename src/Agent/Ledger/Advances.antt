-- ===== src/Agent/Ledger/Advances.antt =====
-- `advance_version` of apps/agent/src-tauri/src/ledger.rs (T19) over runs of calls: the record of a
-- file is not rolled back.
use z_bacs.Prelude.{
  ℕ, ◌+◌, ◌<◌, ◌%◌, ◌^◌, ◌≡◌, ◌≢◌, ◌⊎◌, inl, inr, refl, Option, some, List, ok, All, arith, >>=-ok,
  ok_or-ok, ok_or, All-map, ◌↔◌, Bool-cases,
}
use z_bacs.Prelude.Bytes.{Bytes, bytes_beq, bytes_beq_iff}
use z_bacs.Agent.Dict.{get, assign, get-insert, get-assign}
use z_bacs.Agent.Ledger.{
  File, Entry, Io, Json, ReadsBack, record_entry, advanced, advance_version, record_grant,
  mark_revoked, set_registered_tx, set_chain_cursor, defer_bump, clear_deferred_bumps,
  next_grant_nonce,
}
use z_bacs.Agent.Ledger.Calls.{
  Call, Reply, records, advances, revokes, registers, change, run, held,
}
use z_bacs.Agent.Ledger.Runs.{run-preserves}

accepted :
    (key prev next env : Bytes) (ver : ℕ) (f g : File) (out : Entry)
    → advance_version key prev next ver env f ≡ ok (g, out)
    → (e : Entry) × (get f.files key ≡ some e)
      × (e.header_hash ≡ prev)
      × (ver ≡ (e.ver + 1) % 2 ^ 32)
      × (out ≡ advanced e next ver env)
      × (g ≡ record f { files = assign key out f.files })
unfolding advance_version
accepted key prev next env ver f g out h =
    let (e, found, rest) = >>=-ok (ok_or (get f.files key) "unknown file") _ h in
    let hash : e.header_hash ≡ prev = ground (arith, bytes_beq_iff e.header_hash prev) in
    let number : ver ≡ (e.ver + 1) % 2 ^ 32 = ground arith in
    let same : out ≡ advanced e next ver env = ground arith in
    let file : g ≡ record f { files = assign key out f.files } = ground arith in
    (e, ok_or-ok (get f.files key) "unknown file" found, hash, number, same, file)

-- A notice moves the record exactly when it names a known file and continues from the version that
-- the record has; then the record has the notice's hash, number and envelope, and every other
-- record and field is as before.
pub advance_version-ok_iff :
    (key prev next env : Bytes) (ver : ℕ) (f g : File) (out : Entry)
    → (advance_version key prev next ver env f ≡ ok (g, out)) ↔ (
        (e : Entry) × (get f.files key ≡ some e)
        × (e.header_hash ≡ prev)
        × (ver ≡ (e.ver + 1) % 2 ^ 32)
        × (out ≡ advanced e next ver env)
        × (g ≡ record f { files = assign key out f.files }))
unfolding advance_version
advance_version-ok_iff key prev next env ver f g out = (
  accepted key prev next env ver f g out,
  λ (e, found, hash, number, same, file).
      rw (found, hash, number, same, file) (ground (arith, bytes_beq_iff prev prev)),
)

-- What a later record keeps of an earlier one.
pub record Descends (e e' : Entry) : Type 0 where
  pub name : e'.name ≡ e.name
  pub path : e'.path ≡ e.path
  pub permission : e'.permission ≡ e.permission
  pub ttl : e'.ttl ≡ e.ttl
  pub version : ((e'.ver ≡ e.ver) × (e'.header_hash ≡ e.header_hash)) ⊎ (e.ver < e'.ver)

-- The calls that move a record on: no new lock of the file, and no notice with the number 0, which
-- only follows 2^32 - 1.
unfoldable pub Continues : Bytes → Call → Type 0
Continues key (records e) = e.fid ≢ key
Continues key (advances other prev next ver env) = 0 < ver
Continues key _ = Unit

-- The record of a file, later than `e`.
abbrev Later : Bytes → Entry → File → Type 0
Later key e f = (e' : Entry) × (get f.files key ≡ some e') × Descends e e' × (e'.ver < 2 ^ 32)

module _ (key : Bytes) (e : Entry) where
  assign-Later :
      (other : Bytes) (old next : Entry) (f : File)
      → get f.files other ≡ some old
      → Later key e f
      → (Descends e old → old.ver < 2 ^ 32 → Descends e next × (next.ver < 2 ^ 32))
      → Later key e (record f { files = assign other next f.files })
  assign-Later other old next f found (e', here, d, small) moved =
      let look = get-assign other key next old f.files found in
      elim (Bool-cases (bytes_beq other key)) [
        | inl same ↦
            let at : other ≡ key = (bytes_beq_iff other key).0 same in
            let is_old : old ≡ e' = ground arith in
            let (d', small') = moved (rw is_old d) (rw is_old small) in
            (next, rw (look, same) refl, d', small')
        | inr differ ↦ (e', rw (look, differ) here, d, small)
      ]

  moved :
      (old : Entry) (next : Bytes) (ver : ℕ) (env : Bytes)
      → Descends e old
      → old.ver < 2 ^ 32
      → old.ver < ver
      → ver < 2 ^ 32
      → Descends e (advanced old next ver env) × ((advanced old next ver env).ver < 2 ^ 32)
  unfolding advanced
  moved old next ver env d b above small = (
    record {
      name = d.name;
      path = d.path;
      permission = d.permission;
      ttl = d.ttl;
      version = ground (arith, d.version);
    },
    small,
  )

  change-Later :
      (c : Call) (f g : File) (r : Reply)
      → Continues key c
      → change c f ≡ ok (g, r)
      → Later key e f
      → Later key e g
  unfolding change Continues record_entry record_grant mark_revoked set_registered_tx
      set_chain_cursor defer_bump clear_deferred_bumps next_grant_nonce
  change-Later (advances other prev next ver env) f g r positive h l =
      let ((g', out), took, given) = >>=-ok (advance_version other prev next ver env f) _ h in
      let (old, found, hash, number, same, file) = accepted other prev next env ver f g' out took in
      let above : old.ver < 2 ^ 32 → old.ver < ver = λ b. omega arith in
      let is : g ≡ g' = ground arith in
      rw (is, file, same)
        (assign-Later other old (advanced old next ver env) f found l
          (λ d b. moved old next ver env d b (above b) (omega arith)))
  change-Later (records new) f g r fresh h l =
      let look = get-insert new.fid key new f.files in
      let (e', here, d, small) = l in
      let is : g ≡ record_entry new f = ground arith in
      (e', ground (arith, bytes_beq_iff new.fid key), d, small)
  change-Later (registers fid tx) f g r u h l =
      let (g', set, given) = >>=-ok (set_registered_tx fid tx f) _ h in
      let (old, found, rest) = >>=-ok (ok_or (get f.files fid) "unknown file") _ set in
      let is : g ≡ g' = ground arith in
      let file : g'
          ≡ record f { files = assign fid (record old { registered_tx = some tx }) f.files } =
        ground arith in
      rw (is, file)
        (assign-Later fid old (record old { registered_tx = some tx }) f
          (ok_or-ok (get f.files fid) "unknown file" found) l
          (λ d b. (
            record {
              name = d.name;
              path = d.path;
              permission = d.permission;
              ttl = d.ttl;
              version = d.version;
            },
            b,
          )))
  change-Later (revokes id now tx) f g r u h l =
      let files : g.files ≡ f.files = ground arith in rw files l
  change-Later c f g r u h l = ground arith

module _ {Doc : Type 0} (json : Json Doc) (law : ReadsBack json) where
  -- Over any run of calls in which the file is not locked anew and no notice has the number 0, its
  -- record is not rolled back, whatever the file system answers: it keeps its name, path,
  -- permission and duration, and is of a higher version, or of the same one with the same header
  -- hash.
  pub run-Descends :
      (cs : List (Call × Io)) (disk : Option Doc) (f : File) (key : Bytes) (e : Entry)
      → held json disk ≡ some f
      → get f.files key ≡ some e
      → e.ver < 2 ^ 32
      → All (λ s. Continues key s.0) cs
      → (g : File) × (e' : Entry) × (held json (run json cs disk).0 ≡ some g)
        × (get g.files key ≡ some e')
        × Descends e e'
  run-Descends cs disk f key e h here small ok_calls =
      let itself : Descends e e = record {
        name = refl;
        path = refl;
        permission = refl;
        ttl = refl;
        version = inl (refl, refl);
      } in
      let steps = All-map (λ s u a b r. change-Later key e s.0 a b r u) cs ok_calls in
      let (g, end, later) =
        run-preserves json law (Later key e) cs disk f steps h (e, here, itself, small) in
      let (e', there, d, bound) = later in (g, e', end, there, d)
