-- ===== src/Agent/Approve/Rewrapping.antt =====
-- `envelope_for` of apps/agent/src-tauri/src/approve.rs: the file's key, wrapped for the asking
-- device. The file system's part, `zbacs_core::inspect` of the file at a path, is an argument.
use z_bacs.Prelude.{not, none, some, String, Result, ◌>>=◌, ◌>>◌, refuse_if, ok_or, map_err}
use z_bacs.Prelude.Bytes.{Bytes, bytes_beq}
use z_bacs.Proto.Messages.{AccessRequest}
use z_bacs.Core.External.{Suite}
use z_bacs.Core.Header.{Header, wrap, unwrap, key_id_of}
use z_bacs.Core.Container.{find_envelope}
use z_bacs.Agent.Forms.{Forms}
use z_bacs.Agent.Ledger.{Entry}

abbrev pub Inspect : Type 0
Inspect = Bytes → Result String (Header × Bytes)

module _ (c : Suite) (k : Forms) where
  -- The last steps of both branches: the key, bound to the grant.
  unfoldable pub rewrap : AccessRequest → Bytes → Bytes → Result String Bytes
  unfolding wrap
  rewrap request dek grant_id = do
    wrapped ← map_err (λ e. "failed") (wrap c request.x25519_pub dek grant_id)
    map_err (λ e. "failed") (k.envelope.into_writer wrapped)

  -- The branch of a version that a recipient wrote.
  unfoldable pub from_stored : Entry → Bytes → AccessRequest → Bytes → Bytes → Result String Bytes
  unfolding unwrap rewrap
  from_stored entry stored request secret grant_id = do
    refuse_if (not (bytes_beq entry.header_hash (k.hex request.header_hash))) "version"
    mine ← ok_or (k.envelope.from_reader stored) "not_mine"
    fid ← ok_or (k.unhex32 entry.fid) "not_mine"
    dek ← map_err (λ e. "not_mine") (unwrap c mine secret fid)
    rewrap request dek grant_id

  -- The branch of the file on disk.
  unfoldable pub from_disk : Inspect → Entry → AccessRequest → Bytes → Bytes → Result String Bytes
  unfolding unwrap rewrap key_id_of find_envelope
  from_disk inspect entry request secret grant_id = do
    (header, header_hash) ← map_err (λ e. "file_moved") (inspect entry.path)
    refuse_if (not (bytes_beq header_hash request.header_hash)) "version"
    mine ← ok_or (find_envelope (key_id_of c (c.x25519_public secret)) header.body.env) "not_mine"
    dek ← map_err (λ e. "not_mine") (unwrap c mine secret header.body.fid)
    rewrap request dek grant_id

  unfoldable pub envelope_for :
      Inspect → Entry → AccessRequest → Bytes → Bytes → Result String Bytes
  unfolding from_stored from_disk
  envelope_for inspect entry request secret grant_id = elim entry.owner_envelope [
    | some stored ↦ from_stored entry stored request secret grant_id
    | none ↦ from_disk inspect entry request secret grant_id
  ]
