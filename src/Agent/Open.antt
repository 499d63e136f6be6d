-- ===== src/Agent/Open.antt =====
-- apps/agent/src-tauri/src/open.rs, the open step: from a held grant to a plaintext file in the
-- workspace (crates/zbacs-session/src/workspace.rs), and back. What the file system answers is an
-- argument.
pub mod Materialising
pub mod Contents
pub mod Endings
pub mod Saving
pub mod Announcing
mod Tests
use z_bacs.Prelude.{
  ℕ, Bool, true, false, not, ◌&&◌, ◌||◌, ◌==◌, if◌then◌else◌, Option, none, some, List, [], ◌∷◌,
  any, length, take, String, Result, ok, err, ok_or, map_err, refuse_if, ◌>>=◌, ◌>>◌,
}
use z_bacs.Prelude.Bytes.{Bytes, bytes_beq}
use z_bacs.Session.{State, Effect, wipe_workspace, mark_read_only}
use z_bacs.Proto.Grant.{AccessGrantTerms, struct_hash}
use z_bacs.Core.External.{Suite}
use z_bacs.Core.Header as Headers
use z_bacs.Core.Header.{Header, unwrap}
use z_bacs.Core.Container.{read_header}
use z_bacs.Agent.Forms.{Forms}
use z_bacs.Agent.Request.Asking.{Held}

-- What is in the workspace: nothing of the file; what was written before an error; the plaintext
-- under its first name; or under its own, and whether it is read-only.
pub data Workspace : Type 0 where
  bare partial : Workspace
  written : Bytes → Workspace
  holds : Bytes → Bytes → Bool → Workspace

pub record Desk : Type 0 where
  pub held : Held
  pub workspace : Workspace

-- What the file system answers: the sealed file, if it opens, and which of the calls succeed.
pub record Disk : Type 0 where
  pub sealed : Option Bytes
  pub creates : Bool
  pub creates_file : Bool
  pub renames : Bool
  pub marks : Bool
  pub wipes : Bool

-- Of what `materialise` returns, the workspace and the path in it stand in `Desk`.
pub record Materialised : Type 0 where
  pub name : Bytes
  pub effects : List Effect

-- The test of `Workspace::file`: not empty, no slash or backslash, not two dots first.
unfoldable pub well_named : Bytes → Bool
well_named n =
    not (length n == 0)
    && not (any (λ b. b == 47 || b == 92) n)
    && not (bytes_beq (take 2 n) (46 ∷ 46 ∷ []))

abbrev pub is_granted : State → Bool
is_granted State.granted = true
is_granted _ = false

abbrev pub is_mark : Effect → Bool
is_mark mark_read_only = true
is_mark _ = false

-- The data key of a held grant, in `save`.
unfoldable pub held_key :
    Suite → Forms → Bytes → AccessGrantTerms → Option Bytes → Result String Bytes
unfolding unwrap struct_hash
held_key c k secret terms envelope = do
  bytes ← ok_or envelope "not_granted"
  e ← ok_or (k.envelope.from_reader bytes) "envelope"
  map_err (λ e. "envelope") (unwrap c e secret (struct_hash c.primitives terms))

module _ (c : Suite) (f : Headers.Forms) (k : Forms) where
  -- `materialise`, up to the question to the session: the data key, and the header, its hash and the
  -- rest of the sealed file.
  unfoldable pub prepare : Disk → Bytes → Held → Result String (Bytes × Header × Bytes × Bytes)
  unfolding unwrap read_header struct_hash
  prepare disk secret held = do
    terms ← ok_or held.terms "not_granted"
    envelope_bytes ← ok_or held.envelope "not_granted"
    refuse_if (not (is_granted held.session.state)) "not_granted"
    envelope ← ok_or (k.envelope.from_reader envelope_bytes) "envelope"
    dek ← map_err (λ e. "envelope") (unwrap c envelope secret (struct_hash c.primitives terms))
    sealed ← ok_or disk.sealed "missing"
    (header, header_hash, rest) ← map_err (λ e. "damaged") (read_header c f sealed)
    refuse_if (not (bytes_beq header_hash terms.header_hash)) "version"
    ok (dek, header, header_hash, rest)
