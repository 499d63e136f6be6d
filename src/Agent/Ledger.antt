-- ===== src/Agent/Ledger.antt =====
-- apps/agent/src-tauri/src/ledger.rs: the record of the files locked here and of the approvals
-- given. The ledger is one JSON document, which an operation reads, changes and replaces under one
-- lock. What the file system answers is an argument; `Doc` is the text of the document, and its
-- JSON form (serde_json) a parameter, as is `hex::encode`.
pub mod Calls
pub mod Runs
pub mod Nonces
pub mod Advances
pub mod Revocations
pub mod Deferred
mod Tests
use z_bacs.Prelude.{
  ℕ, ◌+◌, ◌%◌, ◌^◌, Bool, true, false, not, ◌&&◌, ◌||◌, ◌≡◌, Option, none, some, List, [], ◌∷◌,
  ◌++◌, String, Result, ok, err, ◌>>=◌, ◌>>◌, refuse_if, ok_or, map_err, ltb, ◌==◌, if◌then◌else◌,
  any, keep,
}
use z_bacs.Prelude.Bytes.{Bytes, bytes_beq}
use z_bacs.Agent.Dict.{Dict, get, insert, assign, values}

pub record Entry : Type 0 where
  pub fid : Bytes
  pub header_hash : Bytes
  pub name : Bytes
  pub path : Bytes
  pub permission : Bytes
  pub ttl : ℕ
  pub max_opens : ℕ
  pub sealed_at : ℕ
  pub ver : ℕ
  pub owner_envelope : Option Bytes
  pub registered_tx : Option Bytes

pub record Grant : Type 0 where
  pub grant_id : Bytes
  pub fid : Bytes
  pub file_name : Bytes
  pub permission : Bytes
  pub expiry : ℕ
  pub granted_at : ℕ
  pub revoked_at : Option ℕ
  pub tx_hash : Option Bytes
  pub revoke_tx : Option Bytes

abbrev pub is_none {ℓ} : {A : Type ℓ} → Option A → Bool
is_none none = true
is_none (some a) = false

unfoldable pub is_active : Grant → ℕ → Bool
is_active g now = is_none g.revoked_at && ltb now g.expiry

pub record File : Type 0 where
  pub grant_nonce : ℕ
  pub files : Dict Entry
  pub grants : Dict Grant
  pub chain_cursor : Option ℕ
  pub deferred_bumps : List (Bytes × Bytes)

-- `File::default`.
unfoldable pub default_file : File
default_file = record {
  grant_nonce = 0;
  files = [];
  grants = [];
  chain_cursor = none;
  deferred_bumps = [];
}

-- The changes of each operation to the file that it read.
unfoldable pub record_entry : Entry → File → File
record_entry e f = record f { files = insert e.fid e f.files }

unfoldable pub advanced : Entry → Bytes → ℕ → Bytes → Entry
advanced e next ver env = record e { header_hash = next; ver = ver; owner_envelope = some env }

unfoldable pub advance_version :
    Bytes → Bytes → Bytes → ℕ → Bytes → File → Result String (File × Entry)
advance_version key prev next ver env f = do
  entry ← ok_or (get f.files key) "unknown file"
  refuse_if (not (bytes_beq entry.header_hash prev) || not (ver == (entry.ver + 1) % 2 ^ 32))
      "not the next version"
  let out = advanced entry next ver env
  ok (record f { files = assign key out f.files }, out)

unfoldable pub record_grant : Grant → File → File
record_grant g f = record f { grants = insert g.grant_id g f.grants }

unfoldable pub revoked_grant : Grant → ℕ → Option Bytes → Grant
revoked_grant g now tx = record g {
  revoked_at = elim g.revoked_at [ none ↦ some now | some t ↦ some t ];
  revoke_tx = elim tx [ none ↦ g.revoke_tx | some t ↦ some t ];
}

unfoldable pub mark_revoked : Bytes → ℕ → Option Bytes → File → Result String (File × Grant)
mark_revoked id now tx f = do
  grant ← ok_or (get f.grants id) "unknown grant"
  let out = revoked_grant grant now tx
  ok (record f { grants = assign id out f.grants }, out)

unfoldable pub set_registered_tx : Bytes → Bytes → File → Result String File
set_registered_tx fid tx f = do
  entry ← ok_or (get f.files fid) "unknown file"
  ok (record f { files = assign fid (record entry { registered_tx = some tx }) f.files })

unfoldable pub set_chain_cursor : ℕ → File → File
set_chain_cursor next_block f = record f { chain_cursor = some next_block }

unfoldable pub defer_bump : Bytes → Bytes → File → File
defer_bump fid header_hash f = record f {
  deferred_bumps =
      keep (λ b. not (bytes_beq b.0 fid)) f.deferred_bumps ++ ((fid, header_hash) ∷ []);
}

-- `==` on the pairs.
abbrev pub same_bump : Bytes × Bytes → Bytes × Bytes → Bool
same_bump a b = bytes_beq a.0 b.0 && bytes_beq a.1 b.1

unfoldable pub clear_deferred_bumps : List (Bytes × Bytes) → File → File
clear_deferred_bumps landed f = record f {
  deferred_bumps = keep (λ b. not (any (λ l. same_bump l b) landed)) f.deferred_bumps;
}

-- The nonce is a u64 and wraps in a release build.
unfoldable pub next_grant_nonce : File → File × ℕ
next_grant_nonce f = (record f { grant_nonce = (f.grant_nonce + 1) % 2 ^ 64 }, f.grant_nonce)

-- What the file system answers to one operation: whether each of its calls succeeds. A missing
-- document is not a failure of `read`.
pub record Io : Type 0 where
  pub read : Bool
  pub create_dir : Bool
  pub write : Bool
  pub rename : Bool

pub record Json (Doc : Type 0) : Type 0 where
  pub to_vec_pretty : File → Result String Doc
  pub from_slice : Doc → Option File

-- What was written is read back.
pub record ReadsBack {Doc : Type 0} (json : Json Doc) : Type 0 where
  pub read-written : (f : File) (d : Doc) → json.to_vec_pretty f ≡ ok d → json.from_slice d ≡ some f

module _ {Doc : Type 0} (json : Json Doc) where
  unfoldable pub load : Io → Option Doc → Result String File
  load io disk = do
    refuse_if (not io.read) "cannot read the ledger"
    elim disk [
      | none ↦ ok default_file
      | some doc ↦ ok_or (json.from_slice doc) "ledger is not readable"
    ]

  -- The document that takes the old one's place, if every call up to `rename` succeeds.
  unfoldable pub replacement : Io → File → Result String Doc
  replacement io f = do
    refuse_if (not io.create_dir) "cannot create the config dir"
    doc ← json.to_vec_pretty f
    refuse_if (not io.write) "cannot write the ledger"
    refuse_if (not io.rename) "cannot replace the ledger"
    ok doc

  unfoldable pub store : Io → File → Option Doc → Option Doc × Result String (Unit {0})
  store io f disk = elim (replacement io f) [ ok doc ↦ (some doc, ok tt) | err e ↦ (disk, err e) ]
