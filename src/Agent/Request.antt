-- ===== src/Agent/Request.antt =====
-- apps/agent/src-tauri/src/request.rs, the asking side: what a request says, and what a message in
-- the device's inbox means for it.
pub mod Asking
pub mod Waiting
pub mod Binding
pub mod Outcomes
pub mod Guarding
use z_bacs.Prelude.{
  ℕ, Bool, true, false, not, Option, none, some, String, Result, ok, err, ◌>>=◌, ◌>>◌, refuse_if,
  map_err, ◌==◌, if◌then◌else◌,
}
use z_bacs.Prelude.Bytes.{Bytes, bytes_beq}
use z_bacs.Session.{Permission, is_deny}
use z_bacs.Proto.External.{Primitives}
use z_bacs.Proto.Messages.{Kind, grant, revoke, Envelope, AccessRequest, GrantMsg}
use z_bacs.Proto.Signed.{DeviceIdentity, kid, ed25519_pub, same_kind, Signed, from_bytes}
use z_bacs.Proto.Grant.{AccessGrantTerms, from_cbor}
use z_bacs.Core.Header.{Header}
use z_bacs.Agent.Forms.{Forms}
use z_bacs.Agent.Approve.{permission_u8}

pub record Target : Type 0 where
  pub fid : Bytes
  pub header_hash : Bytes
  pub owner : Bytes

-- Why a file is not read: `File::open` did not find it, or another failure.
pub data OpenFailure : Type 0 where
  not_found other : OpenFailure

abbrev pub open_problem : OpenFailure → String
open_problem not_found = "missing"
open_problem other = "unreadable"

-- `target_of`, of what opening the file and `zbacs_core::inspect` of it give.
unfoldable pub target_of :
    Result OpenFailure Bytes → (Bytes → Result String (Header × Bytes)) → Result String Target
target_of opened inspect = do
  file ← map_err open_problem opened
  (header, header_hash) ← map_err (λ e. "unreadable") (inspect file)
  refuse_if (is_deny header.body.pol.default) "owner_denies"
  ok (record { fid = header.body.fid; header_hash = header_hash; owner = header.body.own })

unfoldable pub build_request :
    Primitives → Target → DeviceIdentity → Permission → Bytes → ℕ → AccessRequest
unfolding kid ed25519_pub permission_u8
build_request c target device requested nonce now = record {
  fid = target.fid;
  header_hash = target.header_hash;
  owner = target.owner;
  device_kid = kid c device;
  x25519_pub = device.x25519_pub;
  ed25519_pub = ed25519_pub c device;
  requested = permission_u8 requested;
  nonce = nonce;
  hint = none;
  ts = now;
}

pub data Answer : Type 0 where
  not_ours denied : Answer
  granted : Permission → AccessGrantTerms → Option Bytes → Option Bytes → Answer
  mismatch : String → Answer

-- The checks of the terms, one after another.
unfoldable pub check_terms :
    Permission → AccessGrantTerms → Bytes → Target → Bytes → GrantMsg → Answer
unfolding permission_u8
check_terms permission terms nonce target our_key_hash g =
    if not (bytes_beq terms.file_id target.fid)
    then mismatch "file"
    else if not (bytes_beq terms.header_hash target.header_hash)
    then mismatch "version"
    else if not (bytes_beq terms.device_key_hash our_key_hash)
    then mismatch "device"
    else if not (bytes_beq terms.request_nonce nonce)
    then mismatch "nonce"
    else if not (terms.permission == permission_u8 permission)
    then mismatch "permission"
    else granted permission terms g.envelope g.tx_hash

module _ (k : Forms) where
  -- An allowing message: its terms, if they are there and read.
  unfoldable pub classify_terms : Permission → GrantMsg → Bytes → Target → Bytes → Answer
  unfolding check_terms from_cbor
  classify_terms permission g nonce target our_key_hash = elim g.grant [
    | none ↦ mismatch "no_terms"
    | some bytes ↦ elim (from_cbor k.terms bytes) [
      | err e ↦ mismatch "terms"
      | ok terms ↦ check_terms permission terms nonce target our_key_hash g
    ]
  ]

  -- The part of `classify` behind the envelope.
  unfoldable pub classify_grant : GrantMsg → Bytes → Target → Bytes → Answer
  unfolding classify_terms
  classify_grant g nonce target our_key_hash =
      if not (bytes_beq g.request_nonce nonce)
      then not_ours
      else if g.decision == 0
      then denied
      else if g.decision == 1
      then classify_terms Permission.read_only g nonce target our_key_hash
      else if g.decision == 2
      then classify_terms Permission.edit g nonce target our_key_hash
      else mismatch "decision"

  -- The message in an inbox envelope, if it is of this kind and reads.
  unfoldable pub payload_of : Kind → Envelope → Option Signed
  unfolding same_kind from_bytes
  payload_of kind e =
      if not (same_kind e.kind kind) then none else elim (from_bytes k.signed e.body) [
        | err why ↦ none
        | ok signed ↦ if not (same_kind signed.kind kind) then none else some signed
      ]

  unfoldable pub classify : Envelope → Bytes → Target → Bytes → Answer
  unfolding payload_of classify_grant
  classify envelope nonce target our_key_hash = elim (payload_of grant envelope) [
    | none ↦ not_ours
    | some signed ↦ elim (k.grant.from_reader signed.payload) [
      | none ↦ not_ours
      | some g ↦ classify_grant g nonce target our_key_hash
    ]
  ]

  unfoldable pub is_revoke_for : Envelope → Bytes → Bool
  unfolding payload_of
  is_revoke_for envelope grant_id = elim (payload_of revoke envelope) [
    | none ↦ false
    | some signed ↦ elim (k.revoke.from_reader signed.payload) [
      | none ↦ false
      | some r ↦ bytes_beq r.grant_id grant_id
    ]
  ]
