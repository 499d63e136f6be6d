-- ===== src/Agent/Approve.antt =====
-- apps/agent/src-tauri/src/approve.rs, the owner's side: which queued messages count as requests
-- and version notices, what the screen shows of them, and the terms of an approval.
pub mod Rewrapping
pub mod Answering
pub mod Sending
pub mod Confirming
use z_bacs.Prelude.{
  ◌%◌, ◌^◌, ℕ, ◌+◌, ◌-◌, max, Bool, true, false, not, ◌&&◌, ◌||◌, ◌≡◌, Option, none, some, List,
  String, Result, ok, err, ◌>>=◌, ◌>>◌, refuse_if, ok_or, map_err, ltb, ◌==◌, if◌then◌else◌,
}
use z_bacs.Prelude.Bytes.{Bytes, bytes_beq, codes}
use z_bacs.Session.{Permission}
use z_bacs.Proto.External.{Primitives}
use z_bacs.Proto.Messages.{
  Kind, req, version, Envelope, AccessRequest, VersionMsg, access_request, version_msg,
}
use z_bacs.Proto.Signed.{kid_of, same_kind, verify_queued, from_bytes, max_skew_secs}
use z_bacs.Proto.Grant.{AccessGrantTerms, device_key_hash}
use z_bacs.Auth.{ConfirmationPolicy}
use z_bacs.Agent.Forms.{Forms}
use z_bacs.Agent.Ledger.{Entry, Io, Json}
use z_bacs.Agent.Ledger.Calls.{advances, call, find_grant, Reply}

abbrev pub max_request_age_secs : ℕ
max_request_age_secs = 86_400

abbrev pub not_before_slack_secs : ℕ
not_before_slack_secs = 120

pub record PendingRequest : Type 0 where
  pub request : AccessRequest
  pub entry : Option Entry

pub data DecisionArg : Type 0 where
  deny read_only edit : DecisionArg

unfoldable pub permission_of : DecisionArg → Permission
permission_of DecisionArg.deny = Permission.deny
permission_of DecisionArg.read_only = Permission.read_only
permission_of DecisionArg.edit = Permission.edit

unfoldable pub word : DecisionArg → Bytes
word DecisionArg.deny = codes "deny"
word DecisionArg.read_only = codes "read_only"
word DecisionArg.edit = codes "edit"

-- `permission as u8`.
unfoldable pub permission_u8 : Permission → ℕ
permission_u8 Permission.deny = 0
permission_u8 Permission.read_only = 1
permission_u8 Permission.edit = 2

pub record Incoming : Type 0 where
  pub id : Bytes
  pub file_name : Option Bytes
  pub known : Bool
  pub same_version : Bool
  pub requested : Bytes
  pub default_permission : Option Bytes
  pub asked_at : ℕ
  pub can_allow : Bool
  pub can_allow_edit : Bool

-- `Option::is_some_and`.
abbrev pub is_some_and {ℓ} : {A : Type ℓ} → Option A → (A → Bool) → Bool
is_some_and none p = false
is_some_and (some a) p = p a

-- `Option::map`.
abbrev pub map_option {ℓ κ} : {A : Type ℓ} {B : Type κ} → (A → B) → Option A → Option B
map_option f none = none
map_option f (some a) = some (f a)

module _ (k : Forms) where
  unfoldable pub incoming : PendingRequest → Incoming
  incoming p =
      let r = p.request in
      let same_version = is_some_and p.entry (λ e. bytes_beq e.header_hash (k.hex r.header_hash)) in
      let known = is_some_and p.entry (λ e. true) in
      record {
        id = k.hex r.nonce;
        file_name = map_option (λ e. e.name) p.entry;
        known = known;
        same_version = same_version;
        requested = if r.requested == 2 then codes "edit" else codes "read_only";
        default_permission = map_option (λ e. e.permission) p.entry;
        asked_at = r.ts;
        can_allow = known && same_version;
        can_allow_edit = true;
      }

  unfoldable pub incoming_on : PendingRequest → Bool → Incoming
  unfolding incoming
  incoming_on p edit_supported =
      let i = incoming p in record i { can_allow_edit = i.can_allow && edit_supported }

-- `edit_supported`, for a signer that can or cannot show the prompt.
unfoldable pub edit_supported : Bool → ConfirmationPolicy → Bool
edit_supported supports_os_confirmation p =
    not p.edit_requires_confirmation || supports_os_confirmation

-- A date that is neither ahead of the clock nor too old.
abbrev pub untimely : ℕ → ℕ → Bool
untimely ts now = ltb (now + max_skew_secs) ts || ltb max_request_age_secs (now - ts)

module _ (c : Primitives) (k : Forms) where
  -- `accept_request`; the errors, which the source drops, name the guard.
  unfoldable pub accept_request : Envelope → Bytes → ℕ → Result String AccessRequest
  accept_request envelope owner now = do
    refuse_if (not (same_kind envelope.kind req)) "kind"
    signed ← map_err (λ e. "envelope") (from_bytes k.signed envelope.body)
    claimed ← ok_or (k.request.from_reader signed.payload) "payload"
    refuse_if
        (not (bytes_beq (kid_of c claimed.ed25519_pub) claimed.device_kid)
          || not (bytes_beq claimed.device_kid signed.kid))
        "key"
    (request, ts) ←
        map_err (λ e. "signature")
          (verify_queued c (access_request k.request) signed claimed.ed25519_pub)
    refuse_if (not (bytes_beq request.owner owner)) "owner"
    refuse_if (untimely ts now) "time"
    refuse_if (not (request.requested == 1 || request.requested == 2)) "requested"
    ok request

  unfoldable pub accept_version : Envelope → Bytes → ℕ → Result String VersionMsg
  accept_version envelope owner now = do
    refuse_if (not (same_kind envelope.kind version)) "kind"
    signed ← map_err (λ e. "envelope") (from_bytes k.signed envelope.body)
    claimed ← ok_or (k.version.from_reader signed.payload) "payload"
    refuse_if (not (bytes_beq (kid_of c claimed.ed25519_pub) signed.kid)) "key"
    (notice, ts) ←
        map_err (λ e. "signature")
          (verify_queued c (version_msg k.version) signed claimed.ed25519_pub)
    refuse_if (not (bytes_beq notice.owner owner) || untimely ts now) "owner"
    ok notice

module _ (c : Primitives) where
  unfoldable pub terms_for : AccessRequest → Entry → Permission → ℕ → ℕ → AccessGrantTerms
  unfolding permission_u8
  terms_for request entry permission grant_nonce now = record {
    file_id = request.fid;
    header_hash = request.header_hash;
    device_key_hash = device_key_hash c request.x25519_pub request.ed25519_pub;
    permission = permission_u8 permission;
    not_before = now - not_before_slack_secs;
    expiry = (now + max entry.ttl 60) % 2 ^ 64;
    max_opens = entry.max_opens;
    request_nonce = request.nonce;
    grant_nonce = grant_nonce;
  }

module _ {Doc : Type 0} (json : Json Doc) (k : Forms) where
  -- `apply_version`: `looking` and `storing` are the file system's answers to its two uses of the
  -- ledger.
  unfoldable pub apply_version :
      VersionMsg → Io → Io → Option Doc → Option Doc × Result String Reply
  unfolding find_grant call
  apply_version n looking storing disk = elim (find_grant json (k.hex n.grant_id) looking disk) [
    | none ↦ (disk, err "unknown_grant")
    | some grant ↦
        let (disk', moved) =
          call json
            (advances (k.hex n.fid) (k.hex n.prev_header_hash) (k.hex n.header_hash) n.ver
              n.owner_envelope)
            storing disk in
        if not (bytes_beq grant.fid (k.hex n.fid))
        then (disk, err "unknown_grant")
        else (disk', map_err (λ e. "version") moved)
  ]
