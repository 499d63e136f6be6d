-- ===== src/Proto/Messages.antt =====
-- crates/zbacs-proto/src/messages.rs and error.rs. Arrays of bytes and byte vectors are `Bytes`.
use z_bacs.Prelude.{ℕ, Bool, Option, List, String}
use z_bacs.Prelude.Bytes.{Bytes, codes}
use z_bacs.Proto.External.{Cbor}

pub data Kind : Type 0 where
  announce req grant revoke sub ack version : Kind

unfoldable pub as_str : Kind → Bytes
as_str announce = codes "announce"
as_str req = codes "req"
as_str grant = codes "grant"
as_str revoke = codes "revoke"
as_str sub = codes "sub"
as_str ack = codes "ack"
as_str version = codes "version"

pub data ErrorCode : Type 0 where
  unauthenticated unknown_device stale replayed malformed too_large rate_limited : ErrorCode
  not_found internal : ErrorCode

unfoldable pub http_status : ErrorCode → ℕ
http_status unauthenticated = 401
http_status unknown_device = 401
http_status stale = 400
http_status malformed = 400
http_status replayed = 409
http_status too_large = 413
http_status rate_limited = 429
http_status not_found = 404
http_status internal = 500

-- `zbacs_proto::error::ProtoError`.
pub data ProtoError : Type 0 where
  bad_signature : ProtoError
  stale : ℕ → ℕ → ProtoError
  malformed : String → ProtoError
  too_large : ℕ → ProtoError
  encode : String → ProtoError
  key_length : ProtoError

unfoldable pub code : ProtoError → ErrorCode
code bad_signature = unauthenticated
code (ProtoError.stale ts now) = ErrorCode.stale
code (ProtoError.malformed why) = ErrorCode.malformed
code (encode why) = ErrorCode.malformed
code key_length = ErrorCode.malformed
code (ProtoError.too_large n) = ErrorCode.too_large

-- A payload type with its kind.
pub record Message (A : Type 0) : Type 0 where
  pub kind : Kind
  pub cbor : Cbor A

pub record DeviceAnnounce : Type 0 where
  pub x25519_pub : Bytes
  pub ed25519_pub : Bytes
  pub label : Option Bytes
  pub ts : ℕ

pub record AccessRequest : Type 0 where
  pub fid : Bytes
  pub header_hash : Bytes
  pub owner : Bytes
  pub device_kid : Bytes
  pub x25519_pub : Bytes
  pub ed25519_pub : Bytes
  pub requested : ℕ
  pub nonce : Bytes
  pub hint : Option Bytes
  pub ts : ℕ

pub record GrantMsg : Type 0 where
  pub request_nonce : Bytes
  pub grant : Option Bytes
  pub owner_sig : Option Bytes
  pub envelope : Option Bytes
  pub tx_hash : Option Bytes
  pub decision : ℕ
  pub ts : ℕ

pub record Revoke : Type 0 where
  pub grant_id : Bytes
  pub fid : Bytes
  pub ts : ℕ

pub record VersionMsg : Type 0 where
  pub fid : Bytes
  pub owner : Bytes
  pub prev_header_hash : Bytes
  pub header_hash : Bytes
  pub ver : ℕ
  pub grant_id : Bytes
  pub owner_envelope : Bytes
  pub ed25519_pub : Bytes
  pub ts : ℕ

pub record Subscribe : Type 0 where
  pub since : Option Bytes
  pub kinds : List Kind
  pub ts : ℕ

pub record Ack : Type 0 where
  pub ok : Bool
  pub id : Option Bytes
  pub error : Option ErrorCode

pub record Envelope : Type 0 where
  pub id : Bytes
  pub kind : Kind
  pub body : Bytes
  pub queued_at : ℕ

-- `T::KIND` of each payload type, given the type's CBOR form.
unfoldable pub device_announce : Cbor DeviceAnnounce → Message DeviceAnnounce
device_announce c = record { kind = announce; cbor = c }

unfoldable pub access_request : Cbor AccessRequest → Message AccessRequest
access_request c = record { kind = req; cbor = c }

unfoldable pub grant_msg : Cbor GrantMsg → Message GrantMsg
grant_msg c = record { kind = Kind.grant; cbor = c }

unfoldable pub revoke_msg : Cbor Revoke → Message Revoke
revoke_msg c = record { kind = revoke; cbor = c }

unfoldable pub version_msg : Cbor VersionMsg → Message VersionMsg
version_msg c = record { kind = version; cbor = c }
