-- ===== src/Agent/Forms.antt =====
-- What the agent takes from other crates: the encodings by serde and ciborium, and hexadecimal text
-- (hex), of which `decode_to_slice` succeeds for 32 bytes only.
use z_bacs.Prelude.{◌≡◌, Option, some, length}
use z_bacs.Prelude.Bytes.{Bytes}
use z_bacs.Proto.External.{Cbor}
use z_bacs.Proto.Messages.{AccessRequest, GrantMsg, Revoke, VersionMsg}
use z_bacs.Proto.Signed.{Signed}
use z_bacs.Proto.Grant.{AccessGrantTerms}
use z_bacs.Core.Header.{Envelope}

pub record Forms : Type 0 where
  pub signed : Cbor Signed
  pub request : Cbor AccessRequest
  pub grant : Cbor GrantMsg
  pub revoke : Cbor Revoke
  pub version : Cbor VersionMsg
  pub terms : Cbor AccessGrantTerms
  pub envelope : Cbor Envelope
  pub hex : Bytes → Bytes
  pub unhex32 : Bytes → Option Bytes

pub record Hex (k : Forms) : Type 0 where
  pub unhex32-hex : (b : Bytes) → length b ≡ 32 → k.unhex32 (k.hex b) ≡ some b
