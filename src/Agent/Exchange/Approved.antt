-- ===== src/Agent/Exchange/Approved.antt =====
-- What the messages say that `answer` of apps/agent/src-tauri/src/approve.rs sends.
use z_bacs.Prelude.{ℕ, ◌+◌, ◌^◌, ◌≤◌, ◌≡◌, ◌⊎◌, true, false, Option, none, some, ok, max}
use z_bacs.Prelude.Bytes.{Bytes}
use z_bacs.Proto.Messages.{GrantMsg}
use z_bacs.Proto.Grant.{AccessGrantTerms, struct_hash, to_cbor, digest, device_key_hash}
use z_bacs.Core.External.{Suite}
use z_bacs.Core.Header.{Envelope, dek_info}
use z_bacs.Auth.{Confirmation}
use z_bacs.Agent.Forms.{Forms}
use z_bacs.Agent.Ledger.{Entry}
use z_bacs.Agent.Approve.{PendingRequest, DecisionArg}
use z_bacs.Agent.Approve.Answering.{Answering, context_of, smart}
use z_bacs.Agent.Exchange.Keys.{Holds}

abbrev level : DecisionArg → ℕ
level DecisionArg.deny = 0
level DecisionArg.read_only = 1
level DecisionArg.edit = 2

-- The signature that comes with the terms: none through the smart account; otherwise what the
-- device's signer gave for these terms, on this chain and for this contract.
pub data Signs (c : Suite) (w : Answering) (p : PendingRequest) (d : DecisionArg)
    (t : AccessGrantTerms) (sig : Option Bytes) : Type 0 where
  by_account : smart w ≡ true → sig ≡ none → Signs c w p d t sig
  by_device :
      (b : Bytes) (asked : Confirmation)
      → smart w ≡ false
      → sig ≡ some b
      → w.assertion
          (record {
            digest = digest c.primitives t w.chain_id w.policy_address;
            context = context_of p.request d;
          })
          asked
        ≡ ok (ok b)
      → Signs c w p d t sig

-- An approval: the terms it carries, field by field, the key that it wraps, and for whom.
pub record Approves (c : Suite) (k : Forms) (w : Answering) (p : PendingRequest) (d : DecisionArg)
    (g : GrantMsg) : Type 0 where
  pub entry : Entry
  pub terms : AccessGrantTerms
  pub bytes : Bytes
  pub dek : Bytes
  pub wrapped : Envelope
  pub envelope : Bytes
  pub known : p.entry ≡ some entry
  pub same_version : entry.header_hash ≡ k.hex p.request.header_hash
  pub terms_written : to_cbor k.terms terms ≡ ok bytes
  pub grant_is : g.grant ≡ some bytes
  pub file : terms.file_id ≡ p.request.fid
  pub version : terms.header_hash ≡ p.request.header_hash
  pub device :
      terms.device_key_hash
      ≡ device_key_hash c.primitives p.request.x25519_pub p.request.ed25519_pub
  pub permission : terms.permission ≡ level d
  pub begun : terms.not_before ≤ w.now
  pub lasts :
      (2 ^ 64 ≤ w.now + max entry.ttl 60)
      ⊎ ((w.now + entry.ttl ≤ terms.expiry) × (w.now + 60 ≤ terms.expiry))
  pub opens : terms.max_opens ≡ entry.max_opens
  pub nonce : terms.request_nonce ≡ p.request.nonce
  pub owned : Holds c k w.inspected entry w.owner_secret dek
  pub bound :
      c.hpke_seal p.request.x25519_pub dek_info (struct_hash c.primitives terms) dek
      ≡ some (wrapped.enc, wrapped.ct)
  pub envelope_written : k.envelope.into_writer wrapped ≡ ok envelope
  pub envelope_is : g.envelope ≡ some envelope
  pub signs : Signs c w p d terms g.owner_sig
  pub to_request : g.request_nonce ≡ p.request.nonce
  pub decision : g.decision ≡ level d

-- A refusal: the request's nonce, and nothing to open the file with.
pub record Refuses (p : PendingRequest) (g : GrantMsg) : Type 0 where
  pub no_terms : g.grant ≡ none
  pub no_signature : g.owner_sig ≡ none
  pub no_key : g.envelope ≡ none
  pub no_transaction : g.tx_hash ≡ none
  pub to_request : g.request_nonce ≡ p.request.nonce
  pub decision : g.decision ≡ 0

unfoldable pub Says : Suite → Forms → Answering → PendingRequest → DecisionArg → GrantMsg → Type 0
Says c k w p DecisionArg.deny g = Refuses p g
Says c k w p d g = Approves c k w p d g
