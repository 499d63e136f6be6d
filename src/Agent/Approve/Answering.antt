-- ===== src/Agent/Approve/Answering.antt =====
-- `answer` of apps/agent/src-tauri/src/approve.rs: the owner's decision becomes a
-- message. What the others answer (the clock, the signer, the chain, the relay, the file system) is
-- an argument; the state is the ledger's document and the messages that the relay took.
use z_bacs.Prelude.{
  ℕ, Bool, true, false, not, ◌&&◌, ◌||◌, Option, none, some, List, [], ◌∷◌, ◌++◌, String, Result,
  ok, err, ok_or, map_err, if◌then◌else◌, ◌==◌,
}
use z_bacs.Prelude.Steps.{Steps, done, lift, fail_if, set, ◌>>=◌, ◌>>◌}
use z_bacs.Prelude.Bytes.{Bytes, bytes_beq, codes}
use z_bacs.Proto.Messages.{GrantMsg, AccessRequest}
use z_bacs.Proto.Grant.{AccessGrantTerms, struct_hash, digest, to_cbor}
use z_bacs.Core.External.{Suite}
use z_bacs.Auth.{Confirmation, ApprovalContext, ConfirmationPolicy, required, is_os}
use z_bacs.Agent.Forms.{Forms}
use z_bacs.Agent.Ledger.{Entry, Grant, Io, Json}
use z_bacs.Agent.Ledger.Calls.{nonce, takes_nonce, grants_access, call}
use z_bacs.Agent.Link.{ChainError, config, ChainLink, is_smart, ChainCall, Submit, write}
use z_bacs.Agent.Approve.Rewrapping.{Inspect, envelope_for}
use z_bacs.Agent.Approve.{
  PendingRequest, DecisionArg, permission_of, permission_u8, word, terms_for, map_option,
}

-- `AuthError`, of which the source tells two kinds from the others.
pub data AuthError : Type 0 where
  cancelled confirmation_unavailable other : AuthError

abbrev pub signing_problem : AuthError → String
signing_problem cancelled = "cancelled"
signing_problem confirmation_unavailable = "needs_os_confirm"
signing_problem other = "failed"

pub record ApprovalChallenge : Type 0 where
  pub digest : Bytes
  pub context : ApprovalContext

-- `Answering`, and what this machine and the others answer in the course of one call. `inspected`
-- is `zbacs_core::inspect` of the file at a path; `assertion` is the CBOR form of the signature.
pub record Answering : Type 0 where
  pub device_setting : Confirmation
  pub owner_secret : Bytes
  pub chain_id : ℕ
  pub policy_address : Bytes
  pub policy : ConfirmationPolicy
  pub recent : List ℕ
  pub chain : Option ChainLink
  pub now : ℕ
  pub chain_nonce : Result ChainError ℕ
  pub assertion : ApprovalChallenge → Confirmation → Result AuthError (Result String Bytes)
  pub inspected : Inspect
  pub submit : Submit
  pub relay_takes : GrantMsg → Bool
  pub taking : Io
  pub reading : Io
  pub clearing : Io
  pub recording : Io

pub record Answered : Type 0 where
  pub id : Bytes
  pub decision : Bytes
  pub grant_id : Option Bytes
  pub expiry : Option ℕ
  pub confirmed_by_os : Bool
  pub tx_hash : Option Bytes
  pub pending : List String

-- `str::contains`.
abbrev starts_with : Bytes → Bytes → Bool
starts_with [] text = true
starts_with (x ∷ xs) [] = false
starts_with (x ∷ xs) (y ∷ ys) = x == y && starts_with xs ys

unfoldable pub contains : Bytes → Bytes → Bool
contains [] part = starts_with part []
contains (x ∷ xs) part = starts_with part (x ∷ xs) || contains xs part

-- What a smart account's failure is called.
unfoldable pub smart_problem : ChainError → String
unfolding contains
smart_problem (config why) =
    if contains why (codes "ancel")
    then "cancelled"
    else (if contains why (codes "onfirm") then "needs_os_confirm" else "failed")
smart_problem _ = "failed"

pub record World (Doc : Type 0) : Type 0 where
  pub disk : Option Doc
  pub sent : List GrantMsg

unfoldable pub refusal : Bytes → ℕ → GrantMsg
refusal request_nonce now = record {
  request_nonce = request_nonce;
  grant = none;
  owner_sig = none;
  envelope = none;
  tx_hash = none;
  decision = 0;
  ts = now;
}

-- The message of an approval.
unfoldable pub message :
    AccessRequest → DecisionArg → Answering → Option Bytes → Bytes → Option Bytes → Bytes → GrantMsg
message r d w sig env tx b = record {
  request_nonce = r.nonce;
  grant = some b;
  owner_sig = sig;
  envelope = some env;
  tx_hash = tx;
  decision = permission_u8 (permission_of d);
  ts = w.now;
}

-- The link, if it can write.
abbrev pub on_chain : Answering → Option ChainLink
on_chain w = elim w.chain [ none ↦ none | some l ↦ if l.has_writer then some l else none ]

abbrev pub smart : Answering → Bool
smart w = elim w.chain [ none ↦ false | some l ↦ is_smart l.mode ]

abbrev pub context_of : AccessRequest → DecisionArg → ApprovalContext
context_of r d = record { permission = permission_of d; file_id = r.fid }

-- What the signer and the encoding of its assertion give.
abbrev pub signed_as : Result AuthError (Result String Bytes) → Result String (Option Bytes)
signed_as (err e) = err (signing_problem e)
signed_as (ok (err e)) = err "failed"
signed_as (ok (ok b)) = ok (some b)

module _ (c : Suite) (w : Answering) where
  -- The device's signature over the terms, which the smart account does not need.
  unfoldable pub signature : AccessGrantTerms → ApprovalContext → Result String (Option Bytes)
  unfolding required digest
  signature terms context =
      let challenge : ApprovalChallenge = record {
        digest = digest c.primitives terms w.chain_id w.policy_address;
        context = context;
      } in
      if smart w
      then ok none
      else signed_as
          (w.assertion challenge (required w.policy context w.device_setting w.recent w.now))

module _ {Doc : Type 0} (json : Json Doc) (c : Suite) (k : Forms) (w : Answering) where
  abbrev pub Answer : Type 0 → Type 0
  Answer A = Steps (World Doc) String A

  -- `client.send_grant`.
  unfoldable pub send : GrantMsg → Answer (Unit {0})
  send g s =
      if w.relay_takes g
      then (record s { sent = s.sent ++ (g ∷ []) }, ok tt)
      else (s, err "relay_unreachable")

  unfoldable pub ledger_nonce : Answer ℕ
  unfolding call
  ledger_nonce s =
      let (disk, reply) = call json takes_nonce w.taking s.disk in
      (record s { disk = disk }, elim reply [ ok (nonce n) ↦ ok n | _ ↦ err "failed" ])

  -- The nonce that the contract will demand; the ledger's where no chain tells one.
  unfoldable pub grant_nonce : Answer ℕ
  unfolding ledger_nonce
  grant_nonce = elim (on_chain w) [
    | none ↦ ledger_nonce
    | some l ↦ elim w.chain_nonce [ ok n ↦ done n | err e ↦ ledger_nonce ]
  ]

  -- The chain's copy: its transaction, and what is outstanding.
  unfoldable pub chain_grant : AccessGrantTerms → Answer (Option Bytes × List String)
  unfolding write smart_problem
  chain_grant terms s = elim (on_chain w) [
    | none ↦ (s, ok (none, "chain_grant" ∷ []))
    | some l ↦
        let (disk, result) =
          write json k l w.submit w.reading w.clearing (ChainCall.grant terms) s.disk in
        elim result [
          | ok tx ↦ (record s { disk = disk }, ok (some tx, []))
          | err e ↦ (
            record s { disk = disk },
            if smart w then err (smart_problem e) else ok (none, "chain_grant" ∷ []),
          )
        ]
  ]

  unfoldable pub remembered : Entry → Bytes → AccessGrantTerms → DecisionArg → Option Bytes → Grant
  unfolding word
  remembered entry grant_id terms decision tx = record {
    grant_id = k.hex grant_id;
    fid = entry.fid;
    file_name = entry.name;
    permission = word decision;
    expiry = terms.expiry;
    granted_at = w.now;
    revoked_at = none;
    tx_hash = map_option k.hex tx;
    revoke_tx = none;
  }

  -- `record_grant`, whose failure is only logged.
  unfoldable pub remember : Grant → Answer (Unit {0})
  unfolding call
  remember g = set (λ s. record s { disk = (call json (grants_access g) w.recording s.disk).0 })

  unfoldable pub deny_request : AccessRequest → Answer Answered
  unfolding send refusal
  deny_request r = do
    send (refusal r.nonce w.now)
    done (record {
      id = k.hex r.nonce;
      decision = codes "deny";
      grant_id = none;
      expiry = none;
      confirmed_by_os = false;
      tx_hash = none;
      pending = [];
    })

  unfoldable pub allow_request : PendingRequest → DecisionArg → Answer Answered
  unfolding grant_nonce signature envelope_for chain_grant send remember remembered terms_for
      struct_hash required permission_of word to_cbor message
  allow_request p decision = do
    let r = p.request
    entry ← lift (ok_or p.entry "unknown_file")
    fail_if (not (bytes_beq entry.header_hash (k.hex r.header_hash))) "version"
    n ← grant_nonce
    let terms = terms_for c.primitives r entry (permission_of decision) n w.now
    let grant_id = struct_hash c.primitives terms
    owner_sig ← lift (signature c w terms (context_of r decision))
    envelope ← lift (envelope_for c k w.inspected entry r w.owner_secret grant_id)
    (tx_hash, outstanding) ← chain_grant terms
    grant ← lift (map_err (λ e. "failed") (to_cbor k.terms terms))
    send (message r decision w owner_sig envelope tx_hash grant)
    remember (remembered entry grant_id terms decision tx_hash)
    done (record {
      id = k.hex r.nonce;
      decision = word decision;
      grant_id = some (k.hex grant_id);
      expiry = some terms.expiry;
      confirmed_by_os =
          is_os (required w.policy (context_of r decision) w.device_setting w.recent w.now);
      tx_hash = map_option k.hex tx_hash;
      pending = outstanding;
    })

  unfoldable pub answer : PendingRequest → DecisionArg → Answer Answered
  unfolding deny_request allow_request
  answer p DecisionArg.deny = deny_request p.request
  answer p DecisionArg.read_only = allow_request p DecisionArg.read_only
  answer p DecisionArg.edit = allow_request p DecisionArg.edit
