-- ===== src/Agent/Approve/Confirming.antt =====
-- An approval to edit, in apps/agent/src-tauri/src/approve.rs, under the confirmation policy of
-- crates/zbacs-auth/src/policy.rs.
use z_bacs.Prelude.{
  true, false, ◌≡◌, Option, some, ◌∷◌, ◌++◌, [], Result, ok, subst, refl, err, String, arith,
}
use z_bacs.Prelude.Bytes.{Bytes}
use z_bacs.Proto.Messages.{GrantMsg}
use z_bacs.Proto.Grant.{AccessGrantTerms, to_cbor, digest}
use z_bacs.Core.External.{Suite}
use z_bacs.Auth.{os_user_verification, ApprovalContext, required}
use z_bacs.Agent.Forms.{Forms}
use z_bacs.Agent.Ledger.{Json}
use z_bacs.Agent.Approve.{PendingRequest, DecisionArg, permission_of, terms_for}
use z_bacs.Agent.Approve.Answering.{
  Answering, Answered, World, ApprovalChallenge, context_of, smart, signature, signed_as, AuthError,
  answer,
}
use z_bacs.Agent.Approve.Sending.{Answers, Sends, answer-Sends}

-- The signature was made by the device's signer, over these terms, after the operating system
-- verified the person.
pub record Confirmed (c : Suite) (k : Forms) (w : Answering) (p : PendingRequest) (g : GrantMsg)
    : Type 0 where
  pub terms : AccessGrantTerms
  pub bytes : Bytes
  pub sig : Bytes
  pub terms_written : to_cbor k.terms terms ≡ ok bytes
  pub grant_is : g.grant ≡ some bytes
  pub sig_is : g.owner_sig ≡ some sig
  pub asserted :
      w.assertion
        (record {
          digest = digest c.primitives terms w.chain_id w.policy_address;
          context = context_of p.request DecisionArg.edit;
        })
        os_user_verification
      ≡ ok (ok sig)

edit-required :
    (w : Answering) (p : PendingRequest)
    → w.policy.edit_requires_confirmation ≡ true
    → required w.policy (context_of p.request DecisionArg.edit) w.device_setting w.recent w.now
      ≡ os_user_verification
unfolding required permission_of
edit-required w p h = ground arith

pub signed_as-ok :
    (x : Result AuthError (Result String Bytes)) {o : Option Bytes}
    → signed_as x ≡ ok o
    → (sig : Bytes) × (o ≡ some sig) × (x ≡ ok (ok sig))
signed_as-ok (err e) h = cc
signed_as-ok (ok (err e)) h = cc
signed_as-ok (ok (ok b)) h = (b, ground arith, refl)

signature-asserted :
    (c : Suite) (w : Answering) (t : AccessGrantTerms) (x : ApprovalContext) (o : Option Bytes)
    → smart w ≡ false
    → required w.policy x w.device_setting w.recent w.now ≡ os_user_verification
    → signature c w t x ≡ ok o
    → (sig : Bytes) × (o ≡ some sig)
      × (w.assertion
            (record { digest = digest c.primitives t w.chain_id w.policy_address; context = x })
            os_user_verification
          ≡ ok (ok sig))
unfolding signature
signature-asserted c w t x o s r h =
    let challenge : ApprovalChallenge = record {
      digest = digest c.primitives t w.chain_id w.policy_address;
      context = x;
    } in
    let from : signed_as
          (w.assertion challenge (required w.policy x w.device_setting w.recent w.now))
        ≡ ok o =
      ground arith in
    let (sig, is, made) = signed_as-ok _ from in
    (sig, is, subst (λ y. w.assertion challenge y ≡ ok (ok sig)) r made)

module _ {Doc : Type 0} (json : Json Doc) (c : Suite) (k : Forms) (w : Answering) where
  -- Where the policy asks for it, as the default policy does, and the approval does not go through
  -- the smart account, an approval to edit that `answer` sends carries a signature that the
  -- device's signer made over its terms with the operating system's verification, whatever the
  -- device's own setting is.
  pub answer-Confirmed :
      (p : PendingRequest) (s s' : World Doc) (a : Answered)
      → w.policy.edit_requires_confirmation ≡ true
      → smart w ≡ false
      → answer json c k w p DecisionArg.edit s ≡ (s', ok a)
      → (g : GrantMsg) × (s'.sent ≡ s.sent ++ (g ∷ [])) × Confirmed c k w p g
  unfolding Answers
  answer-Confirmed p s s' a edits direct h =
      let (g, sent, allowed) =
        subst (Sends (Answers c k w p DecisionArg.edit) s) h
          (answer-Sends json c k w p DecisionArg.edit s) in
      let (sig, is, made) =
        signature-asserted c w _ (context_of p.request DecisionArg.edit) g.owner_sig direct
          (edit-required w p edits) allowed.signed in
      (
        g,
        sent,
        record {
          terms =
              terms_for c.primitives p.request allowed.entry (permission_of DecisionArg.edit)
                allowed.nonce w.now;
          bytes = allowed.bytes;
          sig = sig;
          terms_written = allowed.terms_written;
          grant_is = allowed.grant_is;
          sig_is = is;
          asserted = made;
        },
      )
