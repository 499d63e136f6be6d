-- ===== src/Agent/Approve/Sending.antt =====
-- What `answer` of apps/agent/src-tauri/src/approve.rs sends.
use z_bacs.Prelude.{
  ℕ, not, ◌≡◌, refl, ap, sym, ◌∙◌, Option, some, [], ◌∷◌, ◌++◌, String, Result, ok, err, ok_or,
  ok_or-ok, map_err, map_err-ok, refuse_if, arith,
}
use z_bacs.Prelude.Steps.{step-cases, lift-cases}
use z_bacs.Prelude.Bytes.{Bytes, bytes_beq, bytes_beq_iff}
use z_bacs.Proto.Messages.{GrantMsg}
use z_bacs.Proto.Grant.{AccessGrantTerms, struct_hash, to_cbor}
use z_bacs.Core.External.{Suite}
use z_bacs.Agent.Forms.{Forms}
use z_bacs.Agent.Ledger.{Entry, Json}
use z_bacs.Agent.Approve.{PendingRequest, DecisionArg, permission_of, permission_u8, terms_for}
use z_bacs.Agent.Approve.Rewrapping.{envelope_for}
use z_bacs.Agent.Approve.Answering.{
  Answering, Answered, World, context_of, send, refusal, ledger_nonce, grant_nonce, signature,
  chain_grant, message, remember, deny_request, allow_request, answer,
}

-- A message that allows a request: it is about this file, version and device, and carries the key
-- wrapped for the device and bound to the terms.
pub record Allows (c : Suite) (k : Forms) (w : Answering) (p : PendingRequest) (d : DecisionArg)
    (g : GrantMsg) : Type 0 where
  pub entry : Entry
  pub nonce : ℕ
  pub bytes : Bytes
  pub envelope : Bytes
  pub known : p.entry ≡ some entry
  pub same_version : entry.header_hash ≡ k.hex p.request.header_hash
  pub terms_written :
      to_cbor k.terms (terms_for c.primitives p.request entry (permission_of d) nonce w.now)
      ≡ ok bytes
  pub grant_is : g.grant ≡ some bytes
  pub wrapped :
      envelope_for c k w.inspected entry p.request w.owner_secret (
        struct_hash c.primitives
          (terms_for c.primitives p.request entry (permission_of d) nonce w.now))
      ≡ ok envelope
  pub envelope_is : g.envelope ≡ some envelope
  pub signed :
      signature c w
        (terms_for c.primitives p.request entry (permission_of d) nonce w.now)
        (context_of p.request d)
      ≡ ok g.owner_sig
  pub request_nonce : g.request_nonce ≡ p.request.nonce
  pub decision : g.decision ≡ permission_u8 (permission_of d)

-- The message that a decision allows.
unfoldable pub Answers :
    Suite → Forms → Answering → PendingRequest → DecisionArg → GrantMsg → Type 0
Answers c k w p DecisionArg.deny g = g ≡ refusal p.request.nonce w.now
Answers c k w p d g = Allows c k w p d g

-- An error leaves the messages that were sent; a success adds the one message.
abbrev pub Sends :
    {Doc : Type 0} → (GrantMsg → Type 0) → World Doc → World Doc × Result String Answered → Type 0
Sends Good s (s', err e) = s'.sent ≡ s.sent
Sends Good s (s', ok a) = (g : GrantMsg) × (s'.sent ≡ s.sent ++ (g ∷ [])) × Good g

module _ {Doc : Type 0} (json : Json Doc) (c : Suite) (k : Forms) (w : Answering) where
  grant_nonce-sent : (s : World Doc) → (grant_nonce json c k w s).0.sent ≡ s.sent
  unfolding grant_nonce ledger_nonce
  grant_nonce-sent s = ground arith

  chain_grant-sent :
      (t : AccessGrantTerms) (s : World Doc) → (chain_grant json c k w t s).0.sent ≡ s.sent
  unfolding chain_grant
  chain_grant-sent t s = ground arith

  send-sent :
      (g : GrantMsg) (s : World Doc) {s' : World Doc} {u : Unit {0}}
      → send json c k w g s ≡ (s', ok u)
      → s'.sent ≡ s.sent ++ (g ∷ [])
  unfolding send
  send-sent g s h = ground arith

  send-refused :
      (g : GrantMsg) (s : World Doc) {s' : World Doc} {e : String}
      → send json c k w g s ≡ (s', err e)
      → s'.sent ≡ s.sent
  unfolding send
  send-refused g s h = ground arith

  deny_request-Sends :
      (p : PendingRequest) (s : World Doc)
      → Sends (λ g. g ≡ refusal p.request.nonce w.now) s (deny_request json c k w p.request s)
  unfolding deny_request
  deny_request-Sends p s =
      let g = refusal p.request.nonce w.now in
      step-cases (Sends (λ g. g ≡ refusal p.request.nonce w.now) s) (send json c k w g) _ s
        (λ s' e h. send-refused g s h) (λ s' u h. (g, send-sent g s h, refl))

  allowing :
      (p : PendingRequest) (d : DecisionArg) (entry : Entry) (n : ℕ) (sig : Option Bytes)
      (env : Bytes) (tx : Option Bytes) (b : Bytes) {u : Unit {0}}
      → ok_or {E = String} p.entry "unknown_file" ≡ ok entry
      → refuse_if {E = String}
          (not (bytes_beq entry.header_hash (k.hex p.request.header_hash)))
          "version"
        ≡ ok u
      → map_err {F = String}
          (λ e. "failed")
          (to_cbor k.terms (terms_for c.primitives p.request entry (permission_of d) n w.now))
        ≡ ok b
      → envelope_for c k w.inspected entry p.request w.owner_secret (
          struct_hash c.primitives
            (terms_for c.primitives p.request entry (permission_of d) n w.now))
        ≡ ok env
      → signature c w
          (terms_for c.primitives p.request entry (permission_of d) n w.now)
          (context_of p.request d)
        ≡ ok sig
      → Allows c k w p d (message p.request d w sig env tx b)
  unfolding message
  allowing p d entry n sig env tx b known same written wrapped signed = record {
    entry = entry;
    nonce = n;
    bytes = b;
    envelope = env;
    known = ok_or-ok p.entry "unknown_file" known;
    same_version = ground (arith, bytes_beq_iff entry.header_hash (k.hex p.request.header_hash));
    terms_written = map_err-ok _ _ written;
    grant_is = refl;
    wrapped = wrapped;
    envelope_is = refl;
    signed = signed;
    request_nonce = refl;
    decision = refl;
  }

  allow_request-Sends :
      (p : PendingRequest) (d : DecisionArg) (s : World Doc)
      → Sends (Allows c k w p d) s (allow_request json c k w p d s)
  unfolding allow_request remember message
  allow_request-Sends p d s =
      let P = Sends (Allows c k w p d) s in
      let r = p.request in
      lift-cases P (ok_or p.entry "unknown_file") _ s (λ e. refl)
        (λ entry known.
          lift-cases P
            (refuse_if (not (bytes_beq entry.header_hash (k.hex r.header_hash))) "version") _ s
            (λ e. refl)
            (λ u same.
              step-cases P (grant_nonce json c k w) _ s
                (λ s₁ e h. ap (λ y. y.0.sent) (sym h) ∙ grant_nonce-sent s)
                (λ s₁ n h₁.
                  let terms = terms_for c.primitives r entry (permission_of d) n w.now in
                  let id = struct_hash c.primitives terms in
                  let q₁ : s₁.sent ≡ s.sent = ap (λ y. y.0.sent) (sym h₁) ∙ grant_nonce-sent s in
                  lift-cases P (signature c w terms (context_of r d)) _ s₁ (λ e. q₁)
                    (λ sig signed.
                      lift-cases P (envelope_for c k w.inspected entry r w.owner_secret id) _ s₁
                        (λ e. q₁)
                        (λ env wrapped.
                          step-cases P (chain_grant json c k w terms) _ s₁
                            (λ s₂ e h. ap (λ y. y.0.sent) (sym h) ∙ chain_grant-sent terms s₁ ∙ q₁)
                            (λ s₂ tx h₂.
                              let q₂ : s₂.sent ≡ s.sent =
                                ap (λ y. y.0.sent) (sym h₂) ∙ chain_grant-sent terms s₁ ∙ q₁ in
                              lift-cases P (map_err (λ e. "failed") (to_cbor k.terms terms)) _ s₂
                                (λ e. q₂)
                                (λ b written.
                                  step-cases P (send json c k w (message r d w sig env tx.0 b)) _ s₂
                                    (λ s₃ e h. send-refused _ s₂ h ∙ q₂)
                                    (λ s₃ v h₃. (
                                      message r d w sig env tx.0 b,
                                      send-sent _ s₂ h₃
                                          ∙ ap (λ l. l ++ (message r d w sig env tx.0 b ∷ [])) q₂,
                                      allowing p d entry n sig env tx.0 b known same written wrapped
                                          signed,
                                    )))))))))

  -- Where `answer` returns an error, no message went out; where it succeeds exactly one did, made by
  -- the steps that the decision takes.
  pub answer-Sends :
      (p : PendingRequest) (d : DecisionArg) (s : World Doc)
      → Sends (Answers c k w p d) s (answer json c k w p d s)
  unfolding answer Answers
  answer-Sends p DecisionArg.deny s = deny_request-Sends p s
  answer-Sends p DecisionArg.read_only s = allow_request-Sends p DecisionArg.read_only s
  answer-Sends p DecisionArg.edit s = allow_request-Sends p DecisionArg.edit s
