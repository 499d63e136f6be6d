-- ===== src/Agent/Request/Outcomes.antt =====
-- What `ask` of apps/agent/src-tauri/src/request.rs hands on with each outcome.
use z_bacs.Prelude.{
  ℕ, ◌≤◌, ◌<◌, Bool, true, false, ◌≡◌, ◌⊎◌, ◌∙◌, refl, inl, inr, Option, none, some, List, [], ◌∷◌,
  ◌++◌, append_assoc, String, Result, ok, err, arith, leb, Option-cases, Bool-cases, some_inj,
  subst, ap, sym, if◌then◌else◌,
}
use z_bacs.Prelude.Bytes.{Bytes}
use z_bacs.Session.{Permission, Session, State, new, apply, Event, TransitionError, Effect}
use z_bacs.Session.Requested.{
  apply-failed, apply-expired, apply-denied, apply-granted, apply-not_granted,
}
use z_bacs.Proto.External.{Primitives}
use z_bacs.Proto.Messages.{Envelope}
use z_bacs.Proto.Grant.{AccessGrantTerms, struct_hash}
use z_bacs.Agent.Forms.{Forms}
use z_bacs.Agent.Request.{Answer, not_ours, mismatch, classify}
use z_bacs.Agent.Request.Asking.{
  Asking, Round, ClientError, Outcome, Held, Update, Ended, round, nudges, wait, ask, fail_with,
  relay_problem, nothing_held, check_chain, accept_grant, answer_ends, first_answer, envelopes_of,
}
use z_bacs.Agent.Request.Waiting.{wait-stops, wait-goes_on}
use z_bacs.Agent.Request.Binding.{Binds, classify-granted_iff}

-- The approval that a session was granted on: in the inbox of one of the rounds, a message binds to
-- the request with these terms, and the clock of that round lies in their window.
pub record Rests (k : Forms) (a : Asking) (rs : List Round) (p : Permission) (expiry : ℕ)
    (held : Held) : Type 0 where
  pub earlier : List Round
  pub heard : Round
  pub later : List Round
  pub of_round : rs ≡ earlier ++ (heard ∷ later)
  pub before : List Envelope
  pub message : Envelope
  pub after : List Envelope
  pub of_inbox : heard.inbox ≡ ok (before ++ (message ∷ after))
  pub terms : AccessGrantTerms
  pub tx : Option Bytes
  pub binds : Binds k message a.nonce a.target a.our_key_hash p terms held.envelope tx
  pub terms_held : held.terms ≡ some terms
  pub begun : terms.not_before ≤ heard.now
  pub not_over : heard.now < terms.expiry
  pub expiry_is : expiry ≡ terms.expiry
  pub state : held.session.state ≡ State.granted
  pub permission : held.session.permission ≡ some p
  pub session_expiry : held.session.expiry ≡ terms.expiry
  pub session_opens : held.session.opens ≡ 0

abbrev Nothing : State → Held → Type 0
Nothing st held = (held.session.state ≡ st) × (held.terms ≡ none) × (held.envelope ≡ none)

granting :
    (y : Session × Result TransitionError (List Effect))
    → ((s : Session) × (e : TransitionError) × (y ≡ (s, err e)))
      ⊎ ((s : Session) × (fx : List Effect) × (y ≡ (s, ok fx)))
granting (s, err e) = inl (s, e, refl)
granting (s, ok fx) = inr (s, fx, refl)

-- What each outcome comes with.
unfoldable pub Comes : Forms → Asking → List Round → Outcome → Held → Type 0
Comes k a rs (Outcome.granted p expiry) held = Rests k a rs p expiry held
Comes k a rs Outcome.denied held = Nothing State.denied held
Comes k a rs Outcome.expired held = Nothing State.closed held
Comes k a rs Outcome.cancelled held = Nothing State.failed held
Comes k a rs (Outcome.failed why) held = Nothing State.failed held

abbrev Fine : Forms → Asking → List Round → Ended → Type 0
Fine k a rs (outcome, held, update) = Comes k a rs outcome held

Comes-later :
    (k : Forms) (a : Asking) (r : Round) (rs : List Round) (o : Outcome) (held : Held)
    → Comes k a rs o held
    → Comes k a (r ∷ rs) o held
unfolding Comes
Comes-later k a r rs (Outcome.granted p expiry) held c = record {
  earlier = r ∷ c.earlier;
  heard = c.heard;
  later = c.later;
  of_round = ap (◌∷◌ r) c.of_round;
  before = c.before;
  message = c.message;
  after = c.after;
  of_inbox = c.of_inbox;
  terms = c.terms;
  tx = c.tx;
  binds = c.binds;
  terms_held = c.terms_held;
  begun = c.begun;
  not_over = c.not_over;
  expiry_is = c.expiry_is;
  state = c.state;
  permission = c.permission;
  session_expiry = c.session_expiry;
  session_opens = c.session_opens;
}
Comes-later k a r rs Outcome.denied held c = c
Comes-later k a r rs Outcome.expired held c = c
Comes-later k a r rs Outcome.cancelled held c = c
Comes-later k a r rs (Outcome.failed why) held c = c

module _ (c : Primitives) (k : Forms) (a : Asking) where
  fail_with-Fine :
      (rs : List Round) (reason : String) (s : Session) (now : ℕ)
      → s.state ≡ State.requested
      → Fine k a rs (fail_with reason s now)
  unfolding fail_with Comes
  fail_with-Fine rs reason s now st = (apply-failed s now st reason, refl, refl)

  accept_grant-Fine :
      (p : Permission) (t : AccessGrantTerms) (envelope tx : Option Bytes) (r : Round)
      (rs : List Round) (before : List Envelope) (e : Envelope) (after : List Envelope)
      (s : Session)
      → r.inbox ≡ ok (before ++ (e ∷ after))
      → s.state ≡ State.requested
      → s.opens ≡ 0
      → Binds k e a.nonce a.target a.our_key_hash p t envelope tx
      → Fine k a (r ∷ rs) (accept_grant c k a p t envelope tx r s)
  unfolding accept_grant Comes
  accept_grant-Fine p t envelope tx r rs before e after s at st op b =
      elim (Option-cases (check_chain a.has_chain tx (r.is_grant_valid (struct_hash c t)))) [
        | inl swapped ↦ rw (swapped, accept_grant) (fail_with-Fine (r ∷ rs) "mismatch" s r.now st)
        | inr (outstanding, fine) ↦
            elim (granting (apply s (Event.granted p t.not_before t.expiry t.max_opens) r.now)) [
              | inl (s', why, h) ↦
                  let event = Event.granted p t.not_before t.expiry t.max_opens in
                  let same =
                    ap (λ y. y.0) h
                    ∙ apply-not_granted s r.now st p t.not_before t.expiry t.max_opens h in
                  rw (fine, h, accept_grant)
                    (fail_with-Fine (r ∷ rs) "window" (apply s event r.now).0 r.now
                      (ap (λ y. y.state) same ∙ st))
              | inr (s', fx, h) ↦
                  let (st', perm, x, o, begun, over) =
                    apply-granted s r.now st p t.not_before t.expiry t.max_opens h in
                  rw (fine, h, accept_grant)
                    (record {
                      earlier = [];
                      heard = r;
                      later = rs;
                      of_round = refl;
                      before = before;
                      message = e;
                      after = after;
                      of_inbox = at;
                      terms = t;
                      tx = tx;
                      binds = b;
                      terms_held = refl;
                      begun = begun;
                      not_over = over;
                      expiry_is = refl;
                      state = ap (λ y. y.0.state) h ∙ st';
                      permission = ap (λ y. y.0.permission) h ∙ perm;
                      session_expiry = ap (λ y. y.0.expiry) h ∙ x;
                      session_opens = ap (λ y. y.0.opens) h ∙ o ∙ op;
                    })
            ]
      ]

  answer_ends-Fine :
      (answer : Answer) (r : Round) (rs : List Round) (before : List Envelope) (e : Envelope)
      (after : List Envelope) (s : Session) {x : Ended}
      → r.inbox ≡ ok (before ++ (e ∷ after))
      → classify k e a.nonce a.target a.our_key_hash ≡ answer
      → s.state ≡ State.requested
      → s.opens ≡ 0
      → answer_ends c k a answer r s ≡ some x
      → Fine k a (r ∷ rs) x
  unfolding answer_ends Comes
  answer_ends-Fine not_ours r rs before e after s at is st op h = cc
  answer_ends-Fine Answer.denied r rs before e after s at is st op h =
      subst (Fine k a (r ∷ rs)) (some_inj h) (apply-denied s r.now st, refl, refl)
  answer_ends-Fine (mismatch what) r rs before e after s at is st op h =
      subst (Fine k a (r ∷ rs)) (some_inj h) (fail_with-Fine (r ∷ rs) "mismatch" s r.now st)
  answer_ends-Fine (Answer.granted p t envelope tx) r rs before e after s at is st op h =
      subst (Fine k a (r ∷ rs)) (some_inj h) (
        accept_grant-Fine p t envelope tx r rs before e after s at st op
          ((classify-granted_iff k a.nonce a.target a.our_key_hash e p t envelope tx).0 is))

  first_answer-Fine :
      (before es : List Envelope) (r : Round) (rs : List Round) (s : Session) (x : Ended)
      → r.inbox ≡ ok (before ++ es)
      → s.state ≡ State.requested
      → s.opens ≡ 0
      → first_answer c k a es r s ≡ some x
      → Fine k a (r ∷ rs) x
  unfolding first_answer
  first_answer-Fine before [] r rs s x at st op h = cc
  first_answer-Fine before (e ∷ es) r rs s x at st op h =
      let answer = classify k e a.nonce a.target a.our_key_hash in
      elim (Option-cases (answer_ends c k a answer r s)) [
        | inl on ↦
            first_answer-Fine (before ++ (e ∷ [])) es r rs s x
              (at ∙ ap ok (sym (append_assoc before (e ∷ []) es))) st op (ground arith)
        | inr (y, ends) ↦
            let is : y ≡ x = ground arith in
            subst (Fine k a (r ∷ rs)) is
              (answer_ends-Fine answer r rs before e es s at refl st op ends)
      ]

  heard-Fine :
      (inbox : Result ClientError (List Envelope)) (r : Round) (rs : List Round) (s : Session)
      (x : Ended)
      → r.inbox ≡ inbox
      → s.state ≡ State.requested
      → s.opens ≡ 0
      → first_answer c k a (envelopes_of c k a inbox) r s ≡ some x
      → Fine k a (r ∷ rs) x
  unfolding first_answer
  heard-Fine (ok es) r rs s x at st op h = first_answer-Fine [] es r rs s x at st op h
  heard-Fine (err e) r rs s x at st op h = cc

  round-Fine :
      (r : Round) (rs : List Round) (s : Session) (x : Ended)
      → s.state ≡ State.requested
      → s.opens ≡ 0
      → round c k a r s ≡ some x
      → Fine k a (r ∷ rs) x
  unfolding round Comes
  round-Fine r rs s x st op h = elim (Bool-cases r.cancel) [
    | inl stop ↦
        let cancel : round c k a r s
            ≡ some (
              Outcome.cancelled,
              nothing_held (apply s (Event.failed "cancelled") r.now).0,
              Update.cancelled,
            ) =
          rw (stop, round) refl in
        subst (Fine k a (r ∷ rs)) (some_inj (sym cancel ∙ h))
          (apply-failed s r.now st "cancelled", refl, refl)
    | inr go ↦ elim (Bool-cases (leb a.limits.give_up_after r.waited)) [
      | inl late ↦
          let over : round c k a r s
              ≡ some
                  (Outcome.expired, nothing_held (apply s Event.expired r.now).0, Update.expired) =
            rw (go, late, round) refl in
          subst (Fine k a (r ∷ rs)) (some_inj (sym over ∙ h)) (apply-expired s r.now st, refl, refl)
      | inr early ↦
          let heard : round c k a r s ≡ first_answer c k a (envelopes_of c k a r.inbox) r s =
            rw (go, early, round) refl in
          heard-Fine r.inbox r rs s x refl st op (sym heard ∙ h)
    ]
  ]

  wait-Comes :
      (nudged : Bool) (rs : List Round) (s : Session) {o : Outcome} {h : Held}
      → s.state ≡ State.requested
      → s.opens ≡ 0
      → (wait c k a nudged rs s).1 ≡ some (o, h)
      → Comes k a rs o h
  unfolding wait
  wait-Comes nudged [] s st op e = cc
  wait-Comes nudged (r ∷ rs) s st op e = elim (Option-cases (round c k a r s)) [
    | inr ((o', h', u), ended) ↦
        let same = some_inj (sym (wait-stops c k a nudged r rs s ended) ∙ e) in
        subst (λ y. Comes k a (r ∷ rs) y.0 y.1) same (round-Fine r rs s (o', h', u) st op ended)
    | inl waiting ↦ Comes-later k a r rs _ _ (
        wait-Comes (if nudges c k a nudged r then true else nudged) rs s st op
          (sym (wait-goes_on c k a nudged r rs s waiting) ∙ e))
  ]

  -- What `ask` hands on fits the outcome, whatever the relay, the chain and the person do. Where it
  -- is an approval, the session is granted on the terms of a message that was in the inbox of one of
  -- the rounds and binds to this request, with the clock of that round within their window, and these
  -- terms and the key's envelope are handed on;
  -- with any other outcome the session is over and no terms and no key are handed on.
  pub ask-Comes :
      (announced requested : Result ClientError (Unit {0})) (now : ℕ) (rs : List Round)
      (o : Outcome) (h : Held)
      → (ask c k a announced requested now rs).1 ≡ some (o, h)
      → Comes k a rs o h
  unfolding ask new Comes
  ask-Comes (err x) requested now rs o h e =
      subst (λ y. Comes k a rs y.0 y.1) (some_inj e)
        (fail_with-Fine rs (relay_problem x) new now refl)
  ask-Comes (ok u) (err x) now rs o h e =
      subst (λ y. Comes k a rs y.0 y.1) (some_inj e)
        (fail_with-Fine rs (relay_problem x) new now refl)
  ask-Comes (ok u) (ok v) now rs o h e = wait-Comes false rs new refl refl e
