-- ===== src/Agent/Exchange/Tests.antt =====
-- A request and its answer at concrete inputs.
use z_bacs.Prelude.{
  ℕ, ◌+◌, ◌≤◌, ◌<◌, ◌*◌, Bool, true, false, ◌&&◌, ◌≡◌, ◌≢◌, ◌↔◌, refl, Option, some, none, [], ◌∷◌,
  ◌++◌, List, Result, ok, err, length, arith, inl, inr, ◌==◌, if◌then◌else◌, replicate, ==_iff,
  String,
}
use z_bacs.Prelude.Bytes.{Bytes, bytes_beq, bytes_beq_iff, codes}
use z_bacs.Session.{Permission}
use z_bacs.Proto.Messages.{Kind, Envelope, AccessRequest, GrantMsg, access_request}
use z_bacs.Proto.Signed.{Signed, DeviceIdentity, sign, ed25519_pub}
use z_bacs.Proto.Grant.{device_key_hash}
use z_bacs.Core.Toy.{suite, suite-Hpke, keys, keys-Signs, tag}
use z_bacs.Agent.Forms.{Forms}
use z_bacs.Agent.Ledger.{File, Entry, Io, Json, default_file}
use z_bacs.Agent.Approve.{DecisionArg, terms_for, accept_request}
use z_bacs.Agent.Approve.Answering.{Answered, World, answer}
use z_bacs.Agent.Approve.Confirming.{Confirmed, answer-Confirmed}
use z_bacs.Agent.Request.{Target, build_request, classify, granted}
use z_bacs.Agent.Request.Binding.{Binds, classify-granted_iff}
use z_bacs.Session.{Session, State, new, apply, Event}
use z_bacs.Agent.Request.Guarding.{Look, watch_grant, Closed, watch_grant-Closed, Pulled}
use z_bacs.Agent.Request.Asking.{Asking, Round, Outcome, Held, ask}
use z_bacs.Agent.Request.Waiting.{ask-ends}
use z_bacs.Agent.Request.Outcomes.{Comes, ask-Comes}
use z_bacs.Agent.Exchange.Asked.{accept_request-build_request}
use z_bacs.Agent.Exchange.Answered.{Arrives, answer-Arrives}
use z_bacs.Toy.{only, only-RoundTripsAt}
use z_bacs.Agent.Exchange.Scenario.{
  json, device, owner_device, target, entry, dek, terms, allowing, forms, answering, pending,
  before, terms_form-RoundTrips, asked_is, approved, approved-sign,
}

outcome : World File × Result String Answered
outcome = answer json suite forms answering pending DecisionArg.edit before

allowed_out : Answered
unfolding outcome answer
allowed_out = elim outcome.1 [ ok a ↦ a | err e ↦ fallback ]
  where
    fallback : Answered
    fallback = record {
      id = [];
      decision = [];
      grant_id = none;
      expiry = none;
      confirmed_by_os = false;
      tx_hash = none;
      pending = [];
    }

outcome-ok :
    answer json suite forms answering pending DecisionArg.edit before ≡ (outcome.0, ok allowed_out)
unfolding outcome allowed_out answer bytes_beq z_bacs.Agent.Ledger.Calls.change
    z_bacs.Agent.Ledger.replacement z_bacs.Toy.toy_hash z_bacs.Prelude.Bytes.to_be_bytes
    device_key_hash z_bacs.Agent.Ledger.next_grant_nonce
outcome-ok = refl

outcome-sent : outcome.0.sent ≡ [] ++ (allowing ∷ [])
unfolding outcome answer bytes_beq z_bacs.Agent.Ledger.Calls.change z_bacs.Agent.Ledger.replacement
    z_bacs.Toy.toy_hash z_bacs.Prelude.Bytes.to_be_bytes device_key_hash
    z_bacs.Agent.Ledger.next_grant_nonce
outcome-sent = refl

answer-Confirmed_example :
    (g : GrantMsg) × (outcome.0.sent ≡ [] ++ (g ∷ [])) × Confirmed suite forms answering pending g
answer-Confirmed_example =
    answer-Confirmed json suite forms answering pending before outcome.0 allowed_out refl refl
      outcome-ok

abbrev delivered : Envelope
delivered = record { id = []; kind = Kind.grant; body = 12 ∷ []; queued_at = 2001 }

delivered_is : z_bacs.Proto.Signed.to_bytes (only approved (12 ∷ [])) approved ≡ ok (12 ∷ [])
unfolding z_bacs.Proto.Signed.to_bytes
delivered_is = refl

not_refused : DecisionArg.edit ≢ DecisionArg.deny
not_refused h = ground arith

answer-Arrives_example :
    (e : Entry) × (some entry ≡ some e)
    × Arrives suite forms answering e
        (21 ∷ [])
        delivered
        (7 ∷ [])
        target
        (device_key_hash keys (21 ∷ []) (ed25519_pub keys device))
        DecisionArg.edit
answer-Arrives_example =
    answer-Arrives json suite forms answering pending DecisionArg.edit target device owner_device
      Permission.edit (7 ∷ []) (3 ∷ []) (21 ∷ []) 1000 2000 before outcome.0 allowed_out allowing
      approved delivered suite-Hpke (terms_form-RoundTrips terms)
      (only-RoundTripsAt allowing (9 ∷ [])) (only-RoundTripsAt approved (12 ∷ [])) asked_is refl
      not_refused outcome-ok outcome-sent approved-sign delivered_is refl

-- The request, as it is queued for the owner.
requested : Signed
unfolding z_bacs.Proto.Signed.kid z_bacs.Proto.Signed.signing_bytes
requested = record {
  payload = 8 ∷ [];
  kid = z_bacs.Proto.Signed.kid keys device;
  kind = Kind.req;
  ts = 1000;
  nonce = 4 ∷ [];
  sig =
      keys.ed25519_sign (22 ∷ [])
        (z_bacs.Proto.Signed.signing_bytes keys Kind.req 1000 (4 ∷ []) (8 ∷ []));
}

abbrev asked_built : AccessRequest
asked_built = build_request keys target device Permission.edit (7 ∷ []) 1000

requested-sign :
    sign keys (access_request (only asked_built (8 ∷ []))) device asked_built 1000 (4 ∷ [])
    ≡ ok requested
unfolding sign requested access_request
requested-sign = refl

abbrev asking_forms : Forms
asking_forms = record forms {
  signed = only requested (13 ∷ []);
  request = only asked_built (8 ∷ []);
}

abbrev queued : Envelope
queued = record { id = []; kind = Kind.req; body = 13 ∷ []; queued_at = 1001 }

queued_is : z_bacs.Proto.Signed.to_bytes (only requested (13 ∷ [])) requested ≡ ok (13 ∷ [])
unfolding z_bacs.Proto.Signed.to_bytes
queued_is = refl

asks_to_edit : Permission.edit ≢ Permission.deny
asks_to_edit h = ground arith

accept_request-build_request_example :
    accept_request keys asking_forms queued (40 ∷ []) 1500 ≡ ok asked_built
accept_request-build_request_example =
    accept_request-build_request keys asking_forms target device Permission.edit (7 ∷ []) (4 ∷ [])
      1000 1500 requested queued keys-Signs (only-RoundTripsAt asked_built (8 ∷ []))
      (only-RoundTripsAt requested (13 ∷ [])) asks_to_edit (omega arith) (omega arith)
      requested-sign queued_is refl

classify-granted_iff_example :
    (classify forms delivered (7 ∷ []) target (device_key_hash keys (21 ∷ []) (22 ∷ []))
      ≡ granted Permission.edit terms (some (dek ++ tag)) none)
    ↔ Binds forms delivered
        (7 ∷ [])
        target
        (device_key_hash keys (21 ∷ []) (22 ∷ []))
        Permission.edit
        terms
        (some (dek ++ tag))
        none
classify-granted_iff_example =
    classify-granted_iff forms (7 ∷ []) target (device_key_hash keys (21 ∷ []) (22 ∷ [])) delivered
      Permission.edit terms (some (dek ++ tag)) none

-- The device asks, and hears the approval in the second round.
abbrev asking : Asking
asking = record {
  target = target;
  nonce = 7 ∷ [];
  our_key_hash = device_key_hash keys (21 ∷ []) (22 ∷ []);
  limits = record { poll = 10; nudge_after = 15; give_up_after = 25 };
  has_chain = false;
}

abbrev round_at : ℕ → List Envelope → Round
round_at t inbox = record {
  cancel = false;
  waited = t;
  now = 2000 + t;
  inbox = ok inbox;
  is_grant_valid = λ id. ok true;
}

abbrev silent : List Round
silent = round_at 0 [] ∷ round_at 10 [] ∷ round_at 20 [] ∷ round_at 30 [] ∷ []

ask-ends_example :
    (end : Outcome × Held) × ((ask keys forms asking (ok tt) (ok tt) 2000 silent).1 ≡ some end)
ask-ends_example =
    ask-ends keys forms asking (ok tt) (ok tt) 2000 silent (omega arith)
      (omega arith, (omega arith, (omega arith, (omega arith, tt)))) (omega arith)

abbrev heard : List Round
heard = round_at 0 [] ∷ round_at 10 (delivered ∷ []) ∷ []

held_then : Held
held_then = record {
  session =
      (apply new (Event.granted Permission.edit terms.not_before terms.expiry terms.max_opens)
        2010).0;
  terms = some terms;
  envelope = some (dek ++ tag);
}

heard-granted :
    (ask keys forms asking (ok tt) (ok tt) 2000 heard).1
    ≡ some (Outcome.granted Permission.edit 2600, held_then)
unfolding ask held_then bytes_beq approved terms_for device_key_hash z_bacs.Toy.toy_hash
    z_bacs.Prelude.Bytes.to_be_bytes
heard-granted = refl

ask-Comes_example : Comes forms asking heard (Outcome.granted Permission.edit 2600) held_then
ask-Comes_example =
    ask-Comes keys forms asking (ok tt) (ok tt) 2000 heard (Outcome.granted Permission.edit 2600)
      held_then heard-granted

-- The chain is down, and the second round finds a revocation in the inbox.
revoking : Signed
revoking = record approved { kind = Kind.revoke }

abbrev pulled_back : Envelope
pulled_back = record { id = []; kind = Kind.revoke; body = 12 ∷ []; queued_at = 2100 }

abbrev revoke_forms : Forms
revoke_forms = record forms {
  signed = only revoking (12 ∷ []);
  revoke = only (record { grant_id = 77 ∷ []; fid = 1 ∷ []; ts = 2100 }) (9 ∷ []);
}

abbrev look_at : ℕ → List Envelope → Look
look_at now inbox = record {
  cancel = false;
  now = now;
  is_grant_valid = some (err "down");
  inbox = ok inbox;
}

abbrev guarded : Session
guarded = record new { state = State.granted; permission = some Permission.edit; expiry = 2600 }

pulled : Pulled revoke_forms (77 ∷ []) 2600 (ok (pulled_back ∷ []))
unfolding revoking approved bytes_beq z_bacs.Proto.Signed.from_bytes
pulled = record {
  before = [];
  it = pulled_back;
  after = [];
  inbox_is = refl;
  revokes = record {
    signed = revoking;
    what = record { grant_id = 77 ∷ []; fid = 1 ∷ []; ts = 2100 };
    envelope_kind = refl;
    message = refl;
    message_kind = refl;
    payload = refl;
    names = refl;
  };
}

watch_grant-Closed_example : Closed revoke_forms (77 ∷ []) 2600 (
    watch_grant revoke_forms
      (77 ∷ [])
      2600
      ((look_at 2050 [] ∷ []) ++ (look_at 2100 (pulled_back ∷ []) ∷ []))
      guarded)
unfolding z_bacs.Agent.Request.Guarding.revoked_by_relay revoking approved
    z_bacs.Session.is_terminal bytes_beq
watch_grant-Closed_example =
    watch_grant-Closed revoke_forms (77 ∷ []) 2600 (look_at 2050 [] ∷ [])
      (look_at 2100 (pulled_back ∷ [])) guarded refl (refl, (refl, tt)) (inr (inr pulled))
