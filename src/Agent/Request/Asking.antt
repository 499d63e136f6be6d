-- ===== src/Agent/Request/Asking.antt =====
-- `ask` of apps/agent/src-tauri/src/request.rs: announce, send, then read the inbox until there is
-- an answer, the person stops waiting, or the deadline passes. What the others answer is an
-- argument, one record for each round of the loop. Durations are in nanoseconds.
use z_bacs.Prelude.{
  ℕ, ◌*◌, Bool, true, false, not, ◌&&◌, Option, none, some, List, [], ◌∷◌, ◌++◌, String, Result, ok,
  err, leb, if◌then◌else◌,
}
use z_bacs.Prelude.Bytes.{Bytes}
use z_bacs.Session.{Permission, Session, new, apply, Event}
use z_bacs.Proto.External.{Primitives}
use z_bacs.Proto.Messages.{Envelope}
use z_bacs.Proto.Grant.{AccessGrantTerms, struct_hash}
use z_bacs.Agent.Forms.{Forms}
use z_bacs.Agent.Request.{Target, Answer, not_ours, mismatch, classify}

pub record Limits : Type 0 where
  pub poll : ℕ
  pub nudge_after : ℕ
  pub give_up_after : ℕ

-- `Limits::default`.
unfoldable pub default_limits : Limits
default_limits = record {
  poll = 2 * 1_000_000_000;
  nudge_after = 120 * 1_000_000_000;
  give_up_after = 300 * 1_000_000_000;
}

pub data Outcome : Type 0 where
  granted : Permission → ℕ → Outcome
  denied expired cancelled : Outcome
  failed : String → Outcome

-- What the screen is told. Of an `Update` the file's path, the same in all, is left out.
pub data Update : Type 0 where
  sent nudge denied expired cancelled : Update
  granted : Permission → ℕ → List String → Update
  failed : String → Update

pub record Held : Type 0 where
  pub session : Session
  pub terms : Option AccessGrantTerms
  pub envelope : Option Bytes

-- `ClientError`, of which the source tells two kinds from the others.
pub data ClientError : Type 0 where
  unreachable refused other : ClientError

unfoldable pub relay_problem : ClientError → String
relay_problem unreachable = "relay_unreachable"
relay_problem refused = "relay_refused"
relay_problem other = "failed"

-- One round of the loop: whether the person stopped waiting, the time since the start, the clock,
-- the inbox, and what the chain says of a grant.
pub record Round : Type 0 where
  pub cancel : Bool
  pub waited : ℕ
  pub now : ℕ
  pub inbox : Result ClientError (List Envelope)
  pub is_grant_valid : Bytes → Result String Bool

pub record Asking : Type 0 where
  pub target : Target
  pub nonce : Bytes
  pub our_key_hash : Bytes
  pub limits : Limits
  pub has_chain : Bool

abbrev pub Ended : Type 0
Ended = Outcome × Held × Update

abbrev pub nothing_held : Session → Held
nothing_held s = record { session = s; terms = none; envelope = none }

-- The closure `fail` and the `return` behind it.
unfoldable pub fail_with : String → Session → ℕ → Ended
unfolding apply
fail_with reason s now = (
  Outcome.failed reason,
  nothing_held (apply s (Event.failed reason) now).0,
  Update.failed reason,
)

-- Of a grant: `none` where the chain holds no such grant, else what is outstanding.
unfoldable pub check_chain : Bool → Option Bytes → Result String Bool → Option (List String)
check_chain true (some tx) (ok true) = some ("open_file" ∷ [])
check_chain true (some tx) (ok false) = none
check_chain _ _ _ = some ("open_file" ∷ "owner_signature_check" ∷ [])

module _ (c : Primitives) (k : Forms) (a : Asking) where
  -- The `Granted` arm.
  unfoldable pub accept_grant :
      Permission → AccessGrantTerms → Option Bytes → Option Bytes → Round → Session → Ended
  unfolding check_chain fail_with apply struct_hash
  accept_grant p terms envelope tx r s =
      elim (check_chain a.has_chain tx (r.is_grant_valid (struct_hash c terms))) [
        | none ↦ fail_with "mismatch" s r.now
        | some outstanding ↦
            let (s', result) =
              apply s (Event.granted p terms.not_before terms.expiry terms.max_opens) r.now in
            elim result [
              | err e ↦ fail_with "window" s' r.now
              | ok fx ↦ (
                Outcome.granted p terms.expiry,
                record { session = s'; terms = some terms; envelope = envelope },
                Update.granted p terms.expiry outstanding,
              )
            ]
      ]

  -- The `match` on one message; `none` where it does not end the wait.
  unfoldable pub answer_ends : Answer → Round → Session → Option Ended
  unfolding accept_grant fail_with apply
  answer_ends not_ours r s = none
  answer_ends Answer.denied r s =
      some (Outcome.denied, nothing_held (apply s Event.denied r.now).0, Update.denied)
  answer_ends (mismatch what) r s = some (fail_with "mismatch" s r.now)
  answer_ends (Answer.granted p terms envelope tx) r s = some (accept_grant p terms envelope tx r s)

  -- The `for` over the inbox.
  unfoldable pub first_answer : List Envelope → Round → Session → Option Ended
  unfolding classify answer_ends
  first_answer [] r s = none
  first_answer (e ∷ es) r s =
      let rest = first_answer es r s in
      elim (answer_ends (classify k e a.nonce a.target a.our_key_hash) r s) [
        | none ↦ rest
        | some ended ↦ some ended
      ]

  abbrev pub envelopes_of : Result ClientError (List Envelope) → List Envelope
  envelopes_of (ok es) = es
  envelopes_of (err e) = []

  -- One round up to the sleep.
  unfoldable pub round : Round → Session → Option Ended
  unfolding first_answer apply
  round r s =
      if r.cancel
      then some (
        Outcome.cancelled,
        nothing_held (apply s (Event.failed "cancelled") r.now).0,
        Update.cancelled,
      )
      else if leb a.limits.give_up_after r.waited
      then some (Outcome.expired, nothing_held (apply s Event.expired r.now).0, Update.expired)
      else first_answer (envelopes_of r.inbox) r s

  -- Whether this round nudges: neither cancelled nor over, and not nudged before.
  unfoldable pub nudges : Bool → Round → Bool
  nudges nudged r =
      not r.cancel
      && (not (leb a.limits.give_up_after r.waited)
          && (not nudged && leb a.limits.nudge_after r.waited))

  -- The loop, with the updates in order; `none` where the rounds come to an end before the wait.
  unfoldable pub wait : Bool → List Round → Session → List Update × Option (Outcome × Held)
  unfolding round nudges
  wait nudged [] s = ([], none)
  wait nudged (r ∷ rs) s =
      let nudge_now = nudges nudged r in
      let (rest, ended) = wait (if nudge_now then true else nudged) rs s in
      let before : List Update = if nudge_now then nudge ∷ [] else [] in
      elim (round r s) [
        | some (outcome, held, update) ↦ (before ++ (update ∷ []), some (outcome, held))
        | none ↦ (before ++ rest, ended)
      ]

  -- `ask`: `announced` and `requested` are the relay's answers to the two calls before the loop, and
  -- `now` the clock at a failure of either.
  unfoldable pub ask :
      Result ClientError (Unit {0})
      → Result ClientError (Unit {0})
      → ℕ
      → List Round
      → List Update × Option (Outcome × Held)
  unfolding wait fail_with relay_problem new
  ask (err e) requested now rs =
      let (outcome, held, update) = fail_with (relay_problem e) new now in
      (update ∷ [], some (outcome, held))
  ask (ok u) (err e) now rs =
      let (outcome, held, update) = fail_with (relay_problem e) new now in
      (update ∷ [], some (outcome, held))
  ask (ok u) (ok v) now rs = let (updates, ended) = wait false rs new in (sent ∷ updates, ended)
