-- ===== src/Session.antt =====
-- crates/zbacs-session/src/state.rs: the session state machine. `apply` of the source mutates the
-- session and returns effects or an error, so the model returns the session beside the result.
-- Counters are u16 and u32; `opens += 1` is written with the wrap of a release build.
pub mod Transitions
pub mod Requested
pub mod Shown
pub mod Opens
pub mod Permissions
pub mod Plaintext
mod Tests
use z_bacs.Prelude.{
  ℕ, ◌+◌, ◌%◌, ◌^◌, Bool, true, false, not, ◌&&◌, Option, none, some, List, [], ◌∷◌, ◌++◌, String,
  Result, ok, err, ltb, leb, ◌==◌, if◌then◌else◌,
}

-- `zbacs_core::Permission`.
pub data Permission : Type 0 where
  deny read_only edit : Permission

pub data State : Type 0 where
  requested denied granted «open» resealing closed revoked failed : State

pub data Event : Type 0 where
  granted : Permission → ℕ → ℕ → ℕ → Event
  denied opened saved : Event
  resealed : ℕ → Event
  viewer_exited revoked expired : Event
  failed : String → Event

pub data AuditKind : Type 0 where
  requested denied opened sealed failed : AuditKind

pub data Notice : Type 0 where
  refused changes_discarded revoked_by_owner expired opens_exhausted resealed problem : Notice

pub data Effect : Type 0 where
  materialise_plaintext mark_read_only launch_viewer request_viewer_close reseal : Effect
  discard_changes wipe_workspace : Effect
  audit : AuditKind → Effect
  notify : Notice → Effect

pub data TransitionError : Type 0 where
  terminal : State → TransitionError
  unexpected : State → String → TransitionError
  not_yet_valid already_expired deny_is_not_a_grant : TransitionError

pub record Session : Type 0 where
  pub state : State
  pub permission : Option Permission
  pub not_before : ℕ
  pub expiry : ℕ
  pub max_opens : ℕ
  pub opens : ℕ
  pub version : Option ℕ
  pub dirty : Bool

unfoldable pub plaintext_allowed : State → Bool
plaintext_allowed «open» = true
plaintext_allowed resealing = true
plaintext_allowed _ = false

unfoldable pub is_terminal : State → Bool
is_terminal State.denied = true
is_terminal closed = true
is_terminal State.revoked = true
is_terminal State.failed = true
is_terminal _ = false

unfoldable pub new : Session
new = record {
  state = State.requested;
  permission = none;
  not_before = 0;
  expiry = 0;
  max_opens = 0;
  opens = 0;
  version = none;
  dirty = false;
}

unfoldable pub resume : Permission → ℕ → ℕ → ℕ → ℕ → Session
resume p not_before expiry max_opens opens = record {
  state = State.granted;
  permission = some p;
  not_before = not_before;
  expiry = expiry;
  max_opens = max_opens;
  opens = opens;
  version = none;
  dirty = false;
}

unfoldable pub is_expired : Session → ℕ → Bool
is_expired s now = elim s.permission [ none ↦ false | some p ↦ leb s.expiry now ]

unfoldable pub event_name : Event → String
event_name (Event.granted p b x m) = "Granted"
event_name Event.denied = "Denied"
event_name Event.opened = "Opened"
event_name saved = "Saved"
event_name (Event.resealed v) = "Resealed"
event_name viewer_exited = "ViewerExited"
event_name Event.revoked = "Revoked"
event_name Event.expired = "Expired"
event_name (Event.failed why) = "Failed"

abbrev pub Outcome : Type 0
Outcome = Session × Result TransitionError (List Effect)

abbrev pub is_deny : Permission → Bool
is_deny deny = true
is_deny _ = false

abbrev pub is_read_only : Option Permission → Bool
is_read_only (some read_only) = true
is_read_only _ = false

-- `(Requested, Granted)`.
on_granted : Session → Permission → ℕ → ℕ → ℕ → ℕ → Outcome
on_granted s p not_before expiry max_opens now =
    if is_deny p
    then (s, err deny_is_not_a_grant)
    else if ltb now not_before
    then (s, err not_yet_valid)
    else if leb expiry now
    then (s, err already_expired)
    else (
      record s {
        permission = some p;
        not_before = not_before;
        expiry = expiry;
        max_opens = max_opens;
        state = State.granted;
      },
      ok (materialise_plaintext ∷ []),
    )

-- `(Granted, Opened)`.
on_opened : Session → Outcome
on_opened s =
    if not (s.max_opens == 0) && leb s.max_opens s.opens
    then (record s { state = closed }, ok (wipe_workspace ∷ notify opens_exhausted ∷ []))
    else (
      record s { opens = (s.opens + 1) % 2 ^ 16; state = «open» },
      ok (
          (if is_read_only s.permission then mark_read_only ∷ [] else [])
          ++ (launch_viewer ∷ audit AuditKind.opened ∷ [])),
    )

-- `(Open, Saved)`, on the session's permission.
on_saved : Option Permission → Session → Outcome
on_saved (some edit) s = (record s { dirty = true; state = resealing }, ok (reseal ∷ []))
on_saved _ s = (s, ok (discard_changes ∷ notify changes_discarded ∷ []))

-- `(_, Revoked)`, `(_, Expired)` and `(_, Failed)`.
on_revoked : Session → Outcome
on_revoked s = (
  record s { dirty = false; state = State.revoked },
  ok (
      (if plaintext_allowed s.state then request_viewer_close ∷ wipe_workspace ∷ [] else [])
      ++ (notify revoked_by_owner ∷ [])),
)

on_expired : Session → Outcome
on_expired s = (
  record s { dirty = false; state = closed },
  ok (
      (if plaintext_allowed s.state then request_viewer_close ∷ wipe_workspace ∷ [] else [])
      ++ (notify Notice.expired ∷ [])),
)

on_failed : Session → Outcome
on_failed s = (
  record s { state = State.failed },
  ok (
      (if plaintext_allowed s.state then wipe_workspace ∷ [] else [])
      ++ (audit AuditKind.failed ∷ notify problem ∷ [])),
)

-- The `match (self.state, event)`.
transition : State → Event → Session → ℕ → Outcome
unfolding on_granted on_opened on_saved on_revoked on_expired on_failed plaintext_allowed
transition st Event.revoked s now = on_revoked s
transition st Event.expired s now = on_expired s
transition st (Event.failed why) s now = on_failed s
transition State.requested (Event.granted p b x m) s now = on_granted s p b x m now
transition State.requested Event.denied s now =
    (record s { state = State.denied }, ok (audit AuditKind.denied ∷ notify refused ∷ []))
transition State.granted Event.opened s now = on_opened s
transition «open» saved s now = on_saved s.permission s
transition resealing (Event.resealed v) s now = (
  record s { version = some v; dirty = false; state = «open» },
  ok (audit sealed ∷ notify Notice.resealed ∷ []),
)
transition «open» viewer_exited s now = (record s { state = closed }, ok (wipe_workspace ∷ []))
transition st e s now = (s, err (unexpected st (event_name e)))

unfoldable pub apply : Session → Event → ℕ → Outcome
unfolding transition is_terminal
apply s e now =
    if is_terminal s.state then (s, err (terminal s.state)) else transition s.state e s now

-- A history: the events offered, each with the clock at that moment.
abbrev pub History : Type 0
History = List (Event × ℕ)

abbrev pub effects_of : Result TransitionError (List Effect) → List Effect
effects_of (ok fx) = fx
effects_of (err e) = []

-- The session after a history.
pub run : Session → History → Session
run s [] = s
run s ((e, now) ∷ h) = run (apply s e now).0 h

-- All effects that a history asks for, in order.
pub effects : Session → History → List Effect
effects s [] = []
effects s ((e, now) ∷ h) = effects_of (apply s e now).1 ++ effects (apply s e now).0 h
