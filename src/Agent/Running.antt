-- ===== src/Agent/Running.antt =====
-- `run_session` of apps/agent/src-tauri/src/session.rs: the file is decrypted into the workspace and
-- shown, what the person saves becomes versions, and the session ends on whichever comes first. What
-- the viewer, the file system, the clock, the relay and the owner's side answer is an argument, a
-- record for each round of the loop.
pub mod Ending
pub mod Locking
pub mod Telling
pub mod Reported
mod Tests
use z_bacs.Prelude.{
  ℕ, Bool, true, false, if◌then◌else◌, Option, none, some, List, [], ◌∷◌, ◌++◌, any, leb, String,
  Result, ok, err,
}
use z_bacs.Prelude.Bytes.{Bytes}
use z_bacs.Session.{
  State, Permission, edit, Session, Event, viewer_exited, Effect, reseal, Outcome, apply,
}
use z_bacs.Proto.Messages.{VersionMsg}
use z_bacs.Core.External.{Suite}
use z_bacs.Core.Header as Headers
use z_bacs.Agent.Forms.{Forms}
use z_bacs.Agent.Request.Asking.{Held}
use z_bacs.Agent.Open as Opens
use z_bacs.Agent.Open.{Workspace, Disk, Materialised}
use z_bacs.Agent.Open.Materialising.{materialise, close}
use z_bacs.Agent.Open.Saving as Savings
use z_bacs.Agent.Open.Saving.{Saving, Saved, save}

pub data SaveEvent : Type 0 where
  saved vanished : SaveEvent

pub data End : Type 0 where
  closed revoked expired : End
  failed : String → End

-- What the webview is told; the path, the permission and the expiry are the same in all of a session.
pub record Update : Type 0 where
  pub phase : String
  pub version : Option ℕ
  pub problem : Option String

-- What the record of this machine is told: the kind, and the last argument.
pub record Noted : Type 0 where
  pub kind : String
  pub detail : Option String

-- The held grant, the container file, the workspace, the notices that the relay took, the updates,
-- and the notes in the record, oldest first. Only the session's own saves replace the file: that
-- another program does so between two rounds is not modelled.
pub record Room : Type 0 where
  pub held : Held
  pub sealed : Option Bytes
  pub workspace : Workspace
  pub sent : List VersionMsg
  pub updates : List Update
  pub noted : List Noted

-- What is the same in all of a session: the device's secrets, what the file system answers to the
-- opening, whether the viewer starts, whether there is a record, whether the workspace is there at
-- the end, and the clock at both.
pub record Machine : Type 0 where
  pub secret : Bytes
  pub signer : Bytes
  pub disk : Disk
  pub opened_at : ℕ
  pub launches : Bool
  pub audits : Bool
  pub exists : Bool
  pub ended_at : ℕ

-- What a round of the loop finds.
pub record Round : Type 0 where
  pub cancelled : Bool
  pub outside : Option State
  pub now : ℕ
  pub running : Option Bool
  pub event : Option SaveEvent
  pub saved_at : ℕ
  pub saving : Saving
  pub failed_at : ℕ

abbrev pub permission_word : Option Permission → String
permission_word (some edit) = "edit"
permission_word _ = "read_only"

abbrev pub expiry_of : Held → ℕ
expiry_of held = elim held.terms [ none ↦ 0 | some t ↦ t.expiry ]

abbrev pub report : String → Option ℕ → Option String → Room → Room
report phase version problem d = record d {
  updates = d.updates ++ (record { phase = phase; version = version; problem = problem } ∷ []);
}

-- `audit.record`, where there is a record.
abbrev pub note : Bool → String → Option String → Room → Room
note audits kind detail d = record d {
  noted = if audits then d.noted ++ (record { kind = kind; detail = detail } ∷ []) else d.noted;
}

abbrev pub with_session : Session → Room → Room
with_session s d = record d { held = record d.held { session = s } }

abbrev pub desk_of : Room → Savings.Desk
desk_of d = record { held = d.held; sealed = d.sealed; sent = d.sent }

abbrev pub with_desk : Savings.Desk → Room → Room
with_desk k d = record d { held = k.held; sealed = k.sealed; sent = k.sent }

abbrev pub is_reseal : Effect → Bool
is_reseal reseal = true
is_reseal _ = false

abbrev pub outside_end : Option State → Option End
outside_end (some State.revoked) = some End.revoked
outside_end (some State.closed) = some End.expired
outside_end _ = none

abbrev pub is_stopped : Option Bool → Bool
is_stopped (some false) = true
is_stopped _ = false

-- The tests at the head of the loop.
unfoldable pub asked_to_end : ℕ → Round → Option End
asked_to_end expiry w = if w.cancelled then some End.closed else elim (outside_end w.outside) [
  | some e ↦ some e
  | none ↦
      if leb expiry w.now
      then some End.expired
      else if is_stopped w.running
      then some End.closed
      else none
]

-- What becomes of a save's result.
unfoldable pub settle : Bool → ℕ → Result String Saved → Room → Room × Option End
unfolding apply
settle audits now (ok s) d =
    (report "resealed" (some s.ver) none (note audits "sealed" (some "resealed") d), none)
settle audits now (err e) d = (
  with_session (apply d.held.session (Event.failed e) now).0 (report "problem" none (some e) d),
  some (End.failed e),
)

unfoldable pub event_at_end : End → Event
event_at_end End.closed = viewer_exited
event_at_end End.revoked = Event.revoked
event_at_end End.expired = Event.expired
event_at_end (End.failed why) = Event.failed why

-- The last update and note.
unfoldable pub report_end : Bool → End → Room → Room
report_end audits End.closed d = report "closed" none none d
report_end audits End.revoked d = report "revoked" none none (note audits "revoked" none d)
report_end audits End.expired d = report "expired" none none (note audits "expired" none d)
report_end audits (End.failed why) d = report "problem" none (some why) d

-- `close`, whose result is not looked at.
unfoldable pub lock : Machine → Event → Room → Room
unfolding close
lock m e d =
    let after =
      (close m.disk m.exists m.ended_at e (record { held = d.held; workspace = d.workspace })).0 in
    record d { held = after.held; workspace = after.workspace }

module _ (c : Suite) (f : Headers.Forms) (k : Forms) (m : Machine) where
  -- `save`, by the device of this machine.
  unfoldable pub save_now : Round → Room → Room × Option End
  unfolding save settle
  save_now w d =
      let (desk, r) =
        save c f k (record w.saving { secret = m.secret; signer = m.signer }) (desk_of d) in
      settle m.audits w.failed_at r (with_desk desk d)

  -- What the session makes of a save.
  unfoldable pub offered : Round → Outcome → Room → Room × Option End
  unfolding save_now
  offered w (s, ok effects) d =
      if any is_reseal effects
      then save_now w (report "saved" none none (with_session s d))
      else (report "discarded" none none (with_session s d), none)
  offered w (s, err e) d = (with_session s d, none)

  unfoldable pub on_event : Round → Option SaveEvent → Room → Room × Option End
  unfolding offered apply
  on_event w (some SaveEvent.saved) d = offered w (apply d.held.session Event.saved w.saved_at) d
  on_event w (some SaveEvent.vanished) d = (d, none)
  on_event w none d = (d, none)

  unfoldable pub tick : ℕ → Round → Room → Room × Option End
  unfolding asked_to_end on_event
  tick expiry w d = elim (asked_to_end expiry w) [
    | some e ↦ (d, some e)
    | none ↦ on_event w w.event d
  ]

  -- The loop, with no end if the rounds are out before it ends.
  unfoldable pub loop : ℕ → List Round → Room → Room × Option End
  unfolding tick
  loop expiry [] d = (d, none)
  loop expiry (w ∷ ws) d = elim ((tick expiry w d).1) [
    | some e ↦ ((tick expiry w d).0, some e)
    | none ↦ loop expiry ws (tick expiry w d).0
  ]

  -- The steps behind the loop.
  unfoldable pub wind_up : Room × Option End → Room × Option End
  unfolding lock event_at_end report_end
  wind_up (d, none) = (d, none)
  wind_up (d, some e) = (report_end m.audits e (lock m (event_at_end e) d), some e)

  -- The steps behind `materialise`.
  unfoldable pub show : ℕ → String → List Round → Room → Room × Option End
  unfolding lock loop wind_up
  show expiry word ws d =
      if m.launches
      then wind_up
          (loop expiry ws (report "opened" none none (note m.audits "opened" (some word) d)))
      else (
        report "problem" none (some "no_viewer") (lock m (Event.failed "no_viewer") d),
        some (End.failed "no_viewer"),
      )

  unfoldable pub unpacked :
      ℕ → String → List Round → Opens.Desk × Result String Materialised → Room → Room × Option End
  unfolding show
  unpacked expiry word ws (desk, ok mat) d =
      show expiry word ws (record d { held = desk.held; workspace = desk.workspace })
  unpacked expiry word ws (desk, err e) d = (
    report "problem" none (some e) (record d { held = desk.held; workspace = desk.workspace }),
    some (End.failed e),
  )

  unfoldable pub run_session : List Round → Room → Room × Option End
  unfolding unpacked materialise
  run_session ws d =
      unpacked (expiry_of d.held) (permission_word d.held.session.permission) ws
        (materialise c f k (record m.disk { sealed = d.sealed }) m.opened_at m.secret
          (record { held = d.held; workspace = d.workspace }))
        d
