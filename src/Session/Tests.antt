-- ===== src/Session/Tests.antt =====
-- Runs of the session machine at concrete inputs, after crates/zbacs-session/tests/session.rs.
use z_bacs.Prelude.{ℕ, ◌+◌, ◌-◌, ◌≤◌, List, true, false, none, some, [], ◌∷◌, ◌≡◌, refl, err, arith}
use z_bacs.Session.{
  Permission, read_only, edit, State, closed, resealing, Event, saved, viewer_exited,
  materialise_plaintext, mark_read_only, launch_viewer, wipe_workspace, audit, AuditKind, notify,
  Notice, new, resume, apply, History, run, effects, discard_changes, terminal, unexpected,
  transition, is_terminal, plaintext_allowed, event_name,
}
use z_bacs.Session.Opens.{launches, lives, lives-le-budget}
use z_bacs.Session.Permissions.{IsReadOnly, resume-IsReadOnly}
use z_bacs.Session.Plaintext.{perform, shown_session_wiped, granted_session_not_wiped}

abbrev now : ℕ
now = 1_700_000_000

abbrev grant : Permission → ℕ → Event
grant p m = Event.granted p (now - 10) (now + 3600) m

abbrev read_only_life : History
read_only_life =
    (grant read_only 1, now) ∷ (Event.opened, now) ∷ (saved, now) ∷ (viewer_exited, now) ∷ []

abbrev edit_life : History
edit_life =
    (grant edit 2, now)
    ∷ (Event.opened, now)
    ∷ (saved, now)
    ∷ (Event.resealed 2, now)
    ∷ (Event.revoked, now)
    ∷ []

read_only_life-effects :
    effects new read_only_life
    ≡ materialise_plaintext
      ∷ mark_read_only
      ∷ launch_viewer
      ∷ audit AuditKind.opened
      ∷ discard_changes
      ∷ notify Notice.changes_discarded
      ∷ wipe_workspace
      ∷ []
unfolding effects apply transition new
read_only_life-effects = refl

edit_life_ends :
    run new edit_life
    ≡ record (resume edit (now - 10) (now + 3600) 2 1) { state = State.revoked; version = some 2 }
unfolding run apply new resume
edit_life_ends = refl

late_saved : (apply (run new read_only_life) saved now).1 ≡ err (terminal closed)
unfolding run apply new
late_saved = refl

too_early : (apply new viewer_exited now).1 ≡ err (unexpected State.requested "ViewerExited")
unfolding apply new event_name
too_early = refl

abbrev three_lives : List History
three_lives = open_once ∷ open_once ∷ open_once ∷ []
  where
    open_once : History
    open_once = (Event.opened, now) ∷ (viewer_exited, now) ∷ []

lives_run : lives edit 0 (now + 9) 2 0 three_lives ≡ 2
unfolding lives launches effects apply run resume
lives_run = refl

lives-le-budget_example : lives edit 0 (now + 9) 2 0 three_lives + 0 ≤ 2
lives-le-budget_example =
    lives-le-budget edit 0 (now + 9) 2 0 three_lives (omega arith) (omega arith) (omega arith)

resume-IsReadOnly_example :
    IsReadOnly (effects (resume read_only 0 9 1 0) read_only_life)
    × ((run (resume read_only 0 9 1 0) read_only_life).version ≡ none)
resume-IsReadOnly_example = resume-IsReadOnly 0 9 1 0 read_only_life

shown_session_wiped_example :
    perform true (effects (record new { state = resealing }) edit_life) ≡ false
shown_session_wiped_example =
    shown_session_wiped (record new { state = resealing }) edit_life true
      (unfold plaintext_allowed in refl) (unfold run apply is_terminal new in refl)

granted_session_not_wiped_example :
    perform true (effects (resume edit 0 9 1 0) ((Event.revoked, 5) ∷ edit_life)) ≡ true
granted_session_not_wiped_example =
    granted_session_not_wiped (resume edit 0 9 1 0) Event.revoked 5 edit_life
      (unfold resume in refl) tt
