-- ===== src/Agent/Running/Locking.antt =====
-- The end of a session of apps/agent/src-tauri/src/session.rs, and what is left of the plaintext.
use z_bacs.Prelude.{
  ℕ, Bool, true, false, if◌then◌else◌, ◌≡◌, refl, ◌∙◌, ap, subst, Option, none, some, List, String,
  Result, ok, err, Bool-cases, inl, inr,
}
use z_bacs.Session.{State, «open», Session, Event, Effect, TransitionError, apply}
use z_bacs.Session.Shown.{apply_failed-refused, Closes, exited, apply-Closes}
use z_bacs.Core.External.{Suite}
use z_bacs.Core.Header as Headers
use z_bacs.Agent.Forms.{Forms}
use z_bacs.Agent.Open as Opens
use z_bacs.Agent.Open.{Workspace, Materialised}
use z_bacs.Agent.Open.Materialising.{materialise, close, offer, wiped}
use z_bacs.Agent.Open.Endings.{materialise-Ends, Ends}
use z_bacs.Agent.Running.{
  Machine, Round, Room, End, closed, revoked, expired, failed, expiry_of, permission_word,
  event_at_end, report_end, lock, report, note, loop, wind_up, show, unpacked, run_session,
}
use z_bacs.Agent.Running.Ending.{Goes, loop-Goes, state_before, state_after}

-- The workspace behind the wipe at the end of a session.
abbrev pub left : Machine → Workspace → Workspace
left m w = if m.exists then wiped m.disk w else w

lock-ok :
    (m : Machine) (e : Event) (d : Room) {s : Session} {fx : List Effect}
    → apply d.held.session e m.ended_at ≡ (s, ok fx)
    → ((lock m e d).workspace ≡ left m d.workspace) × ((lock m e d).held.session ≡ s)
unfolding lock close offer
lock-ok m e d h = elim (Bool-cases m.exists) [
  | inl is ↦ elim (Bool-cases m.disk.wipes) [
    | inl wipes ↦ rw (lock, h, is, wipes) (refl, ap (λ y. y.0) h)
    | inr stays ↦ rw (lock, h, is, stays) (refl, ap (λ y. y.0) h)
  ]
  | inr is ↦ rw (lock, h, is) (refl, ap (λ y. y.0) h)
]

lock-refused :
    (m : Machine) (e : Event) (d : Room) {s : Session} {x : TransitionError}
    → apply d.held.session e m.ended_at ≡ (s, err x)
    → ((lock m e d).workspace ≡ d.workspace) × ((lock m e d).held.session ≡ s)
unfolding lock close offer
lock-refused m e d h = rw (lock, h) (refl, ap (λ y. y.0) h)

report_end-same :
    (b : Bool) (e : End) (d : Room)
    → ((report_end b e d).workspace ≡ d.workspace) × ((report_end b e d).held ≡ d.held)
unfolding report_end
report_end-same b closed d = (refl, refl)
report_end-same b revoked d = (refl, refl)
report_end-same b expired d = (refl, refl)
report_end-same b (failed why) d = (refl, refl)

-- How a session ends: before the file is shown, in the loop, or not yet.
module _ (c : Suite) (f : Headers.Forms) (k : Forms) (m : Machine) (before : Room) where
  -- The file is in the workspace.
  pub record Unpacked (desk : Opens.Desk) : Type 0 where
    pub mat : Materialised
    pub unpacked :
        materialise c f k
          (record m.disk { sealed = before.sealed })
          m.opened_at
          m.secret
          (record { held = before.held; workspace = before.workspace })
        ≡ (desk, ok mat)

  pub data Finishes : Room × Option End → Type 0 where
    not_opened :
        (after : Room) (desk : Opens.Desk) (why : String)
        → materialise c f k
            (record m.disk { sealed = before.sealed })
            m.opened_at
            m.secret
            (record { held = before.held; workspace = before.workspace })
          ≡ (desk, err why)
        → after.workspace ≡ desk.workspace
        → Finishes (after, some (failed why))
    not_shown :
        (after : Room) (desk : Opens.Desk)
        → Unpacked desk
        → m.launches ≡ false
        → after.workspace ≡ left m desk.workspace
        → after.held.session.state ≡ State.failed
        → Finishes (after, some (failed "no_viewer"))
    still_open :
        (after : Room) (desk : Opens.Desk)
        → Unpacked desk
        → m.launches ≡ true
        → after.workspace ≡ desk.workspace
        → after.held.session.state ≡ «open»
        → Finishes (after, none)
    locked :
        (after : Room) (desk : Opens.Desk) (e : End)
        → Unpacked desk
        → m.launches ≡ true
        → state_before e ≡ «open»
        → after.workspace ≡ left m desk.workspace
        → after.held.session.state ≡ state_after e
        → Finishes (after, some e)
    save_failed :
        (after : Room) (desk : Opens.Desk) (why : String)
        → Unpacked desk
        → m.launches ≡ true
        → after.workspace ≡ desk.workspace
        → after.held.session.state ≡ State.failed
        → Finishes (after, some (failed why))

  Unpacked-open : (desk : Opens.Desk) → Unpacked desk → desk.held.session.state ≡ «open»
  Unpacked-open desk u =
      let ends =
        materialise-Ends c f k (record m.disk { sealed = before.sealed }) m.secret m.opened_at
          (record { held = before.held; workspace = before.workspace }) in
      let opens =
        subst
          (Ends c f k (record m.disk { sealed = before.sealed }) m.secret
            (record { held = before.held; workspace = before.workspace }))
          u.unpacked ends in
      ap (λ x. x.state) opens.session_is

  locks :
      (desk : Opens.Desk) (d : Room) (e : End)
      → Unpacked desk
      → m.launches ≡ true
      → Closes (event_at_end e) (state_after e)
      → state_before e ≡ «open»
      → d.workspace ≡ desk.workspace
      → d.held.session.state ≡ state_before e
      → Finishes (report_end m.audits e (lock m (event_at_end e) d), some e)
  locks desk d e u shows ends opens same is =
      let (s', fx, took, state) = apply-Closes d.held.session m.ended_at ends (is ∙ opens) in
      let (ws, session) = lock-ok m (event_at_end e) d took in
      let (ws', held) = report_end-same m.audits e (lock m (event_at_end e) d) in
      locked (report_end m.audits e (lock m (event_at_end e) d)) desk e u shows opens
        (ws' ∙ (ws ∙ ap (left m) same))
        (ap (λ x. x.session.state) held ∙ (ap (λ x. x.state) session ∙ state))

  wind_up-Finishes :
      (desk : Opens.Desk) (d : Room) (r : Room × Option End)
      → Unpacked desk
      → m.launches ≡ true
      → d.workspace ≡ desk.workspace
      → Goes d r
      → Finishes (wind_up c f k m r)
  unfolding wind_up Goes event_at_end
  wind_up-Finishes desk d (x, none) u shows same (ws, is) = still_open x desk u shows (ws ∙ same) is
  wind_up-Finishes desk d (x, some closed) u shows same (ws, is) =
      locks desk x closed u shows exited refl (ws ∙ same) is
  wind_up-Finishes desk d (x, some revoked) u shows same (ws, is) =
      locks desk x revoked u shows Closes.revoked refl (ws ∙ same) is
  wind_up-Finishes desk d (x, some expired) u shows same (ws, is) =
      locks desk x expired u shows Closes.expired refl (ws ∙ same) is
  wind_up-Finishes desk d (x, some (failed why)) u shows same (ws, is) =
      let e = Event.failed why in
      let (ws', session) =
        lock-refused m e x (apply_failed-refused x.held.session e m.ended_at is) in
      let (ws'', held) = report_end-same m.audits (failed why) (lock m e x) in
      save_failed (report_end m.audits (failed why) (lock m e x)) desk why u shows
        (ws'' ∙ (ws' ∙ (ws ∙ same)))
        (ap (λ x. x.session.state) held ∙ (ap (λ x. x.state) session ∙ is))

  shown-Finishes :
      (expiry : ℕ) (word : String) (ws : List Round) (desk : Opens.Desk) (d : Room)
      → Unpacked desk
      → d.workspace ≡ desk.workspace
      → d.held ≡ desk.held
      → Finishes (show c f k m expiry word ws d)
  unfolding show event_at_end
  shown-Finishes expiry word ws desk d u same held = cases m.launches refl
    where
      open_now : d.held.session.state ≡ «open»
      open_now = ap (λ x. x.session.state) held ∙ Unpacked-open desk u

      cases :
          (b : Bool)
          → m.launches ≡ b
          → Finishes (
              if b
              then wind_up c f k m (
                  loop c f k m expiry ws
                    (report "opened" none none (note m.audits "opened" (some word) d)))
              else (
                report "problem" none (some "no_viewer") (lock m (Event.failed "no_viewer") d),
                some (End.failed "no_viewer"),
              ))
      cases true shows =
          wind_up-Finishes desk (report "opened" none none (note m.audits "opened" (some word) d)) _
            u shows same
            (loop-Goes c f k m expiry ws
              (report "opened" none none (note m.audits "opened" (some word) d)) open_now)
      cases false hides =
          let (s, fx, took, state) =
            apply-Closes d.held.session m.ended_at (Closes.failed "no_viewer") open_now in
          let (ws', session) = lock-ok m (Event.failed "no_viewer") d took in
          not_shown (report "problem" none (some "no_viewer") (lock m (Event.failed "no_viewer") d))
            desk u hides (ws' ∙ ap (left m) same) (ap (λ x. x.state) session ∙ state)

  -- However a session ends: a file that cannot be opened leaves the workspace as the open step does.
  -- Behind a successful open step, the workspace stays as it is while the session goes on, which is
  -- then open. It is wiped, where it is there and the wipe works, when the viewer does not start and
  -- when the session ends on the viewer, on the person, on a revocation or on its expiry, and the
  -- session is then failed, closed or revoked as the end says. When a save fails, the session is
  -- failed and the plaintext stays in the workspace, whatever the wipe would have done.
  pub run_session-Finishes : (ws : List Round) → Finishes (run_session c f k m ws before)
  unfolding run_session unpacked
  run_session-Finishes ws =
      cases
        (materialise c f k (record m.disk { sealed = before.sealed }) m.opened_at m.secret
          (record { held = before.held; workspace = before.workspace }))
        refl
    where
      cases :
          (r : Opens.Desk × Result String Materialised)
          → materialise c f k
              (record m.disk { sealed = before.sealed })
              m.opened_at
              m.secret
              (record { held = before.held; workspace = before.workspace })
            ≡ r
          → Finishes (
              unpacked c f k m
                (expiry_of before.held)
                (permission_word before.held.session.permission)
                ws
                r
                before)
      cases (desk, err why) is =
          not_opened
            (report "problem" none (some why)
              (record before { held = desk.held; workspace = desk.workspace }))
            desk why is refl
      cases (desk, ok mat) is =
          shown-Finishes (expiry_of before.held) (permission_word before.held.session.permission) ws
            desk (record before { held = desk.held; workspace = desk.workspace })
            (record { mat = mat; unpacked = is }) refl refl
