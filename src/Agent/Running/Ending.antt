-- ===== src/Agent/Running/Ending.antt =====
-- What a session of apps/agent/src-tauri/src/session.rs leaves of the plaintext.
use z_bacs.Prelude.{
  ℕ, not, ◌≡◌, refl, sym, ◌∙◌, ap, subst, Option, none, some, List, [], ◌∷◌, String, Result, ok,
  err, arith, ok_or, map_err,
}
use z_bacs.Prelude.Steps.{fail_if-cases, lift-cases, step-cases}
use z_bacs.Prelude.Bytes.{Bytes, bytes_beq}
use z_bacs.Session.{State, «open», resealing, Session, Effect, is_terminal}
use z_bacs.Session.Shown.{Offer, kept, dropped, apply-saved, apply-resealed, apply_live-failed}
use z_bacs.Proto.Grant.{AccessGrantTerms}
use z_bacs.Core.External.{Suite}
use z_bacs.Core.Header as Headers
use z_bacs.Core.Header.{Header}
use z_bacs.Agent.Forms.{Forms}
use z_bacs.Agent.Open.{held_key}
use z_bacs.Agent.Open.Saving.{
  Desk, Saving, Saved, is_resealing, first_envelope, inspected, reseal_step, announce_version, save,
}
use z_bacs.Agent.Running.{
  Machine, Round, Room, End, SaveEvent, asked_to_end, settle, with_session, with_desk, report,
  desk_of, save_now, offered, on_event, tick, loop,
}

-- A save leaves the held grant and the notices as they were, or the session open again.
pub data Keeps (before : Desk) : Desk × Result String Saved → Type 0 where
  same :
      {after : Desk} {e : String}
      → after.held ≡ before.held
      → after.sent ≡ before.sent
      → Keeps before (after, err e)
  reopened :
      {after : Desk} {o : Saved} → after.held.session.state ≡ «open» → Keeps before (after, ok o)

module _ (c : Suite) (f : Headers.Forms) (k : Forms) (w : Saving) where
  announce_version-Keeps :
      (t : AccessGrantTerms) (prev_hash : Bytes) (h : Header) (before d : Desk)
      → d.held ≡ before.held
      → d.sent ≡ before.sent
      → before.held.session.state ≡ resealing
      → Keeps before (announce_version c f k w t prev_hash h d)
  unfolding announce_version
  announce_version-Keeps t prev_hash h before d is told live =
      let now : d.held.session.state ≡ resealing = ap (λ x. x.session.state) is ∙ live in
      let p = Keeps before in
      fail_if-cases p (not w.reopens) "missing" _ d (λ _. same is told)
        (λ _.
          lift-cases p (inspected c f k w d) _ d (λ _. same is told)
            (λ again _.
              lift-cases p (first_envelope h.body.env) _ d (λ _. same is told)
                (λ mine _.
                  lift-cases p (map_err (λ x. "failed") (k.envelope.into_writer mine)) _ d
                    (λ _. same is told)
                    (λ env _.
                      fail_if-cases p (not w.sends) "relay_unreachable" _ d (λ _. same is told)
                        (λ _. reopened (apply-resealed d.held.session h.body.ver w.now now))))))

  pub save-Keeps : (d : Desk) → d.held.session.state ≡ resealing → Keeps d (save c f k w d)
  unfolding save reseal_step
  save-Keeps d live =
      let p = Keeps d in
      fail_if-cases p (not (is_resealing d.held.session.state)) "not_saving" _ d
        (λ _. same refl refl)
        (λ _.
          lift-cases p (ok_or d.held.terms "not_granted") _ d (λ _. same refl refl)
            (λ t _.
              lift-cases p (held_key c k w.secret t d.held.envelope) _ d (λ _. same refl refl)
                (λ dek _.
                  lift-cases p (inspected c f k w d) _ d (λ _. same refl refl)
                    (λ prev _.
                      fail_if-cases p (not (bytes_beq prev.1 t.header_hash)) "version" _ d
                        (λ _. same refl refl)
                        (λ _.
                          step-cases p (reseal_step c f k w dek prev.0) _ d
                            (λ s e h.
                              same (sym (ap (λ y. y.0.held) h)) (sym (ap (λ y. y.0.sent) h)))
                            (λ s h is.
                              announce_version-Keeps t prev.1 h d s (sym (ap (λ y. y.0.held) is))
                                (sym (ap (λ y. y.0.sent) is)) live))))))

-- The session's state when the loop ends so, and behind the steps at the end.
abbrev pub state_before : End → State
state_before (End.failed why) = State.failed
state_before _ = «open»

abbrev pub state_after : End → State
state_after End.closed = State.closed
state_after End.revoked = State.revoked
state_after End.expired = State.closed
state_after (End.failed why) = State.failed

-- In the loop: the workspace stays as it is, and the session is open until the end.
unfoldable pub Goes : Room → Room × Option End → Type 0
Goes before (d, none) = (d.workspace ≡ before.workspace) × (d.held.session.state ≡ «open»)
Goes before (d, some e) = (d.workspace ≡ before.workspace) × (d.held.session.state ≡ state_before e)

Goes-from :
    (d d' : Room) (r : Room × Option End) → d'.workspace ≡ d.workspace → Goes d' r → Goes d r
unfolding Goes
Goes-from d d' (x, none) is (h, l) = (h ∙ is, l)
Goes-from d d' (x, some e) is (h, l) = (h ∙ is, l)

asked_to_end-open :
    (expiry : ℕ) (w : Round) {e : End} → asked_to_end expiry w ≡ some e → state_before e ≡ «open»
unfolding asked_to_end
asked_to_end-open expiry w {e = End.failed why} h = absurd (ground arith)
asked_to_end-open expiry w {e = End.closed} h = refl
asked_to_end-open expiry w {e = End.revoked} h = refl
asked_to_end-open expiry w {e = End.expired} h = refl

module _ (c : Suite) (f : Headers.Forms) (k : Forms) (m : Machine) where
  settle-Goes :
      (now : ℕ) (before : Room) (desk : Desk) (r : Result String Saved) (before_save : Desk)
      → before_save.held.session.state ≡ resealing
      → Keeps before_save (desk, r)
      → Goes before (settle m.audits now r (with_desk desk before))
  unfolding settle Goes is_terminal
  settle-Goes now before desk r before_save live (reopened opens) = (refl, opens)
  settle-Goes now before desk r before_save live (same {e = e} held told) =
      let is = ap (λ x. x.session.state) held ∙ live in
      (refl, apply_live-failed desk.held.session e now (ap is_terminal is))

  save_now-Goes :
      (w : Round) (d : Room) → d.held.session.state ≡ resealing → Goes d (save_now c f k m w d)
  unfolding save_now
  save_now-Goes w d live =
      settle-Goes w.failed_at d _ _ (desk_of d) live (
        save-Keeps c f k (record w.saving { secret = m.secret; signer = m.signer }) (desk_of d)
          live)

  offered-Goes :
      (w : Round) (d : Room) {s' : Session} {fx : List Effect}
      → d.held.session.state ≡ «open»
      → Offer d.held.session s' fx
      → Goes d (offered c f k m w (s', ok fx) d)
  unfolding offered Goes
  offered-Goes w d live (kept s' is) =
      save_now-Goes w (report "saved" none none (with_session s' d)) is
  offered-Goes w d live dropped = (refl, live)

  on_event-Goes :
      (w : Round) (e : Option SaveEvent) (d : Room)
      → d.held.session.state ≡ «open»
      → Goes d (on_event c f k m w e d)
  unfolding on_event Goes
  on_event-Goes w none d live = (refl, live)
  on_event-Goes w (some SaveEvent.vanished) d live = (refl, live)
  on_event-Goes w (some SaveEvent.saved) d live =
      let (s', fx, is, o) = apply-saved d.held.session w.saved_at live in
      subst (λ x. Goes d (offered c f k m w x d)) (sym is) (offered-Goes w d live o)

  pub tick-Goes :
      (expiry : ℕ) (w : Round) (d : Room)
      → d.held.session.state ≡ «open»
      → Goes d (tick c f k m expiry w d)
  unfolding tick Goes
  tick-Goes expiry w d live = cases (asked_to_end expiry w) refl
    where
      cases :
          (a : Option End)
          → asked_to_end expiry w ≡ a
          → Goes d (elim a [ some e ↦ (d, some e) | none ↦ on_event c f k m w w.event d ])
      cases (some e) is = (refl, live ∙ sym (asked_to_end-open expiry w is))
      cases none is = on_event-Goes w w.event d live

  pub loop-Goes :
      (expiry : ℕ) (ws : List Round) (d : Room)
      → d.held.session.state ≡ «open»
      → Goes d (loop c f k m expiry ws d)
  unfolding loop Goes
  loop-Goes expiry [] d live = (refl, live)
  loop-Goes expiry (w ∷ ws) d live =
      cases (tick c f k m expiry w d) (tick-Goes expiry w d live) (loop-Goes expiry ws)
    where
      cases :
          (r : Room × Option End)
          → Goes d r
          → ((t : Room) → t.held.session.state ≡ «open» → Goes t (loop c f k m expiry ws t))
          → Goes d (elim r.1 [ some e ↦ (r.0, some e) | none ↦ loop c f k m expiry ws r.0 ])
      cases (d', some e) g rest = g
      cases (d', none) (is, live') rest =
          Goes-from d d' (loop c f k m expiry ws d') is (rest d' live')
