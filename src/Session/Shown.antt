-- ===== src/Session/Shown.antt =====
-- What a session of crates/zbacs-session/src/state.rs does while its file is shown, and at its end.
use z_bacs.Prelude.{
  ℕ, false, ap, ◌∙◌, if◌then◌else◌, List, [], ◌∷◌, ◌≡◌, refl, ok, err, String, Option, none, some,
}
use z_bacs.Session.{
  State, «open», resealing, Permission, edit, read_only, deny, Session, Event, viewer_exited,
  Effect, reseal, discard_changes, notify, changes_discarded, terminal, is_terminal, on_saved,
  on_revoked, on_expired, on_failed, transition, apply,
}

-- What a save in an open session comes to: the resealing, or nothing.
pub data Offer (s : Session) : Session → List Effect → Type 0 where
  kept : (s' : Session) → s'.state ≡ resealing → Offer s s' (reseal ∷ [])
  dropped : Offer s s (discard_changes ∷ notify changes_discarded ∷ [])

on_saved-Offer :
    (p : Option Permission) (s : Session)
    → (s' : Session) × (fx : List Effect) × (on_saved p s ≡ (s', ok fx)) × Offer s s' fx
unfolding on_saved
on_saved-Offer (some edit) s = (_, _, refl, kept _ refl)
on_saved-Offer (some read_only) s = (_, _, refl, dropped)
on_saved-Offer (some deny) s = (_, _, refl, dropped)
on_saved-Offer none s = (_, _, refl, dropped)

apply-at :
    (s : Session) (e : Event) (now : ℕ) {st : State}
    → s.state ≡ st
    → is_terminal st ≡ false
    → apply s e now ≡ transition st e s now
unfolding apply
apply-at s e now {st = st} is live =
    ap (λ x. if is_terminal x then (s, err (terminal x)) else transition x e s now) is
    ∙ ap (λ b. if b then (s, err (terminal st)) else transition st e s now) live

pub apply-saved :
    (s : Session) (now : ℕ)
    → s.state ≡ «open»
    → (s' : Session) × (fx : List Effect) × (apply s Event.saved now ≡ (s', ok fx)) × Offer s s' fx
unfolding apply transition is_terminal
apply-saved s now st =
    let (s', fx, is, o) = on_saved-Offer s.permission s in
    (s', fx, apply-at s Event.saved now st refl ∙ is, o)

pub apply-resealed :
    (s : Session) (v now : ℕ)
    → s.state ≡ resealing
    → (apply s (Event.resealed v) now).0.state ≡ «open»
unfolding apply transition is_terminal
apply-resealed s v now st = rw st refl

pub apply_live-failed :
    (s : Session) (why : String) (now : ℕ)
    → is_terminal s.state ≡ false
    → (apply s (Event.failed why) now).0.state ≡ State.failed
unfolding apply transition on_failed
apply_live-failed s why now live = rw live refl

pub apply_failed-refused :
    (s : Session) (e : Event) (now : ℕ)
    → s.state ≡ State.failed
    → apply s e now ≡ (s, err (terminal State.failed))
unfolding apply is_terminal
apply_failed-refused s e now st = rw st refl

-- The events that end an open session.
pub data Closes : Event → State → Type 0 where
  exited : Closes viewer_exited State.closed
  revoked : Closes Event.revoked State.revoked
  expired : Closes Event.expired State.closed
  failed : (why : String) → Closes (Event.failed why) State.failed

transition-Closes :
    {e : Event} {st : State} (s : Session) (now : ℕ)
    → Closes e st
    → (s' : Session) × (fx : List Effect) × (transition «open» e s now ≡ (s', ok fx))
      × (s'.state ≡ st)
unfolding transition on_revoked on_expired on_failed
transition-Closes s now exited = (_, _, refl, refl)
transition-Closes s now Closes.revoked = (_, _, refl, refl)
transition-Closes s now Closes.expired = (_, _, refl, refl)
transition-Closes s now (Closes.failed why) = (_, _, refl, refl)

pub apply-Closes :
    {e : Event} {st : State} (s : Session) (now : ℕ)
    → Closes e st
    → s.state ≡ «open»
    → (s' : Session) × (fx : List Effect) × (apply s e now ≡ (s', ok fx)) × (s'.state ≡ st)
unfolding is_terminal
apply-Closes {e = e} s now c is =
    let (s', fx, goes, ends) = transition-Closes s now c in
    (s', fx, apply-at s e now is refl ∙ goes, ends)
