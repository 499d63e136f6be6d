-- ===== src/Session/Requested.antt =====
-- What a session of crates/zbacs-session/src/state.rs does in `Requested`, in `Granted` and until it ends.
use z_bacs.Prelude.{
  ℕ, ◌≤◌, ◌<◌, Bool, ◌+◌, ◌%◌, ◌^◌, ◌⊎◌, inl, inr, [], ◌∷◌, ◌++◌, if◌then◌else◌, false, some, ◌≡◌,
  refl, List, ok, err, String, arith, true, any,
}
use z_bacs.Session.{
  Permission, deny, State, closed, Event, Session, Effect, TransitionError, is_terminal, on_granted,
  «open», AuditKind, launch_viewer, mark_read_only, audit, is_read_only, on_opened, on_revoked,
  on_expired, on_failed, transition, apply, wipe_workspace,
}

module _ (s : Session) (now : ℕ) (st : s.state ≡ State.requested) where
  pub apply-failed : (why : String) → (apply s (Event.failed why) now).0.state ≡ State.failed
  unfolding apply transition on_failed is_terminal
  apply-failed why = rw st refl

  pub apply-expired : (apply s Event.expired now).0.state ≡ closed
  unfolding apply transition on_expired is_terminal
  apply-expired = rw st refl

  pub apply-denied : (apply s Event.denied now).0.state ≡ State.denied
  unfolding apply transition is_terminal
  apply-denied = rw st refl

  pub apply-granted :
      (p : Permission) (b x m : ℕ) {s' : Session} {fx : List Effect}
      → apply s (Event.granted p b x m) now ≡ (s', ok fx)
      → (s'.state ≡ State.granted)
        × (s'.permission ≡ some p)
        × (s'.expiry ≡ x)
        × (s'.opens ≡ s.opens)
        × (b ≤ now)
        × (now < x)
  unfolding apply transition on_granted is_terminal
  apply-granted deny b x m h = absurd (ground arith)
  apply-granted p b x m h = ground arith

  pub apply-not_granted :
      (p : Permission) (b x m : ℕ) {s' : Session} {e : TransitionError}
      → apply s (Event.granted p b x m) now ≡ (s', err e)
      → s' ≡ s
  unfolding apply transition on_granted is_terminal
  apply-not_granted p b x m h = ground arith

-- A session that has not ended, when the owner revokes and when the window closes.
module _ (s : Session) (now : ℕ) (live : is_terminal s.state ≡ false) where
  pub apply_live-revoked : (apply s Event.revoked now).0.state ≡ State.revoked
  unfolding apply transition on_revoked
  apply_live-revoked = rw live refl

  pub apply_live-expired : (apply s Event.expired now).0.state ≡ closed
  unfolding apply transition on_expired
  apply_live-expired = rw live refl

abbrev pub is_wipe : Effect → Bool
is_wipe wipe_workspace = true
is_wipe _ = false

-- The session once `Opened` is taken.
abbrev pub counted : Session → Session
counted s = record s { opens = (s.opens + 1) % 2 ^ 16; state = «open» }

abbrev pub opening : Bool → List Effect
opening ro =
    (if ro then mark_read_only ∷ [] else []) ++ (launch_viewer ∷ audit AuditKind.opened ∷ [])

-- An open that the budget has left.
abbrev pub Left : Session → Type 0
Left s = (s.max_opens ≡ 0) ⊎ (s.opens < s.max_opens)

pub apply-opened :
    (s : Session) (now : ℕ)
    → s.state ≡ State.granted
    → Left s
    → apply s Event.opened now ≡ (counted s, ok (opening (is_read_only s.permission)))
unfolding apply transition on_opened is_terminal
apply-opened s now st (inl free) = rw (st, free) refl
apply-opened s now st (inr more) = ground arith

pub apply-opened_ok :
    (s : Session) (now : ℕ) {s' : Session} {fx : List Effect}
    → s.state ≡ State.granted
    → apply s Event.opened now ≡ (s', ok fx)
    → any is_wipe fx ≡ false
    → Left s × (s' ≡ counted s) × (fx ≡ opening (is_read_only s.permission))
unfolding apply transition on_opened is_terminal
apply-opened_ok s now st h kept = ground arith
