-- ===== src/Session/Transitions.antt =====
-- Which changes of state `Session::apply` makes, and when it refuses.
use z_bacs.Prelude.{
  ℕ, ◌≤◌, ◌<◌, true, false, some, [], ◌∷◌, ◌≡◌, ◌≢◌, refl, sym, ◌↔◌, ◌⊎◌, ◌∙◌, Option, inl, inr,
  arith, IsOk, Bool-cases,
}
use z_bacs.Session.{
  Permission, deny, read_only, edit, State, closed, «open», resealing, Event, saved, viewer_exited,
  Session, is_terminal, new, on_granted, on_opened, on_saved, transition, apply, History, run,
  effects,
}

-- The diagram of the states that a session moves through.
pub data Edge (st st' : State) : Type 0 where
  grants : st ≡ State.requested → st' ≡ State.granted → Edge st st'
  denies : st ≡ State.requested → st' ≡ State.denied → Edge st st'
  opens : st ≡ State.granted → st' ≡ «open» → Edge st st'
  exhausts : st ≡ State.granted → st' ≡ closed → Edge st st'
  saves : st ≡ «open» → st' ≡ resealing → Edge st st'
  discards : st ≡ «open» → st' ≡ «open» → Edge st st'
  reseals : st ≡ resealing → st' ≡ «open» → Edge st st'
  closes : st ≡ «open» → st' ≡ closed → Edge st st'
  revokes : is_terminal st ≡ false → st' ≡ State.revoked → Edge st st'
  expires : is_terminal st ≡ false → st' ≡ closed → Edge st st'
  fails : is_terminal st ≡ false → st' ≡ State.failed → Edge st st'

on_granted-ok :
    (s : Session) (p : Permission) (b x m now : ℕ)
    → IsOk (on_granted s p b x m now).1
    → (on_granted s p b x m now).0.state ≡ State.granted
unfolding on_granted
on_granted-ok s p b x m now h = ground arith

on_opened-state :
    (s : Session) → ((on_opened s).0.state ≡ closed) ⊎ ((on_opened s).0.state ≡ «open»)
unfolding on_opened
on_opened-state s = ground arith

on_opened-Edge : (s : Session) → Edge State.granted (on_opened s).0.state
on_opened-Edge s = elim (on_opened-state s) [ inl e ↦ exhausts refl e | inr e ↦ opens refl e ]

on_saved-state :
    (p : Option Permission) (s : Session)
    → ((on_saved p s).0.state ≡ resealing) ⊎ ((on_saved p s).0.state ≡ s.state)
unfolding on_saved
on_saved-state p s = ground arith

on_saved-Edge : (s : Session) → s.state ≡ «open» → Edge «open» (on_saved s.permission s).0.state
on_saved-Edge s o = elim (on_saved-state s.permission s) [
  | inl e ↦ saves refl e
  | inr e ↦ discards refl (e ∙ o)
]

transition-Edge :
    (st : State) (e : Event) (s : Session) (now : ℕ)
    → s.state ≡ st
    → is_terminal st ≡ false
    → IsOk (transition st e s now).1
    → Edge st (transition st e s now).0.state
unfolding transition is_terminal
transition-Edge st Event.revoked s now e l h = revokes l refl
transition-Edge st Event.expired s now e l h = expires l refl
transition-Edge st (Event.failed why) s now e l h = fails l refl
transition-Edge State.requested (Event.granted p b x m) s now e l h =
    grants refl (on_granted-ok s p b x m now h)
transition-Edge State.requested Event.denied s now e l h = denies refl refl
transition-Edge State.granted Event.opened s now e l h = on_opened-Edge s
transition-Edge «open» saved s now e l h = on_saved-Edge s e
transition-Edge resealing (Event.resealed v) s now e l h = reseals refl refl
transition-Edge «open» viewer_exited s now e l h = closes refl refl
transition-Edge st ev s now e l h = absurd h

-- Every event that a session accepts moves it along an edge of the diagram.
apply-Edge :
    (s : Session) (e : Event) (now : ℕ)
    → IsOk (apply s e now).1
    → Edge s.state (apply s e now).0.state
unfolding apply
apply-Edge s e now h = elim (Bool-cases (is_terminal s.state)) [
  | inl over ↦ absurd (rw over at h)
  | inr live ↦ rw live (transition-Edge s.state e s now refl live (rw live at h))
]

transition-refused :
    (st : State) (e : Event) (s : Session) (now : ℕ)
    → ¬ IsOk (transition st e s now).1
    → (transition st e s now).0 ≡ s
unfolding transition on_granted on_opened on_saved
transition-refused State.requested _ s now h = ground arith
transition-refused State.granted _ s now h = ground arith
transition-refused resealing _ s now h = ground arith
transition-refused _ _ s now h = ground arith

-- An event that is refused changes nothing.
pub apply-refused :
    (s : Session) (e : Event) (now : ℕ) → ¬ IsOk (apply s e now).1 → (apply s e now).0 ≡ s
unfolding apply
apply-refused s e now h = elim (Bool-cases (is_terminal s.state)) [
  | inl over ↦ rw over
  | inr live ↦ rw live (transition-refused s.state e s now (rw live at h))
]

-- An `Edit` session in a given state; opens are unlimited unless an open has been used.
abbrev pub at_state : State → ℕ → Session
at_state st n = record new { state = st; permission = some edit; max_opens = n; opens = n }

abbrev pub Taken : State → State → Type 0
Taken st st' =
    (s : Session) × (e : Event) × (s.state ≡ st)
    × IsOk (apply s e 0).1
    × ((apply s e 0).0.state ≡ st')

-- Each edge is taken: some session at its start accepts an event that leads to its end.
pub Edge-Taken : {st st' : State} → Edge st st' → Taken st st'
unfolding apply transition on_granted on_opened on_saved is_terminal new
Edge-Taken (grants a b) = (at_state State.requested 0, Event.granted edit 0 1 0, sym a, tt, sym b)
Edge-Taken (denies a b) = (at_state State.requested 0, Event.denied, sym a, tt, sym b)
Edge-Taken (opens a b) = (at_state State.granted 0, Event.opened, sym a, tt, sym b)
Edge-Taken (exhausts a b) = (at_state State.granted 1, Event.opened, sym a, tt, sym b)
Edge-Taken (saves a b) = (at_state «open» 0, saved, sym a, tt, sym b)
Edge-Taken (discards a b) =
    (record (at_state «open» 0) { permission = some read_only }, saved, sym a, tt, sym b)
Edge-Taken (reseals a b) = (at_state resealing 0, Event.resealed 2, sym a, tt, sym b)
Edge-Taken (closes a b) = (at_state «open» 0, viewer_exited, sym a, tt, sym b)
Edge-Taken {st} (revokes l b) =
    (at_state st 0, Event.revoked, refl, rw (l, apply) tt, rw (l, apply) (sym b))
Edge-Taken {st} (expires l b) =
    (at_state st 0, Event.expired, refl, rw (l, apply) tt, rw (l, apply) (sym b))
Edge-Taken {st} (fails l b) =
    (at_state st 0, Event.failed "", refl, rw (l, apply) tt, rw (l, apply) (sym b))

-- A grant is accepted exactly if it is no `Deny` and the clock is inside its window.
pub granted-IsOk_iff :
    (s : Session) (p : Permission) (b x m now : ℕ)
    → s.state ≡ State.requested
    → IsOk (apply s (Event.granted p b x m) now).1 ↔ ((p ≢ deny) × (b ≤ now) × (now < x))
unfolding apply transition on_granted is_terminal
granted-IsOk_iff s deny b x m now e = (ground arith, ground arith)
granted-IsOk_iff s p b x m now e = (ground arith, ground arith)

-- A session that has ended stays as it is and asks for nothing, whatever is offered to it.
pub run_terminal :
    (s : Session) (h : History) → is_terminal s.state ≡ true → (run s h ≡ s) × (effects s h ≡ [])
unfolding run effects apply
run_terminal s [] e = (refl, refl)
run_terminal s ((ev, now) ∷ h) e = rw e (run_terminal s h e)
