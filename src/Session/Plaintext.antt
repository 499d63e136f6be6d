-- ===== src/Session/Plaintext.antt =====
-- Plaintext on disk, as an Agent that carries out the effects in order leaves it.
use z_bacs.Prelude.{
  ℕ, Bool, true, false, [], ◌∷◌, ◌++◌, List, ◌≡◌, refl, arith, Bool-cases, inl, inr,
}
use z_bacs.Session.{
  State, «open», resealing, Event, Effect, materialise_plaintext, wipe_workspace, Session,
  is_terminal, plaintext_allowed, on_granted, on_opened, on_saved, transition, apply, History, run,
  effects, effects_of,
}
use z_bacs.Session.Transitions.{run_terminal}

-- Whether the workspace holds plaintext after the effects, from what it held before.
unfoldable pub perform : Bool → List Effect → Bool
perform disk [] = disk
perform disk (materialise_plaintext ∷ fx) = perform true fx
perform disk (wipe_workspace ∷ fx) = perform false fx
perform disk (_ ∷ fx) = perform disk fx

perform-append :
    (disk : Bool) (xs ys : List Effect) → perform disk (xs ++ ys) ≡ perform (perform disk xs) ys
unfolding perform
perform-append disk [] ys = refl
perform-append disk (materialise_plaintext ∷ xs) ys = perform-append true xs ys
perform-append disk (wipe_workspace ∷ xs) ys = perform-append false xs ys
perform-append disk (_ ∷ xs) ys = perform-append disk xs ys

-- The session has shown its file, or ended with nothing left.
abbrev IsCovered : State → Bool → Type 0
IsCovered «open» disk = Unit
IsCovered resealing disk = Unit
IsCovered State.requested disk = ⊥
IsCovered State.granted disk = ⊥
IsCovered _ disk = disk ≡ false

transition-IsCovered :
    (st : State) (e : Event) (s : Session) (now : ℕ) (disk : Bool)
    → s.state ≡ st
    → is_terminal st ≡ false
    → IsCovered st disk
    → IsCovered
        (transition st e s now).0.state
        (perform disk (effects_of (transition st e s now).1))
unfolding transition on_granted on_opened on_saved perform is_terminal
transition-IsCovered State.requested _ s now disk e l c = elim c [ ]
transition-IsCovered State.granted _ s now disk e l c = elim c [ ]
transition-IsCovered «open» _ s now disk e l c = ground arith
transition-IsCovered resealing _ s now disk e l c = ground arith
transition-IsCovered _ _ s now disk e l c = absurd (ground arith)

apply-IsCovered :
    (s : Session) (e : Event) (now : ℕ) (disk : Bool)
    → IsCovered s.state disk
    → IsCovered (apply s e now).0.state (perform disk (effects_of (apply s e now).1))
unfolding apply perform
apply-IsCovered s e now disk c = elim (Bool-cases (is_terminal s.state)) [
  | inl over ↦ rw over c
  | inr live ↦ rw live (transition-IsCovered s.state e s now disk refl live c)
]

run-IsCovered :
    (s : Session) (h : History) (disk : Bool)
    → IsCovered s.state disk
    → IsCovered (run s h).state (perform disk (effects s h))
unfolding run effects
run-IsCovered s [] disk c = unfold perform in c
run-IsCovered s ((e, now) ∷ h) disk c =
    rw perform-append (run-IsCovered (apply s e now).0 h _ (apply-IsCovered s e now disk c))

allowed-IsCovered : (st : State) (disk : Bool) → plaintext_allowed st ≡ true → IsCovered st disk
unfolding plaintext_allowed
allowed-IsCovered «open» disk p = tt
allowed-IsCovered _ disk p = ground arith

IsCovered-ended :
    (st : State) (disk : Bool) → is_terminal st ≡ true → IsCovered st disk → disk ≡ false
unfolding is_terminal
IsCovered-ended «open» disk l c = cc
IsCovered-ended _ disk l c = ground arith

-- The effects that a session asks for suffice: however a session ends that has shown its file,
-- nothing of the plaintext is left if each effect that it has asked for is carried out, in its
-- order. It does not say that the agent carries them out: a save or a wipe may fail.
pub shown_session_wiped :
    (s : Session) (h : History) (disk : Bool)
    → plaintext_allowed s.state ≡ true
    → is_terminal (run s h).state ≡ true
    → perform disk (effects s h) ≡ false
shown_session_wiped s h disk p l =
    IsCovered-ended (run s h).state _ l (run-IsCovered s h disk (allowed-IsCovered s.state disk p))

-- Events that end a session from outside.
abbrev pub EndsFromOutside : Event → Type 0
EndsFromOutside Event.revoked = Unit
EndsFromOutside Event.expired = Unit
EndsFromOutside (Event.failed why) = Unit
EndsFromOutside _ = ⊥

granted_end-keeps :
    (s : Session) (e : Event) (now : ℕ)
    → s.state ≡ State.granted
    → EndsFromOutside e
    → (is_terminal (apply s e now).0.state ≡ true)
      × (perform true (effects_of (apply s e now).1) ≡ true)
unfolding apply transition is_terminal perform
granted_end-keeps s Event.revoked now g o = (ground arith, ground arith)
granted_end-keeps s _ now g o = (ground arith, ground arith)

-- The opposite for a session that is granted and not yet shown: plaintext that the order to
-- materialise put on disk stays there when the owner revokes, the grant expires or something
-- fails, and no later event removes it.
pub granted_session_not_wiped :
    (s : Session) (e : Event) (now : ℕ) (h : History)
    → s.state ≡ State.granted
    → EndsFromOutside e
    → perform true (effects s ((e, now) ∷ h)) ≡ true
unfolding effects
granted_session_not_wiped s e now h g o =
    let (ended, left) = granted_end-keeps s e now g o in
    let (_, silent) = run_terminal (apply s e now).0 h ended in
    rw (perform-append, left, silent) (unfold perform in refl)
