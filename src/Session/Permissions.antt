-- ===== src/Session/Permissions.antt =====
-- What a permission lets a session do: read-only sessions never produce a version, and changes of
-- an edit session are resealed before it closes by itself.
use z_bacs.Prelude.{
  ℕ, ◌+◌, Bool, true, false, [], ◌∷◌, ◌++◌, List, none, some, ◌≡◌, ◌≢◌, refl, ◌∙◌, arith,
  Bool-cases, inl, inr, ◌⊎◌, any,
}
use z_bacs.Session.Opens.{launches, launches-append}
use z_bacs.Session.{
  Permission, deny, read_only, edit, State, «open», resealing, Event, Effect, reseal,
  mark_read_only, Session, is_terminal, new, resume, on_granted, on_opened, on_saved, transition,
  apply, History, run, effects, effects_of,
}

abbrev is_reseal : Effect → Bool
is_reseal reseal = true
is_reseal _ = false

abbrev pub reseals : List Effect → Bool
reseals = any is_reseal

-- The terms of a session that the owner has approved.
abbrev pub HasTerms : Session → Type 0
HasTerms s = (s.permission ≢ none) × (s.permission ≢ some deny)

pub record Inv (s : Session) : Type 0 where
  pub waiting : s.state ≡ State.requested → s.permission ≡ none
  pub granted : s.state ≡ State.granted → HasTerms s
  pub opened : s.state ≡ «open» → HasTerms s
  pub editing : s.state ≡ resealing → s.permission ≡ some edit
  pub unsealed : s.dirty ≡ true → (s.state ≡ resealing) ⊎ (s.state ≡ State.failed)
  pub version_of_edit : (s.permission ≡ some edit) ⊎ (s.version ≡ none)

transition-Inv :
    (st : State) (e : Event) (s : Session) (now : ℕ)
    → s.state ≡ st
    → Inv s
    → Inv (transition st e s now).0
unfolding transition on_granted on_opened on_saved
transition-Inv State.requested (Event.granted p b x m) s now e v = ground arith
transition-Inv State.requested _ s now e v = ground arith
transition-Inv State.granted _ s now e v = ground arith
transition-Inv «open» _ s now e v = ground arith
transition-Inv resealing _ s now e v = ground arith
transition-Inv _ _ s now e v = ground arith

apply-Inv : (s : Session) (e : Event) (now : ℕ) → Inv s → Inv (apply s e now).0
unfolding apply
apply-Inv s e now v = elim (Bool-cases (is_terminal s.state)) [
  | inl over ↦ rw over v
  | inr live ↦ rw live (transition-Inv s.state e s now refl v)
]

run-Inv : (s : Session) (h : History) → Inv s → Inv (run s h)
unfolding run
run-Inv s [] v = v
run-Inv s ((e, now) ∷ h) v = run-Inv (apply s e now).0 h (apply-Inv s e now v)

new-Inv : Inv new
unfolding new
new-Inv = ground arith

pub resume-Inv : (p : Permission) (b x m k : ℕ) → p ≢ deny → Inv (resume p b x m k)
unfolding resume
resume-Inv p b x m k h = ground arith

-- After any history a session holds terms that are no `Deny` wherever it may show the file, reseals
-- under `Edit` alone, is dirty only while it reseals or after a failure, and has a version only
-- under `Edit`.
run-new-Inv : (h : History) → Inv (run new h)
run-new-Inv h = run-Inv new h new-Inv

-- What one step keeps once the terms are fixed.
record Keeps (s r : Session) : Type 0 where
  permission : r.permission ≡ s.permission
  started : r.state ≢ State.requested

transition-Keeps :
    (st : State) (e : Event) (s : Session) (now : ℕ)
    → s.state ≡ st
    → st ≢ State.requested
    → Keeps s (transition st e s now).0
unfolding transition on_granted on_opened on_saved
transition-Keeps State.requested _ s now e n = absurd (n refl)
transition-Keeps State.granted _ s now e n = ground arith
transition-Keeps «open» _ s now e n = ground arith
transition-Keeps resealing _ s now e n = ground arith
transition-Keeps _ _ s now e n = ground arith

apply-Keeps :
    (s : Session) (e : Event) (now : ℕ) → s.state ≢ State.requested → Keeps s (apply s e now).0
unfolding apply
apply-Keeps s e now n = elim (Bool-cases (is_terminal s.state)) [
  | inl over ↦ rw over (record { permission = refl; started = n })
  | inr live ↦ rw live (transition-Keeps s.state e s now refl n)
]

unfoldable pub marks : List Effect → ℕ
marks [] = 0
marks (mark_read_only ∷ fx) = marks fx + 1
marks (_ ∷ fx) = marks fx

marks-append : (xs ys : List Effect) → marks (xs ++ ys) ≡ marks xs + marks ys
unfolding marks
marks-append [] ys = omega arith
marks-append (mark_read_only ∷ xs) ys = omega (arith, marks-append xs ys)
marks-append (_ ∷ xs) ys = marks-append xs ys

reseals-append : (xs ys : List Effect) → reseals xs ≡ false → reseals (xs ++ ys) ≡ reseals ys
reseals-append [] ys h = refl
reseals-append (x ∷ xs) ys h = ground (arith, reseals-append xs ys)

-- No reseal, and every launch comes with the mark.
abbrev pub IsReadOnly : List Effect → Type 0
IsReadOnly fx = (reseals fx ≡ false) × (marks fx ≡ launches fx)

transition-IsReadOnly :
    (st : State) (e : Event) (s : Session) (now : ℕ)
    → s.state ≡ st
    → st ≢ State.requested
    → s.permission ≡ some read_only
    → IsReadOnly (effects_of (transition st e s now).1)
unfolding transition on_granted on_opened on_saved marks launches
transition-IsReadOnly State.requested _ s now e n r = absurd (n refl)
transition-IsReadOnly State.granted _ s now e n r = (ground arith, ground arith)
transition-IsReadOnly «open» _ s now e n r = (ground arith, ground arith)
transition-IsReadOnly resealing _ s now e n r = (ground arith, ground arith)
transition-IsReadOnly _ _ s now e n r = (ground arith, ground arith)

apply-IsReadOnly :
    (s : Session) (e : Event) (now : ℕ)
    → s.state ≢ State.requested
    → s.permission ≡ some read_only
    → IsReadOnly (effects_of (apply s e now).1)
unfolding apply marks launches
apply-IsReadOnly s e now n r = elim (Bool-cases (is_terminal s.state)) [
  | inl over ↦ rw over (refl, refl)
  | inr live ↦ rw live (transition-IsReadOnly s.state e s now refl n r)
]

run-IsReadOnly :
    (s : Session) (h : History)
    → s.state ≢ State.requested
    → s.permission ≡ some read_only
    → IsReadOnly (effects s h) × ((run s h).permission ≡ some read_only)
unfolding run effects marks launches
run-IsReadOnly s [] n r = ((refl, refl), r)
run-IsReadOnly s ((e, now) ∷ h) n r =
    let k = apply-Keeps s e now n in
    let fx = effects_of (apply s e now).1 in
    let (none_now, marked_now) = apply-IsReadOnly s e now n r in
    let (later, kept) = run-IsReadOnly (apply s e now).0 h k.started (k.permission ∙ r) in
    let rest = effects (apply s e now).0 h in
    (
      (
        reseals-append fx rest none_now ∙ later.0,
        rw (marks-append, launches-append) (omega (arith, marked_now, later.1)),
      ),
      kept,
    )

-- A read-only grant never asks for a reseal and never has a version, and each launch of the viewer
-- comes with the order to make the file read-only, whatever is offered to the session.
pub resume-IsReadOnly :
    (b x m k : ℕ) (h : History)
    → IsReadOnly (effects (resume read_only b x m k) h)
      × ((run (resume read_only b x m k) h).version ≡ none)
unfolding resume
resume-IsReadOnly b x m k h =
    let s = resume read_only b x m k in
    let (only, kept) = run-IsReadOnly s h (λ e. cc) refl in
    let v = run-Inv s h (resume-Inv read_only b x m k (λ e. cc)) in
    (only, ground (arith, v.version_of_edit))
