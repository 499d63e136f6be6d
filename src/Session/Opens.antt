-- ===== src/Session/Opens.antt =====
-- How often a grant opens its file: the viewer launches that `Session::apply` asks for.
use z_bacs.Prelude.{
  ℕ, ◌+◌, ◌≤◌, ◌<◌, ◌^◌, [], ◌∷◌, ◌++◌, List, ◌≡◌, ◌≢◌, refl, arith, Bool-cases, inl, inr,
}
use z_bacs.Session.{
  Permission, State, «open», resealing, Event, Effect, launch_viewer, Session, is_terminal, resume,
  on_granted, on_opened, on_saved, transition, apply, History, run, effects, effects_of,
}

unfoldable pub launches : List Effect → ℕ
launches [] = 0
launches (launch_viewer ∷ fx) = launches fx + 1
launches (_ ∷ fx) = launches fx

pub launches-append : (xs ys : List Effect) → launches (xs ++ ys) ≡ launches xs + launches ys
unfolding launches
launches-append [] ys = omega arith
launches-append (launch_viewer ∷ xs) ys = omega (arith, launches-append xs ys)
launches-append (_ ∷ xs) ys = launches-append xs ys

-- A session can launch once as long as it waits for the owner or for the open.
abbrev launches_left : State → ℕ
launches_left State.requested = 1
launches_left State.granted = 1
launches_left _ = 0

transition-launches :
    (st : State) (e : Event) (s : Session) (now : ℕ)
    → s.state ≡ st
    → launches (effects_of (transition st e s now).1)
        + launches_left (transition st e s now).0.state
      ≤ launches_left st
unfolding transition on_granted on_opened on_saved launches
transition-launches State.requested _ s now e = ground arith
transition-launches State.granted _ s now e = ground arith
transition-launches «open» _ s now e = ground arith
transition-launches resealing _ s now e = ground arith
transition-launches _ _ s now e = ground arith

apply-launches :
    (s : Session) (e : Event) (now : ℕ)
    → launches (effects_of (apply s e now).1) + launches_left (apply s e now).0.state
      ≤ launches_left s.state
unfolding apply launches
apply-launches s e now = elim (Bool-cases (is_terminal s.state)) [
  | inl over ↦ rw over (omega arith)
  | inr live ↦ rw live (transition-launches s.state e s now refl)
]

effects-launches : (s : Session) (h : History) → launches (effects s h) ≤ launches_left s.state
unfolding effects launches
effects-launches s [] = omega arith
effects-launches s ((e, now) ∷ h) =
    rw launches-append (omega (arith, apply-launches s e now, effects-launches (apply s e now).0 h))

-- One session shows its file at most once.
pub launches-le-one : (s : Session) (h : History) → launches (effects s h) ≤ 1
launches-le-one s h = ground (arith, effects-launches s h)

-- What bounds the opens of a session with a budget.
pub record Budget (m : ℕ) (s : Session) : Type 0 where
  pub started : s.state ≢ State.requested
  pub cap : s.max_opens ≡ m
  pub used : s.opens ≤ m

transition-Budget :
    (m : ℕ) (st : State) (e : Event) (s : Session) (now : ℕ)
    → s.state ≡ st
    → 0 < m
    → m < 2 ^ 16
    → Budget m s
    → Budget m (transition st e s now).0
      × (launches (effects_of (transition st e s now).1) + s.opens
          ≡ (transition st e s now).0.opens)
unfolding transition on_granted on_opened on_saved launches
transition-Budget m State.requested _ s now e h w b = absurd (b.started e)
transition-Budget m State.granted _ s now e h w b = (ground arith, ground arith)
transition-Budget m «open» _ s now e h w b = (ground arith, ground arith)
transition-Budget m resealing _ s now e h w b = (ground arith, ground arith)
transition-Budget m _ _ s now e h w b = (ground arith, ground arith)

module _ (m : ℕ) (limited : 0 < m) (word : m < 2 ^ 16) where
  apply-Budget :
      (s : Session) (e : Event) (now : ℕ)
      → Budget m s
      → Budget m (apply s e now).0
        × (launches (effects_of (apply s e now).1) + s.opens ≡ (apply s e now).0.opens)
  unfolding apply launches
  apply-Budget s e now b = elim (Bool-cases (is_terminal s.state)) [
    | inl over ↦ rw over (b, omega arith)
    | inr live ↦ rw live (transition-Budget m s.state e s now refl limited word b)
  ]

  pub run-Budget :
      (s : Session) (h : History)
      → Budget m s
      → Budget m (run s h) × (launches (effects s h) + s.opens ≡ (run s h).opens)
  unfolding run effects launches
  run-Budget s [] b = (b, omega arith)
  run-Budget s ((e, now) ∷ h) b =
      let step = apply-Budget s e now b in
      let rest = run-Budget (apply s e now).0 h step.0 in
      (rest.0, rw launches-append (omega (arith, step.1, rest.1)))

resume-Budget : (p : Permission) (b x m k : ℕ) → k ≤ m → Budget m (resume p b x m k)
unfolding resume
resume-Budget p b x m k h = record { started = λ e. cc; cap = refl; used = h }

-- The launches of one grant over several lives of the Agent: each life resumes with the opens
-- that the life before it had counted.
unfoldable pub lives : Permission → ℕ → ℕ → ℕ → ℕ → List History → ℕ
lives p b x m k [] = 0
lives p b x m k (h ∷ hs) =
    let s = resume p b x m k in launches (effects s h) + lives p b x m (run s h).opens hs

-- However often the Agent restarts, a grant with a budget of `m` opens, a u16 other than 0, shows
-- the file at most `m` times, those already counted included, if these were no more.
pub lives-le-budget :
    (p : Permission) (b x m k : ℕ) (hs : List History)
    → 0 < m
    → m < 2 ^ 16
    → k ≤ m
    → lives p b x m k hs + k ≤ m
unfolding lives resume
lives-le-budget p b x m k [] l w h = omega arith
lives-le-budget p b x m k (g ∷ hs) l w h =
    let (after, count) = run-Budget m l w (resume p b x m k) g (resume-Budget p b x m k h) in
    omega (arith, count, lives-le-budget p b x m (run (resume p b x m k) g).opens hs l w after.used)
