-- ===== src/Relay/Handler.antt =====
-- The shape of an HTTP handler: it works on the relay's state and answers or refuses with a wire
-- error code. What it did to the state before a refusal stays done.
use z_bacs.Prelude.{◌≡◌, refl, Bool, Result, ok, err, refuse_if}
use z_bacs.Proto.Messages.{ErrorCode, not_found}
use z_bacs.Relay.State.{Relay, Refusal}

abbrev pub Handler : Type 0 → Type 0
Handler A = Relay → Relay × Result ErrorCode A

abbrev pub continue :
    {A B : Type 0} → Relay × Result ErrorCode A → (A → Handler B) → Relay × Result ErrorCode B
continue (r, ok a) f = f a r
continue (r, err e) f = (r, err e)

unfoldable pub pure : {A : Type 0} → A → Handler A
pure a r = (r, ok a)

unfoldable pub lift : {A : Type 0} → Result ErrorCode A → Handler A
lift a r = (r, a)

-- `return refuse(code)` under a test.
abbrev pub reject_if : Bool → ErrorCode → Handler (Unit {0})
reject_if b e = lift (refuse_if b e)

unfoldable pub gets : {A : Type 0} → (Relay → A) → Handler A
gets f r = (r, ok (f r))

unfoldable pub modify : (Relay → Relay) → Handler (Unit {0})
modify f r = (f r, ok tt)

-- An operation of the state layer that cannot fail.
unfoldable pub act : {A : Type 0} → (Relay → Relay × A) → Handler A
act f r = let (r', a) = f r in (r', ok a)

-- `routes::refusal_code`.
unfoldable pub refusal_code : Refusal → ErrorCode
refusal_code Refusal.unknown_device = ErrorCode.unknown_device
refusal_code Refusal.replayed = ErrorCode.replayed
refusal_code Refusal.rate_limited = ErrorCode.rate_limited
refusal_code Refusal.unknown_request = not_found

abbrev pub refused : {A : Type 0} → Relay × Result Refusal A → Relay × Result ErrorCode A
refused (r, ok a) = (r, ok a)
refused (r, err e) = (r, err (refusal_code e))

-- An operation of the state layer that may refuse.
unfoldable pub attempt : {A : Type 0} → (Relay → Relay × Result Refusal A) → Handler A
attempt f r = refused (f r)

infixl 5 ◌>>=◌ ◌>>◌
-- To unfold it is to unfold the other actions too.
unfoldable pub ◌>>=◌ : {A B : Type 0} → Handler A → (A → Handler B) → Handler B
unfolding pure lift gets modify act attempt
◌>>=◌ m f r = continue (m r) f

abbrev pub ◌>>◌ : {A B : Type 0} → Handler A → Handler B → Handler B
m >> k = m >>= λ _. k

-- Inversion of the actions where the whole succeeds.
pub bind_lift :
    {A B : Type 0} (x : Result ErrorCode A) (f : A → Handler B) (r : Relay) {s : Relay} {b : B}
    → (lift x >>= f) r ≡ (s, ok b)
    → (a : A) × (x ≡ ok a) × (f a r ≡ (s, ok b))
unfolding ◌>>=◌
bind_lift (ok a) f r h = (a, refl, h)
bind_lift (err e) f r h = cc

continue-refused :
    {A B : Type 0} (x : Relay × Result Refusal A) (f : A → Handler B) {s : Relay} {b : B}
    → continue (refused x) f ≡ (s, ok b)
    → (r : Relay) × (a : A) × (x ≡ (r, ok a)) × (f a r ≡ (s, ok b))
continue-refused (r, ok a) f h = (r, a, refl, h)
continue-refused (r, err e) f h = cc

pub bind_attempt :
    {A B : Type 0} (g : Relay → Relay × Result Refusal A) (f : A → Handler B) (r : Relay)
    {s : Relay} {b : B}
    → (attempt g >>= f) r ≡ (s, ok b)
    → (r' : Relay) × (a : A) × (g r ≡ (r', ok a)) × (f a r' ≡ (s, ok b))
unfolding ◌>>=◌
bind_attempt g f r h = continue-refused (g r) f h

pub bind_gets :
    {A B : Type 0} (g : Relay → A) (f : A → Handler B) (r : Relay) {y : Relay × Result ErrorCode B}
    → (gets g >>= f) r ≡ y
    → f (g r) r ≡ y
unfolding ◌>>=◌
bind_gets g f r h = h
