-- ===== src/Agent/Request/Waiting.antt =====
-- How `ask` of apps/agent/src-tauri/src/request.rs ends.
use z_bacs.Prelude.{
  ℕ, ◌+◌, ◌*◌, ◌≤◌, ◌<◌, Bool, true, false, ◌≡◌, ◌∙◌, inl, inr, refl, none, some, List, [], ◌∷◌,
  Result, ok, err, arith, length, Option-cases, if◌then◌else◌,
}
use z_bacs.Session.{Session, new}
use z_bacs.Proto.External.{Primitives}
use z_bacs.Agent.Forms.{Forms}
use z_bacs.Agent.Request.Asking.{
  Asking, Round, ClientError, Outcome, Held, Update, round, nudges, wait, ask,
}

-- Each round begins at least one `poll` after the one before, since the loop sleeps that long.
abbrev pub Sleeps : ℕ → ℕ → List Round → Type 0
Sleeps poll since [] = Unit
Sleeps poll since (r ∷ rs) = (since ≤ r.waited) × Sleeps poll (since + poll) rs

module _ (c : Primitives) (k : Forms) (a : Asking) where
  round-early :
      (r : Round) (s : Session) → round c k a r s ≡ none → r.waited < a.limits.give_up_after
  unfolding round
  round-early r s h = ground arith

  -- A round that ends the wait, and one that does not.
  pub wait-stops :
      (nudged : Bool) (r : Round) (rs : List Round) (s : Session) {o : Outcome} {h : Held}
      {u : Update}
      → round c k a r s ≡ some (o, h, u)
      → (wait c k a nudged (r ∷ rs) s).1 ≡ some (o, h)
  unfolding wait
  wait-stops nudged r rs s e = rw (e, wait) refl

  pub wait-goes_on :
      (nudged : Bool) (r : Round) (rs : List Round) (s : Session)
      → round c k a r s ≡ none
      → (wait c k a nudged (r ∷ rs) s).1
        ≡ (wait c k a (if nudges c k a nudged r then true else nudged) rs s).1
  unfolding wait
  wait-goes_on nudged r rs s e = rw (e, wait) refl

  wait-ends :
      (nudged : Bool) (rs : List Round) (s : Session) (at : ℕ)
      → Sleeps a.limits.poll at rs
      → at < a.limits.give_up_after + a.limits.poll
      → a.limits.give_up_after + a.limits.poll ≤ at + a.limits.poll * length rs
      → (end : Outcome × Held) × ((wait c k a nudged rs s).1 ≡ some end)
  wait-ends nudged [] s at sleeps before enough = absurd (omega arith)
  wait-ends nudged (r ∷ rs) s at (slept, sleeps) before enough =
      elim (Option-cases (round c k a r s)) [
        | inr ((o, h, u), ended) ↦ ((o, h), wait-stops nudged r rs s ended)
        | inl waiting ↦
            let early = round-early r s waiting in
            let then_nudged = if nudges c k a nudged r then true else nudged in
            let (end, is) =
              wait-ends then_nudged rs s (at + a.limits.poll) sleeps (omega arith) (omega arith) in
            (end, wait-goes_on nudged r rs s waiting ∙ is)
      ]

  -- The wait comes to an end: each round sleeps at least `poll`, so once enough rounds for
  -- `give_up_after` have begun there is an outcome, whatever the relay, the chain and the person do. It
  -- has none before only while it waits.
  pub ask-ends :
      (announced requested : Result ClientError (Unit {0})) (now : ℕ) (rs : List Round)
      → 0 < a.limits.poll
      → Sleeps a.limits.poll 0 rs
      → a.limits.give_up_after + a.limits.poll ≤ a.limits.poll * length rs
      → (end : Outcome × Held) × ((ask c k a announced requested now rs).1 ≡ some end)
  unfolding ask
  ask-ends (err e) requested now rs positive sleeps enough = (_, refl)
  ask-ends (ok u) (err e) now rs positive sleeps enough = (_, refl)
  ask-ends (ok u) (ok v) now rs positive sleeps enough =
      wait-ends false rs new 0 sleeps (omega arith) (omega arith)
