-- ===== src/RelayClient/Tests.antt =====
-- Submissions at concrete answers.
use z_bacs.Prelude.{
  ℕ, ◌≡◌, refl, true, false, some, none, [], ◌∷◌, ok, err, ◌⊎◌, All, ◌==◌, if◌then◌else◌,
}
use z_bacs.Proto.External.{Cbor}
use z_bacs.Proto.Messages.{Ack, rate_limited}
use z_bacs.RelayClient.{
  Http, not_sent, response, default_policy, submit, queued, unreachable, backoff,
}
use z_bacs.RelayClient.Attempts.{Settled, Unsettled, at, schedule, submit-Settled}

-- An answer with an id accepts, an empty one asks to come back.
abbrev acks : Cbor Ack
acks = record {
  into_writer = λ a. err "no form";
  from_reader = λ b. some (elim b [
    | [] ↦ record { ok = false; id = none; error = some rate_limited }
    | x ∷ xs ↦ record { ok = true; id = some (x ∷ xs); error = none }
  ]);
}

-- The first relay does not answer, the second takes the message on the second attempt.
abbrev http : ℕ → ℕ → Http
http e n =
    if e == 0
    then not_sent "down"
    else (if n == 0 then response true [] else response true (7 ∷ []))

submitted :
    submit acks default_policy http 2 0
    ≡ ((0, 0) ∷ (0, 1) ∷ (0, 2) ∷ (1, 0) ∷ (1, 1) ∷ [], ok (queued (7 ∷ [])))
unfolding submit default_policy
submitted = refl

submit-Settled_example :
    Settled
      (at acks http)
      (schedule 3 2 0)
      (submit acks default_policy http 2 0).0
      (submit acks default_policy http 2 0).1
    ⊎ ((submit acks default_policy http 2 0
          ≡ (schedule 3 2 0, err (unreachable "every endpoint failed")))
        × All (Unsettled (at acks http)) (schedule 3 2 0))
unfolding default_policy
submit-Settled_example = submit-Settled acks http default_policy 2 0

-- The delay exceeds its upper bound by the jitter.
longest : backoff default_policy 16 999 ≡ 10_999
unfolding backoff default_policy
longest = refl
