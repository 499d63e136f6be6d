-- ===== src/RelayClient.antt =====
-- crates/zbacs-relay-client/src/client.rs and error.rs: how a message is submitted to the relays and
-- an inbox read, with retries. What an HTTP call gives is an argument, one answer for each endpoint
-- and attempt. Durations are in milliseconds.
pub mod Attempts
mod Tests
use z_bacs.Prelude.{
  ℕ, zero, suc, ◌+◌, ◌-◌, ◌*◌, ◌/◌, ◌%◌, ◌^◌, min, Bool, true, false, Option, none, some, List, [],
  ◌∷◌, ◌++◌, Result, ok, err, ◌>>=◌, ok_or, String, if◌then◌else◌,
}
use z_bacs.Prelude.Bytes.{Bytes}
use z_bacs.Proto.External.{Cbor}
use z_bacs.Proto.Messages.{ErrorCode, rate_limited, internal, replayed, Ack, Envelope, ProtoError}

pub record RetryPolicy : Type 0 where
  pub attempts_per_endpoint : ℕ
  pub initial_backoff : ℕ
  pub max_backoff : ℕ
  pub request_timeout : ℕ

-- `RetryPolicy::default`.
unfoldable pub default_policy : RetryPolicy
default_policy = record {
  attempts_per_endpoint = 3;
  initial_backoff = 200;
  max_backoff = 10_000;
  request_timeout = 15_000;
}

-- `RetryPolicy::backoff`, given the random number. The longest `Duration` is beyond any product here.
unfoldable pub backoff : RetryPolicy → ℕ → ℕ → ℕ
backoff p n random =
    let base = min (p.initial_backoff * 2 ^ min n 16) p.max_backoff in
    base + (random % 1000) % (base / 2 + 1)

pub data Delivery : Type 0 where
  queued : Bytes → Delivery
  already_delivered : Delivery

pub data ClientError : Type 0 where
  refused : ErrorCode → ClientError
  unreachable bad_response : String → ClientError
  proto : ProtoError → ClientError

unfoldable pub is_transient : ClientError → Bool
is_transient (unreachable why) = true
is_transient _ = false

unfoldable pub retryable : ErrorCode → Bool
retryable rate_limited = true
retryable internal = true
retryable _ = false

-- What one HTTP call gives: a failure to send or to read the body, or a status and a body.
pub data Http : Type 0 where
  not_sent no_body : String → Http
  response : Bool → Bytes → Http

abbrev pub zero_id : Bytes
zero_id = 0 ∷ 0 ∷ 0 ∷ 0 ∷ 0 ∷ 0 ∷ 0 ∷ 0 ∷ 0 ∷ 0 ∷ 0 ∷ 0 ∷ 0 ∷ 0 ∷ 0 ∷ 0 ∷ []

abbrev id_or_default : Option Bytes → Bytes
id_or_default none = zero_id
id_or_default (some id) = id

-- The `match` on the answer of the relay.
unfoldable pub delivery_of : Bool → Option Bytes → Option ErrorCode → Result ClientError Delivery
delivery_of true id error = ok (queued (id_or_default id))
delivery_of false id (some replayed) = ok already_delivered
delivery_of false id (some code) = err (refused code)
delivery_of false id none = err (bad_response "HTTP with no error code")

unfoldable pub submit_once : Cbor Ack → Http → Result ClientError Delivery
unfolding delivery_of
submit_once acks (not_sent why) = err (unreachable why)
submit_once acks (no_body why) = err (unreachable why)
submit_once acks (response status body) = do
  ack ← ok_or (acks.from_reader body) (bad_response "HTTP with a non-CBOR body")
  delivery_of ack.ok ack.id ack.error

-- The arms that return; `none` where the loop goes on.
unfoldable pub decisive : Result ClientError Delivery → Option (Result ClientError Delivery)
unfolding retryable
decisive (ok d) = some (ok d)
decisive (err (refused code)) = if retryable code then none else some (err (refused code))
decisive (err e) = none

-- The attempts at one endpoint that are left, from a number on. What was called, in order, and the
-- result of the arm that returns.
unfoldable pub attempts :
    Cbor Ack → (ℕ → Http) → ℕ → ℕ → List ℕ × Option (Result ClientError Delivery)
unfolding decisive submit_once
attempts acks http zero attempt = ([], none)
attempts acks http (suc left) attempt =
    let (more, result) = attempts acks http left (suc attempt) in
    elim (decisive (submit_once acks (http attempt))) [
      | some r ↦ (attempt ∷ [], some r)
      | none ↦ (attempt ∷ more, result)
    ]

-- `submit`: the calls, each an endpoint's number and an attempt, and the result. The text of the last
-- error, which only the message of `Unreachable` has, is left out.
abbrev pub tag_all {ℓ} : {A : Type ℓ} → ℕ → List A → List (ℕ × A)
tag_all endpoint [] = []
tag_all endpoint (x ∷ xs) = (endpoint, x) ∷ tag_all endpoint xs

unfoldable pub submit :
    Cbor Ack → RetryPolicy → (ℕ → ℕ → Http) → ℕ → ℕ → List (ℕ × ℕ) × Result ClientError Delivery
unfolding attempts
submit acks policy http zero endpoint = ([], err (unreachable "every endpoint failed"))
submit acks policy http (suc left) endpoint =
    let (tried, result) = attempts acks (http endpoint) policy.attempts_per_endpoint 0 in
    let (more, last) = submit acks policy http left (suc endpoint) in
    elim result [
      | some r ↦ (tag_all endpoint tried, r)
      | none ↦ (tag_all endpoint tried ++ more, last)
    ]

-- One call of `fetch_inbox`; `none` where the loop goes on.
unfoldable pub fetch_once :
    Cbor (List Envelope) → Http → Option (Result ClientError (List Envelope))
fetch_once form (not_sent why) = none
fetch_once form (response false body) = none
fetch_once form (no_body why) = some (err (unreachable why))
fetch_once form (response true body) =
    some (ok_or (form.from_reader body) (bad_response "not an inbox"))
