-- ===== src/Relay/Windows.antt =====
-- The sliding windows of `take_quota` in apps/relay/src/state.rs, for the calls of one device.
use z_bacs.Prelude.{
  ℕ, ◌+◌, ◌≤◌, ◌<◌, Bool, true, false, not, ◌||◌, List, [], ◌∷◌, ◌++◌, Result, ok, err, ◌≡◌, refl,
  inl, inr, arith, Bool-cases, leb, length, keep, length-keep-le,
}
use z_bacs.Prelude.Bytes.{bytes_eq}
use z_bacs.Relay.State.{
  Instant, Refusal, older_than_hour, within_minute, rate_per_minute, rate_per_hour, pop_while,
  count_call,
}

abbrev pub within_hour : Instant → Instant → Bool
within_hour now t = not (older_than_hour now t)

unfoldable pub count : (Instant → Bool) → List Instant → ℕ
count p xs = length (keep p xs)

count-cons :
    (p : Instant → Bool) (x : Instant) (xs : List Instant) → count p (x ∷ xs) ≤ count p xs + 1
unfolding count
count-cons p x xs = ground arith

count-append :
    (p : Instant → Bool) (xs ys : List Instant) → count p (xs ++ ys) ≡ count p xs + count p ys
unfolding count
count-append p [] ys = omega arith
count-append p (x ∷ xs) ys = ground (arith, count-append p xs ys)

-- Popping calls that do not count keeps the count.
count-pop_while :
    (p q : Instant → Bool) (xs : List Instant)
    → ((x : Instant) → q x ≡ true → p x ≡ false)
    → count p (pop_while q xs) ≡ count p xs
unfolding count pop_while
count-pop_while p q [] h = refl
count-pop_while p q (x ∷ xs) h = ground (arith, h x, count-pop_while p q xs h)

-- The calls on record count for at least as much as the accepted calls, from `last` on.
pub record Covers (last : Instant) (calls accepted : List Instant) : Type 0 where
  pub minute :
      (now : Instant)
      → last ≤ now
      → count (within_minute now) accepted ≤ count (within_minute now) calls
  pub hour :
      (now : Instant)
      → last ≤ now
      → count (within_hour now) accepted ≤ count (within_hour now) calls

-- Newest first: every accepted call is within the quota of the minute and of the hour before it.
abbrev pub WithinQuota : List Instant → Type 0
WithinQuota [] = Unit
WithinQuota (t ∷ earlier) =
    (length (keep (within_minute t) (t ∷ earlier)) ≤ rate_per_minute)
    × (length (keep (within_hour t) (t ∷ earlier)) ≤ rate_per_hour)
    × WithinQuota earlier

abbrev pub noted : Result Refusal (Unit {0}) → Instant → List Instant → List Instant
noted (ok _) now accepted = now ∷ accepted
noted (err _) now accepted = accepted

abbrev recent : List Instant → Instant → List Instant
recent calls now = pop_while (older_than_hour now) calls

pop-minute :
    (calls : List Instant) (now later : Instant)
    → now ≤ later
    → count (within_minute later) (recent calls now) ≡ count (within_minute later) calls
pop-minute calls now later h = count-pop_while _ _ calls (λ x e. ground arith)

pop-hour :
    (calls : List Instant) (now later : Instant)
    → now ≤ later
    → count (within_hour later) (recent calls now) ≡ count (within_hour later) calls
pop-hour calls now later h = count-pop_while _ _ calls (λ x e. ground arith)

abbrev over_limit : List Instant → Instant → Bool
over_limit calls now =
    leb rate_per_minute (length (keep (within_minute now) (recent calls now)))
    || leb rate_per_hour (length (recent calls now))

count_call-over :
    (calls : List Instant) (now : Instant)
    → over_limit calls now ≡ true
    → count_call calls now ≡ (recent calls now, err Refusal.rate_limited)
unfolding count_call
count_call-over calls now h = rw h refl

count_call-under :
    (calls : List Instant) (now : Instant)
    → over_limit calls now ≡ false
    → count_call calls now ≡ (recent calls now ++ (now ∷ []), ok tt)
unfolding count_call
count_call-under calls now h = rw h refl

Covers-pop :
    (last now : Instant) (calls accepted : List Instant)
    → last ≤ now
    → Covers last calls accepted
    → Covers now (recent calls now) accepted
Covers-pop last now calls accepted h v = record {
  minute = λ later k. omega (arith, v.minute later (omega arith), pop-minute calls now later k);
  hour = λ later k. omega (arith, v.hour later (omega arith), pop-hour calls now later k);
}

Covers-push :
    (now : Instant) (calls accepted : List Instant)
    → Covers now calls accepted
    → Covers now (calls ++ (now ∷ [])) (now ∷ accepted)
unfolding count
Covers-push now calls accepted v = record {
  minute = λ later k.
      ground (arith, v.minute later k, count-append (within_minute later) calls (now ∷ []));
  hour =
      λ later k. ground (arith, v.hour later k, count-append (within_hour later) calls (now ∷ []));
}

WithinQuota-push :
    (now : Instant) (calls accepted : List Instant)
    → Covers now calls accepted
    → length (keep (within_minute now) calls) < rate_per_minute
    → length calls < rate_per_hour
    → WithinQuota accepted
    → WithinQuota (now ∷ accepted)
unfolding count
WithinQuota-push now calls accepted v m h w = (
  omega (arith, count-cons (within_minute now) now accepted, v.minute now (omega arith)),
  omega (
    arith,
    count-cons (within_hour now) now accepted,
    v.hour now (omega arith),
    length-keep-le (within_hour now) calls,
  ),
  w,
)

-- One call of `take_quota` on the device's record.
abbrev pub Metered : Instant → List Instant × Result Refusal (Unit {0}) → List Instant → Type 0
Metered now x accepted =
    Covers now x.0 (noted x.1 now accepted) × WithinQuota (noted x.1 now accepted)

pub count_call-Metered :
    (last now : Instant) (calls accepted : List Instant)
    → last ≤ now
    → Covers last calls accepted
    → WithinQuota accepted
    → Metered now (count_call calls now) accepted
count_call-Metered last now calls accepted h v w =
    let popped = Covers-pop last now calls accepted h v in
    elim (Bool-cases (over_limit calls now)) [
      | inl over ↦ rw (count_call-over calls now over) (popped, w)
      | inr under ↦ rw (count_call-under calls now under) (
        Covers-push now (recent calls now) accepted popped,
        WithinQuota-push now (recent calls now) accepted popped (ground arith) (ground arith) w,
      )
    ]
