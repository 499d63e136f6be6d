-- ===== src/Relay/Authentication.antt =====
-- `authenticate` of apps/relay/src/routes.rs: what it has checked when it succeeds, and what it
-- leaves behind when it refuses.
use z_bacs.Prelude.{
  Option, some, none, Result, ok, err, ◌≡◌, refl, ◌∙◌, inl, inr, ◌⊎◌, arith, map_err, ok_or,
}
use z_bacs.Prelude.Bytes.{Bytes}
use z_bacs.Proto.Messages.{ErrorCode, code, Message}
use z_bacs.Proto.Signed.{Signed, verify, from_bytes}
use z_bacs.Proto.Authenticity.{verify-ok_iff}
use z_bacs.Relay.State.{Relay, Device, Refusal, device_of, take_quota, take_nonce}
use z_bacs.Relay.Handler.{
  Handler, ◌>>=◌, bind_lift, bind_gets, bind_attempt, pure, gets, lift, attempt, continue, refused,
}
use z_bacs.Relay.Routes.{Wire, Readings, authenticate}

-- The steps of an authentication that succeeds.
pub record Authentic {A : Type 0} (w : Wire) (m : Message A) (body : Bytes) (t : Readings)
    (r s : Relay) (sent : Signed) (a : A) : Type 0 where
  pub device : Device
  pub metered : Relay
  pub parses : from_bytes w.signed body ≡ ok sent
  pub registered : device_of r sent.kid ≡ some device
  pub accepted : verify w.primitives m sent device.ed25519_pub t.verify_unix ≡ ok (a, sent.nonce)
  pub within_quota : take_quota sent.kid t.arrived r ≡ (metered, ok tt)
  pub not_replayed : take_nonce sent.nonce t.arrived metered ≡ (s, ok tt)

map_err-ok : {E F A : Type 0} (f : E → F) (x : Result E A) {a : A} → map_err f x ≡ ok a → x ≡ ok a
map_err-ok f (ok a) h = ground arith
map_err-ok f (err e) h = cc

ok_or-ok : {E A : Type 0} (x : Option A) (e : E) {a : A} → ok_or x e ≡ ok a → x ≡ some a
ok_or-ok (some a) e h = ground arith
ok_or-ok none e h = cc

conclude :
    {A : Type 0} (w : Wire) (m : Message A) (body : Bytes) (t : Readings) (r s : Relay)
    (sent : Signed) (a : A) (signed : Signed) (payload : A) (nonce : Bytes) (device : Device)
    (metered stored : Relay) (u v : Unit {0})
    → map_err code (from_bytes w.signed body) ≡ ok signed
    → ok_or (device_of r signed.kid) ErrorCode.unknown_device ≡ ok device
    → map_err code (verify w.primitives m signed device.ed25519_pub t.verify_unix)
      ≡ ok (payload, nonce)
    → take_quota signed.kid t.arrived r ≡ (metered, ok u)
    → take_nonce nonce t.arrived metered ≡ (stored, ok v)
    → pure {A = Signed × A} (signed, payload) stored ≡ (s, ok (sent, a))
    → Authentic w m body t r s sent a
unfolding pure
conclude {A} w m body t r s sent a signed payload nonce device metered stored u v hp hd hv hq hn e =
    let parsed = map_err-ok code (from_bytes w.signed body) hp in
    let found = ok_or-ok (device_of r signed.kid) ErrorCode.unknown_device hd in
    let verified =
      map_err-ok code (verify w.primitives m signed device.ed25519_pub t.verify_unix) hv in
    let same =
      ((verify-ok_iff w.primitives m signed device.ed25519_pub t.verify_unix payload nonce).0
        verified).nonce_is in
    let who : signed ≡ sent = ground arith in
    let what : payload ≡ a = ground arith in
    let left : stored ≡ s = ground arith in
    record {
      device = device;
      metered = metered;
      parses = cc;
      registered = cc;
      accepted = cc;
      within_quota = cc;
      not_replayed = cc;
    }

pub authenticate-Authentic :
    {A : Type 0} (w : Wire) (m : Message A) (body : Bytes) (t : Readings) (r s : Relay)
    (sent : Signed) (a : A)
    → authenticate w m body t r ≡ (s, ok (sent, a))
    → Authentic w m body t r s sent a
unfolding authenticate
authenticate-Authentic w m body t r s sent a h =
    let (_, _, h₁) = bind_lift _ _ r h in
    let (signed, parses, h₂) = bind_lift _ _ r h₁ in
    let h₃ = bind_gets _ _ r h₂ in
    let (device, found, h₄) = bind_lift _ _ r h₃ in
    let ((payload, nonce), verified, h₅) = bind_lift _ _ r h₄ in
    let (metered, u, quota, h₆) = bind_attempt _ _ r h₅ in
    let (stored, v, fresh, h₇) = bind_attempt _ _ metered h₆ in
    conclude w m body t r s sent a signed payload nonce device metered stored u v parses found
      verified quota fresh h₇

lift_cases :
    {A B : Type 0} (x : Result ErrorCode A) (f : A → Handler B) (r : Relay)
    → (((lift x >>= f) r).0 ≡ r) ⊎ ((a : A) × (x ≡ ok a) × (((lift x >>= f) r).0 ≡ (f a r).0))
unfolding ◌>>=◌
lift_cases (ok a) f r = inr (a, refl, refl)
lift_cases (err e) f r = inl refl

continue-refused_cases :
    {A B : Type 0} (x : Relay × Result Refusal A) (f : A → Handler B)
    → ((continue (refused x) f).0 ≡ x.0) ⊎ ((a : A) × ((continue (refused x) f).0 ≡ (f a x.0).0))
continue-refused_cases (s, ok a) f = inr (a, refl)
continue-refused_cases (s, err e) f = inl refl

attempt_cases :
    {A B : Type 0} (g : Relay → Relay × Result Refusal A) (f : A → Handler B) (r : Relay)
    → (((attempt g >>= f) r).0 ≡ (g r).0) ⊎ ((a : A) × (((attempt g >>= f) r).0 ≡ (f a (g r).0).0))
unfolding ◌>>=◌
attempt_cases g f r = continue-refused_cases (g r) f

gets_state :
    {A B : Type 0} (g : Relay → A) (f : A → Handler B) (r : Relay)
    → ((gets g >>= f) r).0 ≡ (f (g r) r).0
unfolding ◌>>=◌
gets_state g f r = refl

pure_state : {A : Type 0} (a : A) (r : Relay) → (pure a r).0 ≡ r
unfolding pure
pure_state a r = refl

-- What an authentication uses up: nothing; or, of the device whose registered key has signed, a
-- call of its quota; or that and the message's nonce.
pub data Spent {A : Type 0} (w : Wire) (m : Message A) (body : Bytes) (t : Readings) (r s : Relay)
    : Type 0 where
  nothing : s ≡ r → Spent w m body t r s
  quota :
      (sent : Signed) (device : Device) (a : A) (n : Bytes)
      → from_bytes w.signed body ≡ ok sent
      → device_of r sent.kid ≡ some device
      → verify w.primitives m sent device.ed25519_pub t.verify_unix ≡ ok (a, n)
      → (s ≡ (take_quota sent.kid t.arrived r).0)
        ⊎ (s ≡ (take_nonce n t.arrived (take_quota sent.kid t.arrived r).0).0)
      → Spent w m body t r s

spent :
    {A : Type 0} (w : Wire) (m : Message A) (body : Bytes) (t : Readings) (r : Relay) {s : Relay}
    (sent : Signed) (device : Device) (payload : A × Bytes)
    → map_err code (from_bytes w.signed body) ≡ ok sent
    → ok_or (device_of r sent.kid) ErrorCode.unknown_device ≡ ok device
    → map_err code (verify w.primitives m sent device.ed25519_pub t.verify_unix) ≡ ok payload
    → s
      ≡ ((attempt (take_quota sent.kid t.arrived) >>= λ _.
            (attempt (take_nonce payload.1 t.arrived) >>= λ _.
            pure {A = Signed × A} (sent, payload.0)))
          r).0
    → Spent w m body t r s
spent {A} w m body t r sent device payload parses found verified e =
    quota sent device (payload.0) (payload.1) (map_err-ok code (from_bytes w.signed body) parses)
      (ok_or-ok (device_of r sent.kid) ErrorCode.unknown_device found)
      (map_err-ok code (verify w.primitives m sent device.ed25519_pub t.verify_unix) verified)
      (elim (attempt_cases _ _ r) [
        | inl q ↦ inl (e ∙ q)
        | inr (_, q) ↦ inr (elim (attempt_cases _ _ (take_quota sent.kid t.arrived r).0) [
          | inl n ↦ e ∙ q ∙ n
          | inr (_, n) ↦ e ∙ q ∙ n ∙ pure_state _ _
        ])
      ])

-- An authentication, whatever it answers, uses up nothing before the signature is found valid for a
-- registered device, and then only that device's quota and the nonce under its signature.
pub authenticate-Spent :
    {A : Type 0} (w : Wire) (m : Message A) (body : Bytes) (t : Readings) (r : Relay)
    → Spent w m body t r (authenticate w m body t r).0
unfolding authenticate
authenticate-Spent w m body t r = elim (lift_cases _ _ r) [
  | inl e ↦ nothing e
  | inr (_, _, e₁) ↦ elim (lift_cases _ _ r) [
    | inl e ↦ nothing (e₁ ∙ e)
    | inr (sent, parses, e₂) ↦ elim (lift_cases _ _ r) [
      | inl e ↦ nothing (e₁ ∙ e₂ ∙ gets_state _ _ r ∙ e)
      | inr (device, found, e₃) ↦ elim (lift_cases _ _ r) [
        | inl e ↦ nothing (e₁ ∙ e₂ ∙ gets_state _ _ r ∙ e₃ ∙ e)
        | inr (payload, verified, e₄) ↦
            spent w m body t r sent device payload parses found verified
              (e₁ ∙ e₂ ∙ gets_state _ _ r ∙ e₃ ∙ e₄)
      ]
    ]
  ]
]
