-- ===== src/Auth/Kept.antt =====
-- The calls of crates/zbacs-auth/src/setup.rs in a row, on a machine that is not wiped.
use z_bacs.Prelude.{
  subst, ℕ, not, ◌≡◌, sym, ◌∙◌, ap, none, some_inj, List, [], ◌∷◌, Result, ok, ok_inj, arith,
}
use z_bacs.Prelude.Steps.{step-ok, fail_if-ok}
use z_bacs.Prelude.Bytes.{Bytes}
use z_bacs.Proto.External.{Cbor, RoundTrips}
use z_bacs.Auth.Setup.{
  SetupError, KeyName, device_x25519, device_ed25519, owner_sealing, owner_signing, ApprovalStyle,
  DeviceProfile, Device, Curves, Platform, DeviceKeys, KeyPair, is_set_up, x25519, ed25519,
  x25519_keys, ed25519_keys,
}
use z_bacs.Auth.Runs.{complete, adopt_account, key_pair, owner_keys, device_keys}
use z_bacs.Auth.Identity.{Draws-trans, PubOf, PubOf-Draws, x25519-ok, ed25519-ok}
use z_bacs.Auth.Life.{OnDisk, OnDisk-unique, OnDisk-file, Sound, Lives, Lives-refl, Lives-trans}
use z_bacs.Auth.Life.{After}
use z_bacs.Auth.Living.{complete-Lives, adopt_account-Lives, key_pair-Lives}

-- The calls but `forget`.
pub data Call : Type 0 where
  completes : ApprovalStyle → ℕ → Call
  adopts : Bytes → Call
  owner device : Call

module _ (c : Curves) (f : Cbor DeviceProfile) where
  unfoldable pub call : Call → Platform → Device → Device
  unfolding complete adopt_account owner_keys device_keys
  call (completes style now) p d = (complete c f p style now d).0
  call (adopts account) p d = (adopt_account c f p account d).0
  call owner p d = (owner_keys c f p d).0
  call device p d = (device_keys c f p d).0

  unfoldable pub run : List (Call × Platform) → Device → Device
  unfolding call
  run [] d = d
  run ((x, p) ∷ xs) d = run xs (call x p d)

abbrev pub blank : Device
blank = record { keys = λ n. none; file = none }

PubOf-agree :
    (g : Bytes → Result SetupError DeviceKeys) (d : Device) (n : KeyName) (x y : Bytes)
    → PubOf g d n x
    → PubOf g d n y
    → x ≡ y
PubOf-agree g d n x y h h' =
    let secret = some_inj (sym h.stored ∙ h'.stored) in
    let pair = ok_inj (sym h.derived ∙ (ap g secret ∙ h'.derived)) in
    sym h.public_is ∙ (ap (λ k. k.public) pair ∙ h'.public_is)

module _ (c : Curves) (f : Cbor DeviceProfile) (trips : RoundTrips f) where
  call-Lives : (x : Call) (p : Platform) (d : Device) → Lives c f d (call c f x p d)
  unfolding call After owner_keys device_keys
  call-Lives (completes style now) p d = complete-Lives c f trips p style now d
  call-Lives (adopts account) p d = adopt_account-Lives c f trips p account d
  call-Lives owner p d = key_pair-Lives c f trips p owner_sealing owner_signing d
  call-Lives device p d = key_pair-Lives c f trips p device_x25519 device_ed25519 d

  -- A device that is not wiped keeps its identity: whatever its calls are and whatever the platform
  -- answers to them, a stored key stays the same, a profile on the disk stays but for its account,
  -- and an account that it names stays; and where the profile's public keys were those of the stored
  -- secrets, they still are.
  pub run-Lives : (xs : List (Call × Platform)) (d : Device) → Lives c f d (run c f xs d)
  unfolding run
  run-Lives [] d = Lives-refl c f d
  run-Lives ((x, p) ∷ xs) d =
      Lives-trans c f d (call c f x p d) (run c f xs (call c f x p d)) (call-Lives x p d)
        (run-Lives xs (call c f x p d))

  run-Sound : (xs : List (Call × Platform)) → Sound c f (run c f xs blank)
  unfolding Sound
  run-Sound xs = (run-Lives xs blank).sound (λ q on. absurd (ground (arith, on.file_is)))

  -- The owner's keys that a device hands out for sealing are those that its profile names: after any
  -- calls of the setup but `forget`, from a blank machine on, with a profile on the disk, the public
  -- keys that are handed out are those of secrets in the key store and those that the profile names,
  -- and afterwards no other profile is on the disk. The store keeps its keys over these calls; a
  -- restart that loses a store in memory is not among them.
  pub owner_keys-Named :
      (xs : List (Call × Platform)) (p : Platform) (q : DeviceProfile) (d : Device) (k : KeyPair)
      → OnDisk c f (run c f xs blank) q
      → owner_keys c f p (run c f xs blank) ≡ (d, ok k)
      → PubOf (x25519_keys c) d owner_sealing k.x25519.public
        × PubOf (ed25519_keys c) d owner_signing k.ed25519.public
        × (k.x25519.public ≡ q.owner_sealing_pub)
        × (k.ed25519.public ≡ q.owner_signing_pub)
        × ((q' : DeviceProfile) → OnDisk c f d q' → q' ≡ q)
  unfolding owner_keys key_pair Sound
  owner_keys-Named xs p q d k on h =
      let start = run c f xs blank in
      let (u, h₁) = fail_if-ok (not (is_set_up p start)) _ _ start h in
      let (t, a, s, h₂) = step-ok (x25519 c p owner_sealing) _ start h₁ in
      let (t', b, s', h₃) = step-ok (ed25519 c p owner_signing) _ t h₂ in
      let is = sym (ok_inj (ap (λ y. y.1) h₃)) in
      let m = run-Sound xs q on in
      let (x, sealing) = x25519-ok c p owner_sealing start s in
      let (x', signing) = ed25519-ok c p owner_signing t s' in
      let ends = ap (λ y. y.0) h₃ in
      let sealing_is = ap (λ y. y.x25519.public) is in
      let signing_is = ap (λ y. y.ed25519.public) is in
      let kept = Draws-trans start t t' x x' in
      (
        subst (λ y. PubOf (x25519_keys c) y owner_sealing k.x25519.public) ends
            (subst (PubOf (x25519_keys c) t' owner_sealing) (sym sealing_is)
              (PubOf-Draws (x25519_keys c) t t' owner_sealing a.public x' sealing)),
        subst (λ y. PubOf (ed25519_keys c) y owner_signing k.ed25519.public) ends
            (subst (PubOf (ed25519_keys c) t' owner_signing) (sym signing_is) signing),
        sealing_is
            ∙ PubOf-agree (x25519_keys c) t owner_sealing a.public q.owner_sealing_pub sealing
                (PubOf-Draws (x25519_keys c) start t owner_sealing q.owner_sealing_pub x m.sealing),
        signing_is
            ∙ PubOf-agree (ed25519_keys c) t' owner_signing b.public q.owner_signing_pub signing (
                PubOf-Draws (ed25519_keys c) start t' owner_signing q.owner_signing_pub kept
                  m.signing),
        λ q' on'.
            OnDisk-unique c f start q' q
              (OnDisk-file c f d start q' (sym kept.same_file ∙ ap (λ y. y.file) ends) on') on,
      )
