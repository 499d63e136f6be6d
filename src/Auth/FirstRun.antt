-- ===== src/Auth/FirstRun.antt =====
-- The first run of crates/zbacs-auth/src/setup.rs: what it stores and writes.
use z_bacs.Prelude.{ℕ, not, ◌≡◌, refl, sym, subst, none, Result, ok, err, arith}
use z_bacs.Prelude.Steps.{step-cases, lift-cases, fail_if-cases}
use z_bacs.Prelude.Bytes.{Bytes}
use z_bacs.Proto.External.{Cbor, RoundTrips}
use z_bacs.Auth.{is_os}
use z_bacs.Auth.Setup.{
  SetupError, unsupported, KeyName, device_x25519, device_ed25519, owner_sealing, owner_signing,
  ApprovalStyle, signer_kind, device_confirmation, offers, DeviceProfile, Prepared, Device, Curves,
  Platform, LongLived, CreatedSigner, DeviceKeys, profile_schema, fixed32, x25519_keys,
  ed25519_keys, x25519, ed25519,
}
use z_bacs.Auth.Runs.{write_profile, new_profile, first_run, long_lived}
use z_bacs.Auth.Identity.{
  Draws, Draws-trans, PubOf, PubOf-Draws, x25519-ok, x25519-err, ed25519-ok, ed25519-err,
}
use z_bacs.Auth.Life.{
  After, then_done, Matches, Lives, Lives-refl, Lives-trans, Draws-Lives, write_profile-Lives,
}

fixed32-same : (b : Bytes) {x : Bytes} → fixed32 b ≡ ok x → x ≡ b
unfolding fixed32
fixed32-same b h = ground arith

PubOf-as :
    (g : Bytes → Result SetupError DeviceKeys) (d : Device) (n : KeyName) (b x : Bytes)
    → x ≡ b
    → PubOf g d n b
    → PubOf g d n x
PubOf-as g d n b x is h = subst (PubOf g d n) (sym is) h

module _ (c : Curves) (f : Cbor DeviceProfile) (trips : RoundTrips f) where
  -- The first profile, behind the steps that store its keys.
  written-Lives :
      (p : Platform) (q : DeviceProfile) (d t : Device)
      → d.file ≡ none
      → Draws d t
      → q.schema ≡ profile_schema
      → Matches c f t q
      → Lives c f d (write_profile c f p q t).0
  written-Lives p q d t bare x schema fits =
      Lives-trans c f d t (write_profile c f p q t).0 (Draws-Lives c f d t x) (
        write_profile-Lives c f p q t trips schema
          (λ q' on. absurd (ground (arith, on.file_is, x.same_file, bare))) (λ _. fits))

  -- The four keys are stored.
  data Stores (d : Device) : Device × Result SetupError LongLived → Type 0 where
    stops : {t : Device} {e : SetupError} → Draws d t → Stores d (t, err e)
    stores :
        {t : Device} {k : LongLived}
        → Draws d t
        → PubOf (x25519_keys c) t device_x25519 k.device_x.public
        → PubOf (ed25519_keys c) t device_ed25519 k.device_ed.public
        → PubOf (x25519_keys c) t owner_sealing k.sealing.public
        → PubOf (ed25519_keys c) t owner_signing k.signing.public
        → Stores d (t, ok k)

  long_lived-Stores : (p : Platform) (d : Device) → Stores d (long_lived c f p d)
  unfolding long_lived
  long_lived-Stores p d =
      let x = x25519_keys c in
      let e = ed25519_keys c in
      step-cases (Stores d) (x25519 c p device_x25519) _ d
        (λ t _ h. stops (x25519-err c p device_x25519 d h))
        (λ t₁ k₁ h₁.
          let (d₁, b₁) = x25519-ok c p device_x25519 d h₁ in
          step-cases (Stores d) (ed25519 c p device_ed25519) _ t₁
            (λ t _ h. stops (Draws-trans d t₁ t d₁ (ed25519-err c p device_ed25519 t₁ h)))
            (λ t₂ k₂ h₂.
              let (x₂, b₂) = ed25519-ok c p device_ed25519 t₁ h₂ in
              let d₂ = Draws-trans d t₁ t₂ d₁ x₂ in
              step-cases (Stores d) (x25519 c p owner_sealing) _ t₂
                (λ t _ h. stops (Draws-trans d t₂ t d₂ (x25519-err c p owner_sealing t₂ h)))
                (λ t₃ k₃ h₃.
                  let (x₃, b₃) = x25519-ok c p owner_sealing t₂ h₃ in
                  let d₃ = Draws-trans d t₂ t₃ d₂ x₃ in
                  step-cases (Stores d) (ed25519 c p owner_signing) _ t₃
                    (λ t _ h. stops (Draws-trans d t₃ t d₃ (ed25519-err c p owner_signing t₃ h)))
                    (λ t₄ k₄ h₄.
                      let (x₄, b₄) = ed25519-ok c p owner_signing t₃ h₄ in
                      let x₂₄ = Draws-trans t₂ t₃ t₄ x₃ x₄ in
                      stores (Draws-trans d t₃ t₄ d₃ x₄)
                        (PubOf-Draws x t₁ t₄ device_x25519 k₁.public (Draws-trans t₁ t₂ t₄ x₂ x₂₄)
                          b₁)
                        (PubOf-Draws e t₂ t₄ device_ed25519 k₂.public x₂₄ b₂)
                        (PubOf-Draws x t₃ t₄ owner_sealing k₃.public x₄ b₃) b₄))))

  stops-Draws : (d t : Device) {e : SetupError} → Stores d (t, err e) → Draws d t
  stops-Draws d t (stops x) = x

  stores-Draws : (d t : Device) {k : LongLived} → Stores d (t, ok k) → Draws d t
  stores-Draws d t (stores x _ _ _ _) = x

  new_profile-Matches :
      (style : ApprovalStyle) (now : ℕ) (created : CreatedSigner) (d t : Device) (k : LongLived)
      (x s : Bytes)
      → Stores d (t, ok k)
      → fixed32 k.device_x.public ≡ ok x
      → fixed32 k.sealing.public ≡ ok s
      → Matches c f t (new_profile c f style now created x k.device_ed.public s k.signing.public)
  unfolding new_profile
  new_profile-Matches style now created d t k x s (stores _ dx de so si) is_x is_s = record {
    device_x =
        PubOf-as (x25519_keys c) t device_x25519 k.device_x.public x
          (fixed32-same k.device_x.public is_x) dx;
    device_ed = de;
    sealing =
        PubOf-as (x25519_keys c) t owner_sealing k.sealing.public s
          (fixed32-same k.sealing.public is_s) so;
    signing = si;
  }

  pub first_run-Lives :
      (p : Platform) (style : ApprovalStyle) (now : ℕ) (d : Device)
      → d.file ≡ none
      → After c f d (first_run c f p style now d)
  unfolding first_run After new_profile
  first_run-Lives p style now d bare =
      let P : Device × Result SetupError Prepared → Type 0 = λ r. Lives c f d r.0 in
      let has = long_lived-Stores p d in
      fail_if-cases P (not (offers p.capabilities style)) (unsupported (signer_kind style)) _ d
        (λ _. Lives-refl c f d)
        (λ _.
          step-cases P (long_lived c f p) _ d
            (λ t e h. Draws-Lives c f d t (stops-Draws d t (subst (Stores d) h has)))
            (λ t k h.
              let all = subst (Stores d) h has in
              let drew = stores-Draws d t all in
              let stays = Draws-Lives c f d t drew in
              lift-cases P (p.creates style (is_os (device_confirmation style))) _ t (λ _. stays)
                (λ created _.
                  lift-cases P (fixed32 k.device_x.public) _ t (λ _. stays)
                    (λ x is_x.
                      lift-cases P (fixed32 k.sealing.public) _ t (λ _. stays)
                        (λ s is_s.
                          let q =
                            new_profile c f style now created x k.device_ed.public s
                              k.signing.public in
                          then_done c f d t (write_profile c f p q) _ (
                            written-Lives p q d t bare drew refl
                              (new_profile-Matches style now created d t k x s all is_x is_s)))))))
