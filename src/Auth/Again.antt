-- ===== src/Auth/Again.antt =====
-- `complete` of crates/zbacs-auth/src/setup.rs, called again.
use z_bacs.Prelude.{
  ℕ, true, not, ◌≡◌, refl, sym, ◌∙◌, ap, subst, Option, none, some, some_inj, Result, ok, err,
  ok_inj, map_err, map_err-ok, >>=-ok, arith,
}
use z_bacs.Prelude.Steps.{lift-ok, fail_if-ok, step-cases, lift-cases, fail_if-cases}
use z_bacs.Prelude.Bytes.{Bytes, bytes_beq_iff}
use z_bacs.Proto.External.{Cbor, RoundTrips}
use z_bacs.Auth.{is_os}
use z_bacs.Auth.Setup.{
  SetupError, unsupported, encode, ApprovalStyle, signer_kind, device_confirmation, offers, fixed32,
  Signer, DeviceProfile, Prepared, Device, Curves, Platform, profile_schema, pending_for,
}
use z_bacs.Auth.Runs.{
  profile_in, profile, resumed, reopened, resume, write_profile, new_profile, first_run, long_lived,
  completed, complete,
}
use z_bacs.Auth.Life.{OnDisk, decoded-written}
use z_bacs.Auth.Living.{profile-OnDisk}

module _ (c : Curves) (f : Cbor DeviceProfile) (trips : RoundTrips f) where
  profile-found :
      (p : Platform) (d : Device) (q : DeviceProfile)
      → p.reads ≡ true
      → OnDisk c f d q
      → profile c f p d ≡ ok (some q)
  unfolding profile profile_in
  profile-found p d q reads on = rw (profile, reads) (found d.file on.file_is)
    where
      found : (o : Option Bytes) → o ≡ some on.bytes → profile_in c f o ≡ ok (some q)
      found o is = rw (is, profile_in, on.reads) refl

  write_profile-OnDisk :
      (p : Platform) (q : DeviceProfile) (d : Device) {d' : Device} {u : Unit {0}}
      → q.schema ≡ profile_schema
      → write_profile c f p q d ≡ (d', ok u)
      → OnDisk c f d' q
  unfolding write_profile
  write_profile-OnDisk p q d schema h =
      let (_, h₁) = fail_if-ok (not p.dirs) _ _ d h in
      let (b, written, h₂) = lift-ok (map_err encode (f.into_writer q)) _ d h₁ in
      let (_, h₃) = fail_if-ok (not p.writes) _ _ d h₂ in
      let (_, h₄) = fail_if-ok (not p.restricts) _ _ d h₃ in
      let (_, h₅) = fail_if-ok (not p.renames) _ _ d h₄ in
      record {
        bytes = b;
        file_is = sym (ap (λ y. y.0.file) h₅);
        reads = decoded-written c f q trips schema (map_err-ok encode (f.into_writer q) written);
      }

  data Wrote : Device × Result SetupError Prepared → Type 0 where
    stopped : {t : Device} {e : SetupError} → Wrote (t, err e)
    wrote : {t : Device} {r : Prepared} → OnDisk c f t r.profile → Wrote (t, ok r)

  first_run-Wrote :
      (p : Platform) (style : ApprovalStyle) (now : ℕ) (d : Device)
      → Wrote (first_run c f p style now d)
  unfolding first_run new_profile
  first_run-Wrote p style now d =
      fail_if-cases Wrote (not (offers p.capabilities style)) (unsupported (signer_kind style)) _ d
        (λ _. stopped)
        (λ _.
          step-cases Wrote (long_lived c f p) _ d (λ _ _ _. stopped)
            (λ t k _.
              lift-cases Wrote (p.creates style (is_os (device_confirmation style))) _ t
                (λ _. stopped)
                (λ created _.
                  lift-cases Wrote (fixed32 k.device_x.public) _ t (λ _. stopped)
                    (λ x _.
                      lift-cases Wrote (fixed32 k.sealing.public) _ t (λ _. stopped)
                        (λ s _.
                          let q =
                            new_profile c f style now created x k.device_ed.public s
                              k.signing.public in
                          step-cases Wrote (write_profile c f p q) _ t (λ _ _ _. stopped)
                            (λ t' u h. wrote (write_profile-OnDisk p q t refl h)))))))

  first_run-OnDisk :
      (p : Platform) (style : ApprovalStyle) (now : ℕ) (d : Device) {d' : Device} {r : Prepared}
      → first_run c f p style now d ≡ (d', ok r)
      → OnDisk c f d' r.profile
  first_run-OnDisk p style now d h = written (subst Wrote h (first_run-Wrote p style now d))
    where
      written : {t : Device} {r : Prepared} → Wrote (t, ok r) → OnDisk c f t r.profile
      written (wrote on) = on

  reopened-profile :
      (p : Platform) (q : DeviceProfile) {r : Prepared} → reopened c f p q ≡ ok r → q ≡ r.profile
  unfolding reopened
  reopened-profile p q h = ground arith

  resumed-OnDisk :
      (p : Platform) (d : Device) (x : Result SetupError (Option DeviceProfile)) {r : Prepared}
      → profile c f p d ≡ x
      → resumed c f p x ≡ ok (some r)
      → OnDisk c f d r.profile
  unfolding resumed reopened
  resumed-OnDisk p d (err e) is h = absurd (ground (arith, h))
  resumed-OnDisk p d (ok none) is h = absurd (ground (arith, h))
  resumed-OnDisk p d (ok (some q)) is_profile h =
      let (x, opens, same) = >>=-ok (reopened c f p q) _ h in
      let is = reopened-profile p q opens in
      subst (OnDisk c f d) (is ∙ ap (λ y. y.profile) (some_inj (ok_inj same)))
        (profile-OnDisk c f trips p d is_profile)

  completed-OnDisk :
      (p : Platform) (style : ApprovalStyle) (now : ℕ) (d : Device)
      (x : Result SetupError (Option Prepared)) {d' : Device} {r : Prepared}
      → resume c f p d ≡ x
      → completed c f p style now x d ≡ (d', ok r)
      → OnDisk c f d' r.profile
  unfolding completed resume
  completed-OnDisk p style now d (err e) is h = absurd (ground (arith, h))
  completed-OnDisk p style now d (ok none) is h = first_run-OnDisk p style now d h
  completed-OnDisk p style now d (ok (some x)) {d' = d'} is h =
      let same = ok_inj (ap (λ y. y.1) h) in
      subst (OnDisk c f d') (ap (λ y. y.profile) same) (
        subst (λ y. OnDisk c f y x.profile) (ap (λ y. y.0) h)
          (resumed-OnDisk p d (profile c f p d) refl is))

  reopened-same :
      (p : Platform) (q : DeviceProfile) (signer : Signer)
      → p.reopens q ≡ ok signer
      → signer.key_id ≡ q.key_id
      → resumed c f p (ok (some q))
        ≡ ok (some (record { profile = q; signer = signer; pending = pending_for p q }))
  unfolding resumed reopened
  reopened-same p q signer opens same =
      let is = (bytes_beq_iff signer.key_id q.key_id).1 same in
      rw (resumed, reopened, opens, is) refl

  -- `complete` may be called again: what it wrote is found by every later call on the same device,
  -- with whatever style, clock and key store, that can read the file and whose platform opens the same
  -- approval key. It returns the profile that was written and changes nothing.
  pub complete-again :
      (p p' : Platform) (style style' : ApprovalStyle) (now now' : ℕ) (d d' : Device) (r : Prepared)
      (signer : Signer)
      → complete c f p style now d ≡ (d', ok r)
      → p'.reads ≡ true
      → p'.reopens r.profile ≡ ok signer
      → signer.key_id ≡ r.profile.key_id
      → complete c f p' style' now' d' ≡ (
        d',
        ok (record { profile = r.profile; signer = signer; pending = pending_for p' r.profile }),
      )
  unfolding complete resume completed
  complete-again p p' style style' now now' d d' r signer h reads opens same =
      let on = completed-OnDisk p style now d (resume c f p d) refl h in
      ap (λ x. completed c f p' style' now' (resumed c f p' x) d')
        (profile-found p' d' r.profile reads on)
      ∙ ap (λ x. completed c f p' style' now' x d') (reopened-same p' r.profile signer opens same)
