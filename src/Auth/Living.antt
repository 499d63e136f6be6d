-- ===== src/Auth/Living.antt =====
-- The calls of crates/zbacs-auth/src/setup.rs, one by one and in a row.
use z_bacs.Prelude.{
  ℕ, not, ◌≡◌, refl, ◌∙◌, ap, subst, Option, none, some, some_inj, List, Result, ok, err, ok_inj,
  arith, ok_or, ok_or-ok, >>=-ok, Bool-cases, inl, inr,
}
use z_bacs.Prelude.Steps.{step-cases, lift-cases, fail_if-cases}
use z_bacs.Prelude.Bytes.{Bytes, bytes_beq}
use z_bacs.Proto.External.{Cbor, RoundTrips}
use z_bacs.Auth.Setup.{
  SetupError, hardware, KeyName, ApprovalStyle, DeviceProfile, Pending, Prepared, Device, Curves,
  Platform, KeyPair, x25519, ed25519, is_set_up,
}
use z_bacs.Auth.Runs.{
  decoded, profile_in, profile, resume, write_profile, completed, complete, resumed, reopened,
  adopt_new, adopted, adopt_account, key_pair,
}
use z_bacs.Auth.Identity.{Draws-trans, x25519-ok, x25519-err, ed25519-ok, ed25519-err}
use z_bacs.Auth.FirstRun.{first_run-Lives}
use z_bacs.Auth.Life.{
  After, then_done, Continues, OnDisk-unique, decoded-schema, OnDisk, Sound, Lives, Lives-refl,
  Draws-Lives, write_profile-Lives,
}

module _ (c : Curves) (f : Cbor DeviceProfile) (trips : RoundTrips f) where
  profile_in-OnDisk :
      (d : Device) (o : Option Bytes) {q : DeviceProfile}
      → d.file ≡ o
      → profile_in c f o ≡ ok (some q)
      → OnDisk c f d q
  unfolding profile_in
  profile_in-OnDisk d none is h = absurd (ground arith)
  profile_in-OnDisk d (some b) is h =
      let (q', reads, same) = >>=-ok (decoded c f b) _ h in
      record { bytes = b; file_is = is; reads = reads ∙ ap ok (some_inj (ok_inj same)) }

  pub profile-OnDisk :
      (p : Platform) (d : Device) {q : DeviceProfile}
      → profile c f p d ≡ ok (some q)
      → OnDisk c f d q
  unfolding profile
  profile-OnDisk p d h = elim (Bool-cases p.reads) [
    | inl works ↦ profile_in-OnDisk d d.file refl (rw works at h)
    | inr fails ↦ absurd (ground (arith, h, fails))
  ]

  profile_in-none : (o : Option Bytes) → profile_in c f o ≡ ok none → o ≡ none
  unfolding profile_in
  profile_in-none none h = refl
  profile_in-none (some b) h =
      let (q, reads, same) = >>=-ok (decoded c f b) _ h in absurd (ground (arith, same))

  pub profile-none : (p : Platform) (d : Device) → profile c f p d ≡ ok none → d.file ≡ none
  unfolding profile
  profile-none p d h = elim (Bool-cases p.reads) [
    | inl works ↦ profile_in-none d.file (rw works at h)
    | inr fails ↦ absurd (ground (arith, h, fails))
  ]

  pub key_pair-Lives :
      (p : Platform) (x e : KeyName) (d : Device) → After c f d (key_pair c f p x e d)
  unfolding key_pair After
  key_pair-Lives p x e d =
      let P : Device × Result SetupError KeyPair → Type 0 = λ r. Lives c f d r.0 in
      fail_if-cases P (not (is_set_up p d)) (hardware "this device has not been set up yet") _ d
        (λ _. Lives-refl c f d)
        (λ _.
          step-cases P (x25519 c p x) _ d (λ t y h. Draws-Lives c f d t (x25519-err c p x d h))
            (λ t a h.
              let (one, _) = x25519-ok c p x d h in
              step-cases P (ed25519 c p e) _ t
                (λ t' y h'. Draws-Lives c f d t' (Draws-trans d t t' one (ed25519-err c p e t h')))
                (λ t' b h'.
                  let (two, _) = ed25519-ok c p e t h' in
                  Draws-Lives c f d t' (Draws-trans d t t' one two))))

  completed-Lives :
      (p : Platform) (style : ApprovalStyle) (now : ℕ) (d : Device)
      (r : Result SetupError (Option Prepared))
      → (r ≡ ok none → d.file ≡ none)
      → After c f d (completed c f p style now r d)
  unfolding completed After
  completed-Lives p style now d (err e) h = Lives-refl c f d
  completed-Lives p style now d (ok (some q)) h = Lives-refl c f d
  completed-Lives p style now d (ok none) h = first_run-Lives c f trips p style now d (h refl)

  resumed-none :
      (p : Platform) (r : Result SetupError (Option DeviceProfile))
      → resumed c f p r ≡ ok none
      → r ≡ ok none
  unfolding resumed
  resumed-none p (err e) h = absurd (ground (arith, h))
  resumed-none p (ok none) h = refl
  resumed-none p (ok (some q)) h =
      let (x, opens, same) = >>=-ok (reopened c f p q) _ h in absurd (ground (arith, same))

  pub complete-Lives :
      (p : Platform) (style : ApprovalStyle) (now : ℕ) (d : Device)
      → After c f d (complete c f p style now d)
  unfolding complete resume
  complete-Lives p style now d =
      completed-Lives p style now d (resume c f p d)
        (λ h. profile-none p d (resumed-none p (profile c f p d) h))

  adopted-Lives :
      (p : Platform) (account : Bytes) (q : DeviceProfile) (o : Option Bytes) (d : Device)
      → OnDisk c f d q
      → q.account ≡ o
      → After c f d (adopted c f p account q o d)
  unfolding After adopted adopt_new Sound
  adopted-Lives p account q (some existing) d on is =
      elim (Bool-cases (bytes_beq existing account)) [
        | inl same ↦ rw same (Lives-refl c f d)
        | inr other ↦ rw other (Lives-refl c f d)
      ]
  adopted-Lives p account q none d on is =
      then_done c f d d (write_profile c f p (record q { account = some account })) _ (
        write_profile-Lives c f p (record q { account = some account }) d trips
          (decoded-schema c f on.bytes on.reads)
          (λ q' on'.
            subst (λ x. Continues x (record q { account = some account }))
              (OnDisk-unique c f d q q' on on')
              (record {
                otherwise_same = refl;
                account_stays = λ a h. absurd (ground (arith, is, h));
              }))
          (λ s.
            let m = s q on in
            record {
              device_x = m.device_x;
              device_ed = m.device_ed;
              sealing = m.sealing;
              signing = m.signing;
            }))

  pub adopt_account-Lives :
      (p : Platform) (account : Bytes) (d : Device) → After c f d (adopt_account c f p account d)
  unfolding After adopt_account
  adopt_account-Lives p account d =
      let P : Device × Result SetupError (List Pending) → Type 0 = λ r. Lives c f d r.0 in
      lift-cases P (profile c f p d) _ d (λ _. Lives-refl c f d)
        (λ o is.
          lift-cases P (ok_or o (hardware "this device has not been set up yet")) _ d
            (λ _. Lives-refl c f d)
            (λ q there.
              adopted-Lives p account q q.account d
                (profile-OnDisk p d (is ∙ ap ok (ok_or-ok o _ there))) refl))
