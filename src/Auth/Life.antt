-- ===== src/Auth/Life.antt =====
-- What every call of crates/zbacs-auth/src/setup.rs but `forget` keeps of a device: its keys, its
-- profile and account, and that the profile names the stored keys.
use z_bacs.Prelude.{
  not, ==_iff, ◌≡◌, refl, sym, ◌∙◌, ap, subst, some, some_inj, Result, ok, ok_inj, map_err,
  map_err-ok, arith,
}
use z_bacs.Prelude.Steps.{Steps, done, ◌>>=◌, step-cases, lift-cases, fail_if-cases}
use z_bacs.Prelude.Bytes.{Bytes}
use z_bacs.Proto.External.{Cbor, RoundTrips}
use z_bacs.Auth.Setup.{
  SetupError, hardware, encode, KeyName, device_x25519, device_ed25519, owner_sealing,
  owner_signing, DeviceProfile, Device, Curves, Platform, profile_schema, x25519_keys, ed25519_keys,
}
use z_bacs.Auth.Runs.{decoded, write_profile}
use z_bacs.Auth.Identity.{Draws, PubOf, PubOf-Draws, PubOf-keys}

-- The later profile differs in the account at most, and an account stays.
pub record Continues (q q' : DeviceProfile) : Type 0 where
  pub otherwise_same : q' ≡ record q { account = q'.account }
  pub account_stays : (a : Bytes) → q.account ≡ some a → q'.account ≡ some a

Continues-refl : (q : DeviceProfile) → Continues q q
Continues-refl q = record { otherwise_same = refl; account_stays = λ a h. h }

Continues-trans : (a b c : DeviceProfile) → Continues a b → Continues b c → Continues a c
Continues-trans a b c f g = record {
  otherwise_same =
      g.otherwise_same
      ∙ ap {A = DeviceProfile} {B = DeviceProfile} (λ x. record x { account = c.account })
          f.otherwise_same;
  account_stays = λ x h. g.account_stays x (f.account_stays x h);
}

module _ (c : Curves) (f : Cbor DeviceProfile) where
  pub record OnDisk (d : Device) (q : DeviceProfile) : Type 0 where
    pub bytes : Bytes
    pub file_is : d.file ≡ some bytes
    pub reads : decoded c f bytes ≡ ok q

  -- The profile's four public keys are those of the stored secrets.
  pub record Matches (d : Device) (q : DeviceProfile) : Type 0 where
    pub device_x : PubOf (x25519_keys c) d device_x25519 q.device_x25519_pub
    pub device_ed : PubOf (ed25519_keys c) d device_ed25519 q.device_ed25519_pub
    pub sealing : PubOf (x25519_keys c) d owner_sealing q.owner_sealing_pub
    pub signing : PubOf (ed25519_keys c) d owner_signing q.owner_signing_pub

  unfoldable pub Sound : Device → Type 0
  Sound d = (q : DeviceProfile) → OnDisk d q → Matches d q

  pub record Lives (before after : Device) : Type 0 where
    pub keys_stay : (n : KeyName) (b : Bytes) → before.keys n ≡ some b → after.keys n ≡ some b
    pub profile_stays :
        (q : DeviceProfile)
        → OnDisk before q
        → (q' : DeviceProfile) × OnDisk after q' × Continues q q'
    pub sound : Sound before → Sound after

  pub OnDisk-unique : (d : Device) (q q' : DeviceProfile) → OnDisk d q → OnDisk d q' → q ≡ q'
  OnDisk-unique d q q' h h' =
      let same = some_inj (sym h.file_is ∙ h'.file_is) in
      ok_inj (sym h.reads ∙ (ap (decoded c f) same ∙ h'.reads))

  pub decoded-schema :
      (b : Bytes) {q : DeviceProfile} → decoded c f b ≡ ok q → q.schema ≡ profile_schema
  unfolding decoded
  decoded-schema b h = ground (arith, h)

  pub OnDisk-file : (d t : Device) (q : DeviceProfile) → t.file ≡ d.file → OnDisk d q → OnDisk t q
  OnDisk-file d t q is h = record { bytes = h.bytes; file_is = is ∙ h.file_is; reads = h.reads }

  Matches-Draws : (d t : Device) (q : DeviceProfile) → Draws d t → Matches d q → Matches t q
  Matches-Draws d t q x h = record {
    device_x = PubOf-Draws _ d t _ _ x h.device_x;
    device_ed = PubOf-Draws _ d t _ _ x h.device_ed;
    sealing = PubOf-Draws _ d t _ _ x h.sealing;
    signing = PubOf-Draws _ d t _ _ x h.signing;
  }

  Matches-keys : (d t : Device) (q : DeviceProfile) → t.keys ≡ d.keys → Matches d q → Matches t q
  Matches-keys d t q is h = record {
    device_x = PubOf-keys _ d t _ _ is h.device_x;
    device_ed = PubOf-keys _ d t _ _ is h.device_ed;
    sealing = PubOf-keys _ d t _ _ is h.sealing;
    signing = PubOf-keys _ d t _ _ is h.signing;
  }

  pub Lives-refl : (d : Device) → Lives d d
  Lives-refl d = record {
    keys_stay = λ n b h. h;
    profile_stays = λ q h. (q, h, Continues-refl q);
    sound = λ h. h;
  }

  pub Lives-trans : (a b d : Device) → Lives a b → Lives b d → Lives a d
  Lives-trans a b d x y = record {
    keys_stay = λ n k h. y.keys_stay n k (x.keys_stay n k h);
    profile_stays = λ q h.
        let (q', h', s) = x.profile_stays q h in
        let (q'', h'', s') = y.profile_stays q' h' in (q'', h'', Continues-trans q q' q'' s s');
    sound = λ h. y.sound (x.sound h);
  }

  pub Draws-Lives : (d t : Device) → Draws d t → Lives d t
  unfolding Sound
  Draws-Lives d t x = record {
    keys_stay = x.keys_stay;
    profile_stays = λ q h. (q, OnDisk-file d t q x.same_file h, Continues-refl q);
    sound = λ h q on. Matches-Draws d t q x (h q (OnDisk-file t d q (sym x.same_file) on));
  }

  pub decoded-written :
      (q : DeviceProfile) {b : Bytes}
      → RoundTrips f
      → q.schema ≡ profile_schema
      → f.into_writer q ≡ ok b
      → decoded c f b ≡ ok q
  unfolding decoded
  decoded-written q {b = b} trips schema h =
      let back = trips.read-written q b h in
      let same = (==_iff q.schema profile_schema).1 schema in rw (decoded, back, same) refl

  replaced-Lives :
      (q : DeviceProfile) (b : Bytes) (d : Device)
      → decoded c f b ≡ ok q
      → ((q' : DeviceProfile) → OnDisk d q' → Continues q' q)
      → (Sound d → Matches d q)
      → Lives d (record d { file = some b })
  unfolding Sound
  replaced-Lives q b d reads follows fits =
      let t : Device = record d { file = some b } in
      record {
        keys_stay = λ n k h. h;
        profile_stays =
            λ q' h. (q, record { bytes = b; file_is = refl; reads = reads }, follows q' h);
        sound = λ h q' on.
            let same : q ≡ q' =
              ok_inj (sym reads ∙ (ap (decoded c f) (some_inj on.file_is) ∙ on.reads)) in
            subst (Matches t) same (Matches-keys d t q refl (fits h));
      }

  pub write_profile-Lives :
      (p : Platform) (q : DeviceProfile) (d : Device)
      → RoundTrips f
      → q.schema ≡ profile_schema
      → ((q' : DeviceProfile) → OnDisk d q' → Continues q' q)
      → (Sound d → Matches d q)
      → Lives d (write_profile c f p q d).0
  unfolding write_profile Sound
  write_profile-Lives p q d trips schema follows fits =
      let P : Device × Result SetupError (Unit {0}) → Type 0 = λ r. Lives d r.0 in
      let stays = Lives-refl d in
      fail_if-cases P (not p.dirs) (hardware "create config dir") _ d (λ _. stays)
        (λ _.
          lift-cases P (map_err encode (f.into_writer q)) _ d (λ _. stays)
            (λ b written.
              fail_if-cases P (not p.writes) (hardware "write profile") _ d (λ _. stays)
                (λ _.
                  fail_if-cases P (not p.restricts) (hardware "restrict profile") _ d (λ _. stays)
                    (λ _.
                      fail_if-cases P (not p.renames) (hardware "replace profile") _ d (λ _. stays)
                        (λ _.
                          replaced-Lives q b d
                            (decoded-written q trips schema
                              (map_err-ok encode (f.into_writer q) written))
                            follows fits)))))

  unfoldable pub After : {A : Type 0} → Device → Device × Result SetupError A → Type 0
  After d r = Lives d r.0

  -- A step and what is left to do without a change.
  pub then_done :
      {A B : Type 0} (d t : Device) (m : Steps Device SetupError A) (b : B)
      → After d (m t)
      → After d ((m >>= λ u. done b) t)
  unfolding After
  then_done d t m b h =
      step-cases (λ r. Lives d r.0) m (λ u. done b) t (λ t' e is. subst (λ r. Lives d r.0) is h)
        (λ t' a is. subst (λ r. Lives d r.0) is h)
