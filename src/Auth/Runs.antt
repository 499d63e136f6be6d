-- ===== src/Auth/Runs.antt =====
-- The operations of crates/zbacs-auth/src/setup.rs on the device's state.
use z_bacs.Prelude.{
  ℕ, Bool, true, false, not, if◌then◌else◌, ◌==◌, Option, none, some, List, [], ◌∷◌, String, Result,
  ok, err, map_err, ok_or,
}
use z_bacs.Prelude as Results
use z_bacs.Prelude.Steps.{Steps, done, lift, fail_if, set, ◌>>=◌, ◌>>◌}
use z_bacs.Prelude.Bytes.{Bytes, bytes_beq}
use z_bacs.Proto.External.{Cbor}
use z_bacs.Auth.{is_os}
use z_bacs.Auth.Setup.{
  SetupError, hardware, unsupported, malformed, encode, KeyName, device_x25519, device_ed25519,
  owner_sealing, owner_signing, ApprovalStyle, signer_kind, device_confirmation, offers,
  CreatedSigner, DeviceProfile, Pending, Prepared, Device, remove_key, Curves, Platform, KeyPair,
  LongLived, profile_schema, pending_for, fixed32, x25519, ed25519, is_set_up, platform,
}

module _ (c : Curves) (f : Cbor DeviceProfile) where
  unfoldable pub decoded : Bytes → Result SetupError DeviceProfile
  decoded bytes = elim (f.from_reader bytes) [
    | none ↦ err (encode "profile")
    | some profile ↦
        if profile.schema == profile_schema then ok profile else err (encode "profile schema")
  ]

  unfoldable pub profile_in : Option Bytes → Result SetupError (Option DeviceProfile)
  unfolding decoded
  profile_in none = ok none
  profile_in (some bytes) = Results.◌>>=◌ (decoded bytes) (λ q. ok (some q))

  unfoldable pub profile : Platform → Device → Result SetupError (Option DeviceProfile)
  unfolding profile_in
  profile p d = if p.reads then profile_in d.file else err (hardware "read profile")

  unfoldable pub reopened : Platform → DeviceProfile → Result SetupError Prepared
  unfolding pending_for
  reopened p q = elim (p.reopens q) [
    | err e ↦ err e
    | ok signer ↦
        if bytes_beq signer.key_id q.key_id
        then ok (record { profile = q; signer = signer; pending = pending_for p q })
        else err (hardware "stored approval key no longer matches this device")
  ]

  unfoldable pub resumed :
      Platform → Result SetupError (Option DeviceProfile) → Result SetupError (Option Prepared)
  unfolding reopened
  resumed p (err e) = err e
  resumed p (ok none) = ok none
  resumed p (ok (some q)) = Results.◌>>=◌ (reopened p q) (λ r. ok (some r))

  unfoldable pub resume : Platform → Device → Result SetupError (Option Prepared)
  unfolding profile resumed
  resume p d = resumed p (profile p d)

  unfoldable pub write_profile : Platform → DeviceProfile → Steps Device SetupError (Unit {0})
  write_profile p q d = go d
    where
      go : Steps Device SetupError (Unit {0})
      go = do
        fail_if (not p.dirs) (hardware "create config dir")
        bytes ← lift (map_err encode (f.into_writer q))
        fail_if (not p.writes) (hardware "write profile")
        fail_if (not p.restricts) (hardware "restrict profile")
        fail_if (not p.renames) (hardware "replace profile")
        set (λ d. record d { file = some bytes })

  unfoldable pub new_profile :
      ApprovalStyle → ℕ → CreatedSigner → Bytes → Bytes → Bytes → Bytes → DeviceProfile
  unfolding device_confirmation
  new_profile style now created device_x device_ed sealing signing = record {
    schema = profile_schema;
    style = style;
    signer = created.provider.kind;
    key_id = created.provider.key_id;
    public_key = created.provider.public_key;
    credential = elim created.credential [ none ↦ [] | some b ↦ b ];
    require_os_confirm = is_os (device_confirmation style);
    hardware_backed = created.hardware_backed;
    device_x25519_pub = device_x;
    device_ed25519_pub = device_ed;
    owner_sealing_pub = sealing;
    owner_signing_pub = signing;
    account = none;
    enrolled_on_chain = false;
    created_at = now;
  }

  -- The key material that `complete` loads or makes first.
  unfoldable pub long_lived : Platform → Steps Device SetupError LongLived
  unfolding x25519 ed25519
  long_lived p d = go d
    where
      go : Steps Device SetupError LongLived
      go = do
        device_x ← x25519 c p device_x25519
        device_ed ← ed25519 c p device_ed25519
        sealing ← x25519 c p owner_sealing
        signing ← ed25519 c p owner_signing
        done (record {
          device_x = device_x;
          device_ed = device_ed;
          sealing = sealing;
          signing = signing;
        })

  -- `complete`, on a machine that has not been set up.
  unfoldable pub first_run : Platform → ApprovalStyle → ℕ → Steps Device SetupError Prepared
  unfolding offers signer_kind long_lived new_profile fixed32 write_profile pending_for
  first_run p style now d = go d
    where
      go : Steps Device SetupError Prepared
      go = do
        fail_if (not (offers p.capabilities style)) (unsupported (signer_kind style))
        k ← long_lived p
        created ← lift (p.creates style (is_os (device_confirmation style)))
        x ← lift (fixed32 k.device_x.public)
        s ← lift (fixed32 k.sealing.public)
        let q = new_profile style now created x k.device_ed.public s k.signing.public
        write_profile p q
        done (record { profile = q; signer = created.provider; pending = pending_for p q })

  -- `complete`, behind `resume`.
  unfoldable pub completed :
      Platform
      → ApprovalStyle
      → ℕ
      → Result SetupError (Option Prepared)
      → Steps Device SetupError Prepared
  unfolding first_run
  completed p style now (err e) d = (d, err e)
  completed p style now (ok (some existing)) d = (d, ok existing)
  completed p style now (ok none) d = first_run p style now d

  unfoldable pub complete : Platform → ApprovalStyle → ℕ → Steps Device SetupError Prepared
  unfolding resume completed
  complete p style now d = completed p style now (resume p d) d

  unfoldable pub adopt_new : Platform → DeviceProfile → Steps Device SetupError (List Pending)
  unfolding write_profile pending_for
  adopt_new p q d = go d
    where
      go : Steps Device SetupError (List Pending)
      go = do write_profile p q; done (pending_for p q)

  -- `adopt_account`, on the account of the profile that was read.
  unfoldable pub adopted :
      Platform → Bytes → DeviceProfile → Option Bytes → Steps Device SetupError (List Pending)
  unfolding adopt_new pending_for
  adopted p account q none d = adopt_new p (record q { account = some account }) d
  adopted p account q (some existing) d =
      if bytes_beq existing account
      then (d, ok (pending_for p q))
      else (d, err (malformed "this device already belongs to another owner account"))

  unfoldable pub adopt_account : Platform → Bytes → Steps Device SetupError (List Pending)
  unfolding profile adopted
  adopt_account p account d = go d
    where
      go : Steps Device SetupError (List Pending)
      go = do
        o ← lift (profile p d)
        q ← lift (ok_or o (hardware "this device has not been set up yet"))
        adopted p account q q.account

  -- `owner_keys` and `device_keys`: a pair of keys, once the device is set up.
  unfoldable pub key_pair : Platform → KeyName → KeyName → Steps Device SetupError KeyPair
  unfolding is_set_up x25519 ed25519
  key_pair p x e d = go d
    where
      go : Steps Device SetupError KeyPair
      go = do
        fail_if (not (is_set_up p d)) (hardware "this device has not been set up yet")
        a ← x25519 c p x
        b ← ed25519 c p e
        done (record { x25519 = a; ed25519 = b })

  unfoldable pub owner_keys : Platform → Steps Device SetupError KeyPair
  unfolding key_pair
  owner_keys p = key_pair p owner_sealing owner_signing

  unfoldable pub device_keys : Platform → Steps Device SetupError KeyPair
  unfolding key_pair
  device_keys p = key_pair p device_x25519 device_ed25519

-- `forget`: the four keys, and then the profile.
unfoldable pub delete_key : Platform → KeyName → Steps Device SetupError (Unit {0})
delete_key p n d =
    if p.deletes n then (remove_key n d, ok tt) else (d, err (platform "keychain delete"))

unfoldable pub forget : Platform → Steps Device SetupError (Unit {0})
unfolding delete_key
forget p d = go d
  where
    go : Steps Device SetupError (Unit {0})
    go = do
      delete_key p device_x25519
      delete_key p device_ed25519
      delete_key p owner_sealing
      delete_key p owner_signing
      fail_if (not p.removes) (hardware "remove profile")
      set (λ d. record d { file = none })
