-- ===== src/Auth/Setup.antt =====
-- crates/zbacs-auth/src/setup.rs: the first run of a device and every later one. The key store, the
-- profile's file, the signers of the platform and the random generator answer as `Platform` says,
-- anew in each call; CBOR and the curves are parameters. A step that fails leaves the store or the
-- file as it was. Error texts are kept without the parts that the platform fills in.
use z_bacs.Prelude.{
  ℕ, Bool, true, false, not, ◌&&◌, if◌then◌else◌, ◌==◌, Option, none, some, List, [], ◌∷◌, ◌++◌,
  length, String, Result, ok, err, ok_or,
}
use z_bacs.Prelude.Steps.{Steps, done, lift, fail_if, set, ◌>>=◌, ◌>>◌}
use z_bacs.Prelude.Bytes.{Bytes}
use z_bacs.Auth.{Confirmation, not_required, os_user_verification}

pub data SignerKind : Type 0 where
  platform_passkey device_key bsa otak : SignerKind

pub data SetupError : Type 0 where
  hardware : String → SetupError
  unsupported : SignerKind → SetupError
  malformed : String → SetupError
  encode : String → SetupError
  platform : String → SetupError

-- The entries of the key store (store.rs).
pub data KeyName : Type 0 where
  device_x25519 device_ed25519 owner_sealing owner_signing : KeyName

abbrev pub same_name : KeyName → KeyName → Bool
same_name device_x25519 device_x25519 = true
same_name device_ed25519 device_ed25519 = true
same_name owner_sealing owner_sealing = true
same_name owner_signing owner_signing = true
same_name _ _ = false

pub data ApprovalStyle : Type 0 where
  biometric this_device : ApprovalStyle

unfoldable pub signer_kind : ApprovalStyle → SignerKind
signer_kind biometric = platform_passkey
signer_kind this_device = device_key

unfoldable pub device_confirmation : ApprovalStyle → Confirmation
device_confirmation biometric = os_user_verification
device_confirmation this_device = not_required

pub record DeviceCapabilities : Type 0 where
  pub os_authenticator : Bool
  pub hardware_key : Bool
  pub persistent_store : Bool

unfoldable pub offers : DeviceCapabilities → ApprovalStyle → Bool
offers c biometric = c.os_authenticator
offers c this_device = true

unfoldable pub recommended : DeviceCapabilities → ApprovalStyle
recommended c = if c.os_authenticator then biometric else this_device

-- What the code reads of a signer.
pub record Signer : Type 0 where
  pub kind : SignerKind
  pub key_id : Bytes
  pub public_key : Option Bytes

pub record CreatedSigner : Type 0 where
  pub provider : Signer
  pub credential : Option Bytes
  pub hardware_backed : Bool

pub record DeviceProfile : Type 0 where
  pub schema : ℕ
  pub style : ApprovalStyle
  pub signer : SignerKind
  pub key_id : Bytes
  pub public_key : Option Bytes
  pub credential : Bytes
  pub require_os_confirm : Bool
  pub hardware_backed : Bool
  pub device_x25519_pub : Bytes
  pub device_ed25519_pub : Bytes
  pub owner_sealing_pub : Bytes
  pub owner_signing_pub : Bytes
  pub account : Option Bytes
  pub enrolled_on_chain : Bool
  pub created_at : ℕ

pub data Pending : Type 0 where
  account_on_chain device_enrolment recovery_code volatile_key_store software_signer : Pending

pub record Prepared : Type 0 where
  pub profile : DeviceProfile
  pub signer : Signer
  pub pending : List Pending

-- The key store and the profile's file. A store in memory (`MemoryKeyStore`) loses its keys where the
-- program is started again; that is not among the calls, over which the keys stay.
pub record Device : Type 0 where
  pub keys : KeyName → Option Bytes
  pub file : Option Bytes

abbrev pub put_key : KeyName → Bytes → Device → Device
put_key n s d = record d { keys = λ j. if same_name n j then some s else d.keys j }

abbrev pub remove_key : KeyName → Device → Device
remove_key n d = record d { keys = λ j. if same_name n j then none else d.keys j }

-- The public key of a 32-byte secret; that of X25519 may be refused.
pub record Curves : Type 0 where
  pub x25519_public : Bytes → Option Bytes
  pub ed25519_public : Bytes → Bytes

-- What the platform answers in the course of one call.
pub record Platform : Type 0 where
  pub gets : KeyName → Bool
  pub puts : KeyName → Bool
  pub deletes : KeyName → Bool
  pub draws : KeyName → Option Bytes
  pub capabilities : DeviceCapabilities
  pub creates : ApprovalStyle → Bool → Result SetupError CreatedSigner
  pub reopens : DeviceProfile → Result SetupError Signer
  pub finds : Bool
  pub reads : Bool
  pub dirs : Bool
  pub writes : Bool
  pub restricts : Bool
  pub renames : Bool
  pub removes : Bool

pub record DeviceKeys : Type 0 where
  pub secret : Bytes
  pub public : Bytes

pub record KeyPair : Type 0 where
  pub x25519 : DeviceKeys
  pub ed25519 : DeviceKeys

pub record LongLived : Type 0 where
  pub device_x : DeviceKeys
  pub device_ed : DeviceKeys
  pub sealing : DeviceKeys
  pub signing : DeviceKeys

abbrev pub profile_schema : ℕ
profile_schema = 1

unfoldable pub pending_for : Platform → DeviceProfile → List Pending
pending_for p profile =
    (if not (is_some profile.account) then account_on_chain ∷ [] else [])
    ++ ((if not profile.enrolled_on_chain then device_enrolment ∷ [] else [])
        ++ ((if not profile.hardware_backed then software_signer ∷ [] else [])
            ++ ((if not p.capabilities.persistent_store then volatile_key_store ∷ [] else [])
                ++ (recovery_code ∷ []))))
  where
    is_some : Option Bytes → Bool
    is_some (some a) = true
    is_some none = false

abbrev pub key_error : SetupError
key_error = hardware "key material"

-- `DeviceKeys::from_secret` and `SigningKeys::from_secret`.
unfoldable pub x25519_keys : Curves → Bytes → Result SetupError DeviceKeys
x25519_keys c secret =
    if length secret == 32
    then elim (c.x25519_public secret) [
      | none ↦ err key_error
      | some public ↦ ok (record { secret = secret; public = public })
    ]
    else err key_error

unfoldable pub ed25519_keys : Curves → Bytes → Result SetupError DeviceKeys
ed25519_keys c secret =
    if length secret == 32
    then ok (record { secret = secret; public = c.ed25519_public secret })
    else err key_error

unfoldable pub fixed32 : Bytes → Result SetupError Bytes
fixed32 b = if length b == 32 then ok b else err (malformed "public key is not 32 bytes")

-- A secret that is not in the store yet.
unfoldable pub fresh : Platform → KeyName → Steps Device SetupError Bytes
fresh p n d = go d
  where
    go : Steps Device SetupError Bytes
    go = do
      s ← lift (ok_or (p.draws n) key_error)
      fail_if (not (p.puts n)) (platform "keychain write")
      set (put_key n s)
      done s

unfoldable pub stored_or_fresh : Platform → KeyName → Option Bytes → Steps Device SetupError Bytes
unfolding fresh
stored_or_fresh p n (some found) d = (d, ok found)
stored_or_fresh p n none d = fresh p n d

unfoldable pub secret : Platform → KeyName → Steps Device SetupError Bytes
unfolding stored_or_fresh
secret p n d = go d
  where
    go : Steps Device SetupError Bytes
    go = do fail_if (not (p.gets n)) (platform "keychain read"); stored_or_fresh p n (d.keys n)

unfoldable pub x25519 : Curves → Platform → KeyName → Steps Device SetupError DeviceKeys
unfolding secret x25519_keys
x25519 c p n d = go d
  where
    go : Steps Device SetupError DeviceKeys
    go = do s ← secret p n; lift (x25519_keys c s)

unfoldable pub ed25519 : Curves → Platform → KeyName → Steps Device SetupError DeviceKeys
unfolding secret ed25519_keys
ed25519 c p n d = go d
  where
    go : Steps Device SetupError DeviceKeys
    go = do s ← secret p n; lift (ed25519_keys c s)

unfoldable pub is_set_up : Platform → Device → Bool
is_set_up p d = p.finds && elim d.file [ none ↦ false | some b ↦ true ]
