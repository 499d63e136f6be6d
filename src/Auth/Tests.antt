-- ===== src/Auth/Tests.antt =====
-- A device that is set up, at concrete inputs.
use z_bacs.Prelude.{
  Bool, true, false, ◌&&◌, if◌then◌else◌, ◌==◌, ◌≡◌, refl, Option, none, some, List, [], ◌∷◌, ok,
  err, replicate, arith,
}
use z_bacs.Prelude.Bytes.{Bytes, bytes_beq, bytes_beq_iff}
use z_bacs.Proto.External.{Cbor, RoundTrips}
use z_bacs.Auth.Setup.{
  SignerKind, device_key, KeyName, device_x25519, device_ed25519, owner_sealing, owner_signing,
  ApprovalStyle, biometric, this_device, Signer, DeviceProfile, Device, Curves, Platform, Prepared,
  KeyPair, pending_for, x25519_keys, ed25519_keys,
}
use z_bacs.Auth.Runs.{complete, owner_keys, forget}
use z_bacs.Auth.Life.{OnDisk, Lives}
use z_bacs.Auth.Identity.{PubOf}
use z_bacs.Auth.Kept.{Call, completes, owner, blank, run, run-Lives, owner_keys-Named}
use z_bacs.Auth.Again.{complete-again}

abbrev curves : Curves
curves = record { x25519_public = λ s. some s; ed25519_public = λ s. s }

abbrev signer : Signer
signer = record { kind = device_key; key_id = 7 ∷ []; public_key = none }

abbrev draw : KeyName → Option Bytes
draw device_x25519 = some (replicate 32 1)
draw device_ed25519 = some (replicate 32 2)
draw owner_sealing = some (replicate 32 3)
draw owner_signing = some (replicate 32 4)

abbrev works : Platform
works = record {
  gets = λ n. true;
  puts = λ n. true;
  deletes = λ n. true;
  draws = draw;
  capabilities = record { os_authenticator = false; hardware_key = true; persistent_store = true };
  creates = λ style b. ok (record { provider = signer; credential = none; hardware_backed = true });
  reopens = λ q. ok signer;
  finds = true;
  reads = true;
  dirs = true;
  writes = true;
  restricts = true;
  renames = true;
  removes = true;
}

abbrev made : DeviceProfile
made = record {
  schema = 1;
  style = this_device;
  signer = device_key;
  key_id = 7 ∷ [];
  public_key = none;
  credential = [];
  require_os_confirm = false;
  hardware_backed = true;
  device_x25519_pub = replicate 32 1;
  device_ed25519_pub = replicate 32 2;
  owner_sealing_pub = replicate 32 3;
  owner_signing_pub = replicate 32 4;
  account = none;
  enrolled_on_chain = false;
  created_at = 100;
}

abbrev is_none : Option Bytes → Bool
is_none none = true
is_none (some b) = false

abbrev is_this_device : ApprovalStyle → Bool
is_this_device this_device = true
is_this_device biometric = false

abbrev is_device_key : SignerKind → Bool
is_device_key device_key = true
is_device_key _ = false

-- Whether a profile is the one above.
abbrev is_made : DeviceProfile → Bool
is_made q =
    q.schema == 1
    && (is_this_device q.style
        && (is_device_key q.signer
            && (bytes_beq q.key_id made.key_id
                && (is_none q.public_key
                    && (bytes_beq q.credential made.credential
                        && ((if q.require_os_confirm then false else true)
                            && (q.hardware_backed
                                && (bytes_beq q.device_x25519_pub made.device_x25519_pub
                                    && (bytes_beq q.device_ed25519_pub made.device_ed25519_pub
                                        && (bytes_beq q.owner_sealing_pub made.owner_sealing_pub
                                            && (bytes_beq q.owner_signing_pub made.owner_signing_pub
                                                && (is_none q.account
                                                    && ((if q.enrolled_on_chain
                                                          then false
                                                          else true)
                                                        && q.created_at == 100)))))))))))))

is_made-eq : (q : DeviceProfile) → is_made q ≡ true → q ≡ made
is_made-eq q h = ground (
  arith,
  bytes_beq_iff q.key_id made.key_id,
  bytes_beq_iff q.credential made.credential,
  bytes_beq_iff q.device_x25519_pub made.device_x25519_pub,
  bytes_beq_iff q.device_ed25519_pub made.device_ed25519_pub,
  bytes_beq_iff q.owner_sealing_pub made.owner_sealing_pub,
  bytes_beq_iff q.owner_signing_pub made.owner_signing_pub,
)

-- An encoding that takes that profile only.
abbrev encoding : Cbor DeviceProfile
encoding = record {
  into_writer = λ q. if is_made q then ok (9 ∷ []) else err "another profile";
  from_reader = λ b. some made;
}

encoding-RoundTrips : RoundTrips encoding
encoding-RoundTrips = record { read-written = λ q b h. ground (arith, is_made-eq q, h) }

abbrev calls : List (Call × Platform)
calls = (completes this_device 100, works) ∷ (owner, works) ∷ []

abbrev ready : Device
ready = record { keys = draw; file = some (9 ∷ []) }

run-Lives_example : Lives curves encoding blank (run curves encoding calls blank)
run-Lives_example = run-Lives curves encoding encoding-RoundTrips calls blank

abbrev after : Device
after = run curves encoding calls blank

abbrev keys : KeyPair
keys = record {
  x25519 = record { secret = replicate 32 3; public = replicate 32 3 };
  ed25519 = record { secret = replicate 32 4; public = replicate 32 4 };
}

on_disk : OnDisk curves encoding after made
unfolding run bytes_beq
on_disk = record { bytes = 9 ∷ []; file_is = refl; reads = refl }

hands_out : owner_keys curves encoding works after ≡ (after, ok keys)
unfolding run bytes_beq
hands_out = refl

owner_keys-Named_example :
    PubOf (x25519_keys curves) after owner_sealing keys.x25519.public
    × PubOf (ed25519_keys curves) after owner_signing keys.ed25519.public
    × (keys.x25519.public ≡ made.owner_sealing_pub)
    × (keys.ed25519.public ≡ made.owner_signing_pub)
    × ((q : DeviceProfile) → OnDisk curves encoding after q → q ≡ made)
owner_keys-Named_example =
    owner_keys-Named curves encoding encoding-RoundTrips calls works made after keys on_disk
      hands_out

abbrev first : Device
first = (complete curves encoding works this_device 100 blank).0

abbrev prepared : Prepared
prepared = record { profile = made; signer = signer; pending = pending_for works made }

completes_first : complete curves encoding works this_device 100 blank ≡ (first, ok prepared)
unfolding complete bytes_beq
completes_first = refl

complete-again_example : complete curves encoding works biometric 200 first ≡ (first, ok prepared)
complete-again_example =
    complete-again curves encoding encoding-RoundTrips works works this_device biometric 100 200
      blank first prepared signer completes_first refl refl refl

-- A wipe that stops at the last key leaves the profile and the way to a new sealing key.
abbrev stuck : Platform
stuck = record works { deletes = λ n. elim n [ owner_signing ↦ false | _ ↦ true ] }

abbrev again : Platform
again = record works { draws = λ n. some (replicate 32 8) }

new_owner :
    (elim (owner_keys curves encoding again (forget stuck first).0).1 [
      | ok k ↦ some k.x25519.public
      | err e ↦ none
    ])
    ≡ some (replicate 32 8)
unfolding complete owner_keys forget bytes_beq
new_owner = refl
