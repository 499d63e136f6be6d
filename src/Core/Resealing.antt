-- ===== src/Core/Resealing.antt =====
-- `seal_to_path`, `reseal_to_path` and `reseal_as_recipient_to_path` of
-- crates/zbacs-core/src/container.rs: a container file is replaced as a whole. What the file system
-- answers is an argument; the temporary file beside the container is not modelled.
use z_bacs.Prelude.{
  Bool, not, Option, some, [], Result, ok, err, ◌>>=◌, ◌>>◌, refuse_if, ok_or, length, ◌==◌,
}
use z_bacs.Prelude.Bytes.{Bytes}
use z_bacs.Core.External.{Suite}
use z_bacs.Core.Header.{
  Error, io, no_envelope, no_owner_key, envelope_seal, Policy, Header, Forms, key_id_of, unwrap,
}
use z_bacs.Core.Container.{
  SealOptions, Draws, prev_version, seal_signed, read_header, decrypt_name, find_envelope,
}

-- The plaintext file, if it opens, and which of the calls on the new container succeed.
pub record Files : Type 0 where
  pub input : Option Bytes
  pub creates : Bool
  pub syncs : Bool
  pub renames : Bool

-- The options of a next version: those of the version before, but for the policy.
unfoldable pub next_options : Header → Bytes → Bytes → Policy → SealOptions
unfolding prev_version
next_options prev hash name policy = record {
  policy = policy;
  owner_account = prev.body.own;
  file_name = name;
  chunk_size = prev.body.chunk;
  extra_recipients = [];
  prev = some (prev_version prev hash);
}

module _ (c : Suite) (f : Forms) where
  -- The header, and the container that stands in the place of the old one.
  unfoldable pub sealed_file :
      Files → Bytes → Bytes → SealOptions → Draws → Result Error (Header × Bytes)
  unfolding seal_signed
  sealed_file fs owner_pk sk opts draws = do
    input ← ok_or fs.input io
    refuse_if (not fs.creates) io
    (h, out) ← seal_signed c f input owner_pk sk opts draws
    refuse_if (not fs.syncs) io
    refuse_if (not fs.renames) io
    ok (h, out)

  -- An error leaves the container that was there.
  abbrev pub replaced :
      Option Bytes → Result Error (Header × Bytes) → Option Bytes × Result Error Header
  replaced old (err e) = (old, err e)
  replaced old (ok (h, out)) = (some out, ok h)

  unfoldable pub seal_signed_to_path :
      Files
      → Bytes
      → Bytes
      → SealOptions
      → Draws
      → Option Bytes
      → Option Bytes × Result Error Header
  unfolding sealed_file
  seal_signed_to_path fs owner_pk sk opts draws old =
      replaced old (sealed_file fs owner_pk sk opts draws)

  -- `seal_to_path`, with the secrets of the owner's keys.
  unfoldable pub seal_to_path :
      Files
      → Bytes
      → Bytes
      → SealOptions
      → Draws
      → Option Bytes
      → Option Bytes × Result Error Header
  unfolding sealed_file
  seal_to_path fs secret sk opts draws old = replaced old (
      refuse_if (not (length (c.x25519_public secret) == 32)) envelope_seal
      >> sealed_file fs (c.x25519_public secret) sk opts draws)

  -- `reseal_to_path`, up to the sealing.
  unfoldable pub next_as_owner : Bytes → Policy → Option Bytes → Result Error SealOptions
  unfolding read_header find_envelope key_id_of unwrap decrypt_name next_options
  next_as_owner secret policy old = do
    bytes ← ok_or old io
    (prev, hash, rest) ← read_header c f bytes
    e ← ok_or (find_envelope (key_id_of c (c.x25519_public secret)) prev.body.env) no_envelope
    dek ← unwrap c e secret prev.body.fid
    name ← decrypt_name c prev dek
    ok (next_options prev hash name policy)

  unfoldable pub reseal_to_path :
      Files → Bytes → Bytes → Policy → Draws → Option Bytes → Option Bytes × Result Error Header
  unfolding next_as_owner sealed_file
  reseal_to_path fs secret sk policy draws old = replaced old (
      next_as_owner secret policy old >>= λ opts.
      refuse_if (not (length (c.x25519_public secret) == 32)) envelope_seal
      >> sealed_file fs (c.x25519_public secret) sk opts draws)

  -- `reseal_as_recipient_to_path`, up to the sealing: the owner's key and the options.
  unfoldable pub next_as_recipient :
      Bytes → Policy → Option Bytes → Result Error (Bytes × SealOptions)
  unfolding read_header decrypt_name next_options
  next_as_recipient prev_dek policy old = do
    bytes ← ok_or old io
    (prev, hash, rest) ← read_header c f bytes
    opub ← ok_or prev.body.opub no_owner_key
    name ← decrypt_name c prev prev_dek
    ok (opub, next_options prev hash name policy)

  unfoldable pub reseal_as_recipient_to_path :
      Files → Bytes → Bytes → Policy → Draws → Option Bytes → Option Bytes × Result Error Header
  unfolding next_as_recipient sealed_file
  reseal_as_recipient_to_path fs prev_dek signer policy draws old = replaced old (
      next_as_recipient prev_dek policy old >>= λ (opub, opts).
      sealed_file fs opub signer opts draws)
