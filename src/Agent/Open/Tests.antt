-- ===== src/Agent/Open/Tests.antt =====
-- The container of the tests of the container, at the open step.
use z_bacs.Prelude.{◌≡◌, refl, ok, some, [], ◌∷◌, ◌++◌, replicate, arith, inr, false, true}
use z_bacs.Prelude.Bytes.{Bytes, bytes_beq}
use z_bacs.Proto.Grant.{AccessGrantTerms}
use z_bacs.Session.{State, edit, new}
use z_bacs.Session.Requested.{counted, opening}
use z_bacs.Core.Header.{Envelope, wrap, key_id_of, header_hash, alg_hpke_x25519_chacha}
use z_bacs.Core.Toy.{suite, tag}
use z_bacs.Core.Tests.{
  file, secret, sk, options, draws, forms_of, made, container, sealed, suite-Laws, options-Sensible,
}
use z_bacs.Toy.{only, toy_hash, only-RoundTripsAt}
use z_bacs.Agent.Forms.{Forms}
use z_bacs.Agent.Exchange.Scenario.{forms}
use z_bacs.Agent.Request.Asking.{Held}
use z_bacs.Agent.Open.{Desk, Disk, bare, holds, well_named}
use z_bacs.Agent.Open.Materialising.{materialise}
use z_bacs.Agent.Open.Contents.{Grants, materialise-seal_signed}

abbrev hash : Bytes
hash = toy_hash (3 ∷ 4 ∷ [])

abbrev disk : Disk
disk = record {
  sealed = some container;
  creates = true;
  creates_file = true;
  renames = true;
  marks = true;
  wipes = true;
}

abbrev terms : AccessGrantTerms
terms = record {
  file_id = replicate 32 1;
  header_hash = hash;
  device_key_hash = replicate 32 2;
  permission = 2;
  not_before = 0;
  expiry = 2000;
  max_opens = 3;
  request_nonce = replicate 16 3;
  grant_nonce = 1;
}

abbrev device : Bytes
device = replicate 32 9

abbrev envelope : Envelope
envelope = record {
  alg = alg_hpke_x25519_chacha;
  kid = key_id_of suite device;
  enc = replicate 32 0;
  ct = draws.dek ++ tag;
}

abbrev held : Held
held = record {
  session = record new { state = State.granted; permission = some edit; max_opens = 3; opens = 2 };
  terms = some terms;
  envelope = some (6 ∷ []);
}

abbrev encodings : Forms
encodings = record forms { envelope = only envelope (6 ∷ []) }

abbrev desk : Desk
desk = record { held = held; workspace = bare }

held-Grants : Grants suite encodings held hash device draws.dek
unfolding wrap bytes_beq
held-Grants = record {
  terms = terms;
  bytes = 6 ∷ [];
  envelope = envelope;
  has_terms = refl;
  has_envelope = refl;
  granted = refl;
  version = refl;
  reads = refl;
  wrapped = refl;
}

hashed : header_hash suite (forms_of made) made ≡ ok hash
unfolding header_hash
hashed = refl

named : well_named options.file_name ≡ true
unfolding well_named bytes_beq
named = refl

materialise-seal_signed_example :
    materialise suite (forms_of made) encodings disk 1000 device desk ≡ (
      record {
        held = record held { session = counted held.session };
        workspace = holds options.file_name file false;
      },
      ok (record { name = options.file_name; effects = opening false }),
    )
materialise-seal_signed_example =
    materialise-seal_signed suite (forms_of made) encodings disk 1000 file secret device sk
      container hash options draws made desk suite-Laws (only-RoundTripsAt made (3 ∷ 4 ∷ []))
      options-Sensible refl refl (omega arith) sealed hashed
      (record { has = refl; creates = refl; creates_file = refl; renames = refl; marks = refl })
      held-Grants (inr (omega arith)) named

-- The same disk, on which the file cannot be renamed.
abbrev stuck : Disk
stuck = record disk { renames = false }
