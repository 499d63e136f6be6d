-- ===== src/Agent/Exchange/Edits.antt =====
-- A save at concrete inputs: the container of the container's tests, edited by a device that holds a
-- grant for it, and the ledger of its owner.
use z_bacs.Prelude.{
  Bool, true, false, ◌&&◌, ◌==◌, if◌then◌else◌, ◌≡◌, refl, Option, some, none, [], ◌∷◌, ◌++◌,
  Result, String, ok, err, ok_inj, sym, ◌∙◌, ap, subst, ◌≢◌, replicate, arith,
}
use z_bacs.Prelude.Bytes.{Bytes, bytes_beq, bytes_beq_iff, to_le_bytes, from_le_bytes, to_be_bytes}
use z_bacs.Session.{resealing, edit, new}
use z_bacs.Proto.External.{Cbor, RoundTrips, RoundTripsAt}
use z_bacs.Proto.Grant.{AccessGrantTerms, struct_hash}
use z_bacs.Core.Header as Headers
use z_bacs.Core.Header.{
  Error, Header, Envelope, wrap, sign_header, encode_header, key_id_of, alg_hpke_x25519_chacha,
}
use z_bacs.Core.Container.{
  Draws, make_header, encrypt_name, wrap_all, successor, seal_chunks, chunk_count, read_header,
  seal_signed,
}
use z_bacs.Core.Resealing.{Files, reseal_as_recipient_to_path}
use z_bacs.Core.Toy.{suite, tag}
use z_bacs.Core.Tests.{secret, sk, options, forms_of, made, container, header_of, suite-Laws}
use z_bacs.Toy.{toy_hash}
use z_bacs.Agent.Forms.{Forms}
use z_bacs.Agent.Ledger.{File, Entry, Grant, default_file, load, replacement}
use z_bacs.Agent.Ledger.Calls.{find_grant}
use z_bacs.Agent.Dict.{get}
use z_bacs.Agent.Approve.Rewrapping.{Inspect}
use z_bacs.Agent.Request.Asking.{Held}
use z_bacs.Agent.Exchange.Scenario.{forms, json, works}
use z_bacs.Agent.Open.Saving.{Desk, Saving, Saved, save}
use z_bacs.Agent.Open.Announcing.{save-then-refused}
use z_bacs.Agent.Exchange.Saved.{Knows, Takes, save-Takes}

abbrev hash : Bytes
hash = toy_hash (3 ∷ 4 ∷ [])

-- The encodings of two headers, told apart by their version.
abbrev pub two : Header → Headers.Forms
two h = record (forms_of made) {
  header = record {
    into_writer = λ x. ok (if x.body.ver == 1 then 3 ∷ 4 ∷ [] else 5 ∷ 6 ∷ []);
    from_reader = λ r.
        if bytes_beq r (3 ∷ 4 ∷ [])
        then some made
        else if bytes_beq r (5 ∷ 6 ∷ [])
        then some h
        else none;
  };
}

abbrev pub files : Files
files = record { input = some (7 ∷ 8 ∷ 9 ∷ []); creates = true; syncs = true; renames = true }

abbrev pub draws : Draws
draws = record { dek = replicate 32 6; np = replicate 16 7; salt = replicate 16 8 }

abbrev old_dek : Bytes
old_dek = replicate 32 3

abbrev pub second : Header
second =
    header_of
      (reseal_as_recipient_to_path suite (two made) files old_dek sk options.policy draws
        (some container)).1

abbrev pub terms : AccessGrantTerms
terms = record {
  file_id = replicate 32 1;
  header_hash = hash;
  device_key_hash = replicate 32 2;
  permission = 2;
  not_before = 0;
  expiry = 2000;
  max_opens = 3;
  request_nonce = replicate 16 3;
  grant_nonce = 1;
}

abbrev pub device : Bytes
device = replicate 32 9

abbrev envelope_to : Bytes → Bytes → Envelope
envelope_to pk dek = record {
  alg = alg_hpke_x25519_chacha;
  kid = key_id_of suite pk;
  enc = replicate 32 0;
  ct = dek ++ tag;
}

abbrev same_envelope : Envelope → Envelope → Bool
same_envelope a b =
    bytes_beq a.kid b.kid
    && (bytes_beq a.alg b.alg && (bytes_beq a.enc b.enc && bytes_beq a.ct b.ct))

same_envelope_eq : (a b : Envelope) → same_envelope a b ≡ true → a ≡ b
same_envelope_eq a b h = ground (
  arith,
  bytes_beq_iff a.kid b.kid,
  bytes_beq_iff a.alg b.alg,
  bytes_beq_iff a.enc b.enc,
  bytes_beq_iff a.ct b.ct,
)

-- The envelope of the grant is read, that of the new version is written and read.
abbrev envelope_form : Envelope → Envelope → Cbor Envelope
envelope_form held mine = record {
  into_writer = λ e. if same_envelope e mine then ok (7 ∷ []) else err "other envelope";
  from_reader = λ r.
      if bytes_beq r (6 ∷ []) then some held else if bytes_beq r (7 ∷ []) then some mine else none;
}

envelope_form-RoundTrips : (held mine : Envelope) → RoundTrips (envelope_form held mine)
unfolding bytes_beq
envelope_form-RoundTrips held mine = record {
  read-written = λ a b h. ground (arith, same_envelope_eq a mine, bytes_beq_iff b (7 ∷ []));
}

abbrev pub encodings : Forms
encodings = record forms {
  envelope = envelope_form (envelope_to device old_dek) (envelope_to secret draws.dek);
}

abbrev pub held : Held
held = record {
  session = record new { state = resealing; permission = some edit };
  terms = some terms;
  envelope = some (6 ∷ []);
}

abbrev pub saving : Saving
saving = record {
  secret = device;
  signer = sk;
  files = files;
  draws = draws;
  reopens = true;
  sends = true;
  now = 1000;
}

abbrev desk : Desk
desk = record { held = held; sealed = some container; sent = [] }

abbrev known : Entry
known = record {
  fid = made.body.fid;
  header_hash = hash;
  name = 2 ∷ [];
  path = 3 ∷ [];
  permission = 4 ∷ [];
  ttl = 600;
  max_opens = 3;
  sealed_at = 100;
  ver = 1;
  owner_envelope = none;
  registered_tx = none;
}

abbrev id : Bytes
id = struct_hash suite.primitives terms

abbrev given : Grant
given = record {
  grant_id = id;
  fid = made.body.fid;
  file_name = 2 ∷ [];
  permission = 4 ∷ [];
  expiry = 2000;
  granted_at = 500;
  revoked_at = none;
  tx_hash = none;
  revoke_tx = none;
}

abbrev ledger : File
ledger = record default_file { files = (made.body.fid, known) ∷ []; grants = (id, given) ∷ [] }

abbrev after : Desk × Result String Saved
after = save suite (two second) encodings saving desk

abbrev no_notice : Saved
no_notice = record {
  ver = 0;
  header_hash = [];
  notice = record {
    fid = [];
    owner = [];
    prev_header_hash = [];
    header_hash = [];
    ver = 0;
    grant_id = [];
    owner_envelope = [];
    ed25519_pub = [];
    ts = 0;
  };
}

abbrev out : Saved
out = elim after.1 [ ok o ↦ o | err e ↦ no_notice ]

saves : after ≡ (after.0, ok out)
unfolding save bytes_beq make_header encrypt_name wrap_all wrap successor sign_header encode_header
    seal_chunks chunk_count to_le_bytes toy_hash to_be_bytes from_le_bytes
saves = refl

resealed :
    (key : Bytes)
    → (reseal_as_recipient_to_path suite
        (two second)
        files
        key
        sk
        made.body.pol
        draws
        (some container)).1
      ≡ ok second
unfolding reseal_as_recipient_to_path bytes_beq make_header encrypt_name wrap_all wrap successor
    sign_header encode_header seal_chunks chunk_count to_le_bytes toy_hash to_be_bytes from_le_bytes
resealed key = refl

second-ver : second.body.ver ≡ 2
unfolding reseal_as_recipient_to_path bytes_beq make_header encrypt_name wrap_all wrap successor
    sign_header encode_header seal_chunks chunk_count to_le_bytes toy_hash to_be_bytes from_le_bytes
second-ver = refl

two-RoundTripsAt : (h : Header) → h.body.ver ≡ 2 → RoundTripsAt (two h).header h
unfolding bytes_beq
two-RoundTripsAt h v = record {
  read-written = λ b e. ground (arith, v, e, bytes_beq_iff b (5 ∷ 6 ∷ []));
}

second-RoundTripsAt :
    (h : Header) (key : Bytes) (sealed : Option Bytes)
    → reseal_as_recipient_to_path suite
        (two second)
        files
        key
        sk
        made.body.pol
        draws
        (some container)
      ≡ (sealed, ok h)
    → RoundTripsAt (two second).header h
second-RoundTripsAt h key sealed e =
    let is : second ≡ h = ok_inj (sym (resealed key) ∙ ap (λ x. x.1) e) in
    subst (λ x. RoundTripsAt (two second).header x) is (two-RoundTripsAt second second-ver)

abbrev rest_of : Result Error (Header × Bytes × Bytes) → Bytes
rest_of (ok (h, x, r)) = r
rest_of (err e) = []

abbrev rest : Bytes
rest = rest_of (read_header suite (two second) container)

reads : read_header suite (two second) container ≡ ok (made, hash, rest)
unfolding read_header seal_signed make_header encrypt_name wrap_all wrap successor sign_header
    encode_header seal_chunks chunk_count to_le_bytes toy_hash to_be_bytes bytes_beq from_le_bytes
reads = refl

knows : Knows json encodings works works (some ledger) made id hash known
unfolding get load replacement find_grant bytes_beq make_header encrypt_name wrap_all wrap successor
    sign_header toy_hash to_be_bytes struct_hash z_bacs.Proto.Grant.keccak z_bacs.Proto.Grant.joined
    z_bacs.Proto.Grant.typehash z_bacs.Proto.Grant.word_u64 z_bacs.Proto.Grant.word_bytes16
knows = record {
  file = ledger;
  given = given;
  loaded = refl;
  listed = refl;
  found = refl;
  for_file = refl;
  hash_is = refl;
  ver_is = refl;
  fid_reads = refl;
  writes = λ g. (g, refl);
}

abbrev unseen : Inspect
unseen = λ path. err "no file"

made-opub : made.body.opub ≡ some (suite.x25519_public secret)
unfolding make_header encrypt_name wrap_all wrap successor sign_header
made-opub = refl

save-Takes_example :
    Takes json suite
      (two second)
      encodings
      unseen
      works
      works
      (some ledger)
      known
      after.0
      out
      secret
      draws.dek
      (7 ∷ 8 ∷ 9 ∷ [])
save-Takes_example =
    save-Takes json suite (two second) encodings saving unseen works works (some ledger) container
      (7 ∷ 8 ∷ 9 ∷ []) secret hash rest made terms known desk after.0 out suite-Laws
      (envelope_form-RoundTrips (envelope_to device old_dek) (envelope_to secret draws.dek))
      second-RoundTripsAt refl (omega arith) refl refl refl reads made-opub knows saves

-- The next save of the same session.
abbrev later : Desk
later = record after.0 { held = record (after.0).held { session = held.session } }

hashes : bytes_beq out.header_hash terms.header_hash ≡ false
unfolding save bytes_beq make_header encrypt_name wrap_all wrap successor sign_header encode_header
    seal_chunks chunk_count to_le_bytes toy_hash to_be_bytes from_le_bytes
hashes = refl

differs : out.header_hash ≢ terms.header_hash
differs = ground (arith, hashes, bytes_beq_iff out.header_hash terms.header_hash)

save-then-refused_example : save suite (two second) encodings saving later ≡ (later, err "version")
save-then-refused_example =
    save-then-refused suite (two second) encodings saving saving terms desk after.0 later out saves
      refl differs refl refl refl refl refl
