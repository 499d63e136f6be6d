-- ===== src/Agent/Exchange/Scenario.antt =====
-- One exchange at concrete inputs: who asks, who answers, and the encodings.
use z_bacs.Prelude.{
  Bool, true, false, ◌&&◌, ◌≡◌, refl, some, none, [], ◌∷◌, ◌++◌, ok, err, arith, ◌==◌,
  if◌then◌else◌, replicate,
}
use z_bacs.Prelude.Bytes.{Bytes, bytes_beq, bytes_beq_iff}
use z_bacs.Session.{Permission}
use z_bacs.Proto.External.{Cbor, RoundTrips}
use z_bacs.Proto.Messages.{Kind, AccessRequest, GrantMsg, grant_msg}
use z_bacs.Proto.Signed.{Signed, DeviceIdentity, sign, ed25519_pub}
use z_bacs.Proto.Grant.{AccessGrantTerms}
use z_bacs.Core.Header.{Header, key_id_of, alg_hpke_x25519_chacha}
use z_bacs.Core.Toy.{suite, keys, tag}
use z_bacs.Auth.{not_required}
use z_bacs.Agent.Forms.{Forms}
use z_bacs.Agent.Ledger.{File, Entry, Io, Json, default_file}
use z_bacs.Agent.Approve.{PendingRequest, DecisionArg, permission_of, terms_for, accept_request}
use z_bacs.Agent.Approve.Answering.{Answering, World}
use z_bacs.Agent.Request.{Target, build_request}
use z_bacs.Toy.{only}

abbrev pub json : Json File
json = record { to_vec_pretty = λ f. ok f; from_slice = λ d. some d }

abbrev pub works : Io
works = record { read = true; create_dir = true; write = true; rename = true }

abbrev pub same_terms : AccessGrantTerms → AccessGrantTerms → Bool
same_terms a b =
    bytes_beq a.file_id b.file_id
    && (bytes_beq a.header_hash b.header_hash
        && (bytes_beq a.device_key_hash b.device_key_hash
            && (bytes_beq a.request_nonce b.request_nonce
                && (a.permission == b.permission
                    && (a.not_before == b.not_before
                        && (a.expiry == b.expiry
                            && (a.max_opens == b.max_opens && a.grant_nonce == b.grant_nonce)))))))

-- An encoding of one value, which refuses the others.
abbrev pub terms_form : AccessGrantTerms → Cbor AccessGrantTerms
terms_form t = record {
  into_writer = λ a. if same_terms a t then ok (5 ∷ []) else err "other terms";
  from_reader = λ r. if bytes_beq r (5 ∷ []) then some t else none;
}

pub same_terms_eq : (a b : AccessGrantTerms) → same_terms a b ≡ true → a ≡ b
same_terms_eq a b h = ground (
  arith,
  bytes_beq_iff a.file_id b.file_id,
  bytes_beq_iff a.header_hash b.header_hash,
  bytes_beq_iff a.device_key_hash b.device_key_hash,
  bytes_beq_iff a.request_nonce b.request_nonce,
)

pub terms_form-RoundTrips : (t : AccessGrantTerms) → RoundTrips (terms_form t)
terms_form-RoundTrips t = record {
  read-written = λ a b h. ground (arith, same_terms_eq a t, bytes_beq_iff b (5 ∷ []));
}

abbrev pub device : DeviceIdentity
device = record { x25519_pub = 21 ∷ []; ed25519_sk = 22 ∷ [] }

abbrev pub owner_device : DeviceIdentity
owner_device = record { x25519_pub = 31 ∷ []; ed25519_sk = 32 ∷ [] }

abbrev pub target : Target
target = record { fid = 1 ∷ []; header_hash = 10 ∷ []; owner = 40 ∷ [] }

abbrev pub asked : AccessRequest
asked = record {
  fid = 1 ∷ [];
  header_hash = 10 ∷ [];
  owner = 40 ∷ [];
  device_kid = z_bacs.Proto.Signed.kid keys device;
  x25519_pub = 21 ∷ [];
  ed25519_pub = 22 ∷ [];
  requested = 2;
  nonce = 7 ∷ [];
  hint = none;
  ts = 1000;
}

pub asked_is : asked ≡ build_request keys target device Permission.edit (7 ∷ []) 1000
unfolding build_request ed25519_pub z_bacs.Agent.Approve.permission_u8
asked_is = refl

abbrev pub entry : Entry
entry = record {
  fid = 1 ∷ [];
  header_hash = 10 ∷ [];
  name = 2 ∷ [];
  path = 3 ∷ [];
  permission = 4 ∷ [];
  ttl = 600;
  max_opens = 3;
  sealed_at = 100;
  ver = 1;
  owner_envelope = none;
  registered_tx = none;
}

abbrev pub dek : Bytes
dek = replicate 32 6

abbrev pub mine : z_bacs.Core.Header.Envelope
mine = record {
  kid = key_id_of suite (50 ∷ []);
  alg = alg_hpke_x25519_chacha;
  enc = replicate 32 0;
  ct = dek ++ tag;
}

abbrev pub header : Header
header = record {
  body = record {
    fid = 1 ∷ [];
    salt = [];
    ver = 1;
    prev = none;
    own = 40 ∷ [];
    opub = none;
    pol = record { default = Permission.edit; ttl = 600; max = 3; pin = false; strict = false };
    cipher = 1;
    chunk = 4;
    plen = 0;
    np = [];
    name = [];
    env = mine ∷ [];
  };
  sigk = [];
  sig = [];
}

abbrev pub refuses : {A : Type 0} → Cbor A
refuses = record { into_writer = λ a. err "no form"; from_reader = λ r. none }

abbrev pub terms : AccessGrantTerms
terms = terms_for keys asked entry Permission.edit 5 2000

abbrev pub allowing : GrantMsg
allowing = record {
  request_nonce = 7 ∷ [];
  grant = some (5 ∷ []);
  owner_sig = some (70 ∷ []);
  envelope = some (dek ++ tag);
  tx_hash = none;
  decision = 2;
  ts = 2000;
}

abbrev pub grant_form : Cbor GrantMsg
grant_form = only allowing (9 ∷ [])

unfoldable pub approved : Signed
unfolding z_bacs.Proto.Signed.kid z_bacs.Proto.Signed.signing_bytes
approved = record {
  payload = 9 ∷ [];
  kid = z_bacs.Proto.Signed.kid keys owner_device;
  kind = Kind.grant;
  ts = 2000;
  nonce = 3 ∷ [];
  sig =
      keys.ed25519_sign (32 ∷ [])
        (z_bacs.Proto.Signed.signing_bytes keys Kind.grant 2000 (3 ∷ []) (9 ∷ []));
}

pub approved-sign :
    sign keys (grant_msg grant_form) owner_device allowing 2000 (3 ∷ []) ≡ ok approved
unfolding sign approved grant_msg
approved-sign = refl

abbrev pub forms : Forms
forms = record {
  signed = only approved (12 ∷ []);
  request = only asked (8 ∷ []);
  grant = grant_form;
  revoke = refuses;
  version = refuses;
  terms = terms_form terms;
  envelope = record { into_writer = λ e. ok e.ct; from_reader = λ r. none };
  hex = λ b. b;
  unhex32 = λ b. some b;
}

abbrev pub answering : Answering
answering = record {
  device_setting = not_required;
  owner_secret = 50 ∷ [];
  chain_id = 31337;
  policy_address = 60 ∷ [];
  policy = record { edit_requires_confirmation = true; burst_limit = 5; burst_window_secs = 600 };
  recent = [];
  chain = none;
  now = 2000;
  chain_nonce = ok 0;
  assertion = λ challenge confirmation. ok (ok (70 ∷ []));
  inspected = λ path. ok (header, 10 ∷ []);
  submit = λ calls. ok [];
  relay_takes = λ g. true;
  taking = works;
  reading = works;
  clearing = works;
  recording = works;
}

abbrev pub pending : PendingRequest
pending = record { request = asked; entry = some entry }

abbrev pub before : World File
before = record { disk = some (record default_file { grant_nonce = 5 }); sent = [] }
