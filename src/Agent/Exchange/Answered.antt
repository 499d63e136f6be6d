-- ===== src/Agent/Exchange/Answered.antt =====
-- An approval of apps/agent/src-tauri/src/approve.rs at `classify` of request.rs.
use z_bacs.Prelude.{
  ℕ, ◌≡◌, ◌≢◌, ◌⊎◌, inl, inr, refl, sym, ap, ◌∙◌, subst, Option, some, List, [], ◌∷◌, ◌++◌, ok,
  arith, map_err-ok,
}
use z_bacs.Prelude.Bytes.{Bytes}
use z_bacs.Session.{Permission}
use z_bacs.Proto.External.{Primitives, RoundTrips, RoundTripsAt}
use z_bacs.Proto.Messages.{Kind, Envelope, AccessRequest, GrantMsg, grant_msg, encode}
use z_bacs.Proto.Signed.{Signed, DeviceIdentity, ed25519_pub, sign, to_bytes}
use z_bacs.Proto.Grant.{AccessGrantTerms, struct_hash, device_key_hash, to_cbor, from_cbor}
use z_bacs.Proto.Authenticity.{sign-signed, same_kind_self}
use z_bacs.Proto.Queued.{from_bytes-to_bytes}
use z_bacs.Core.External.{Suite, Hpke}
use z_bacs.Core.Header.{Header, Error, wrap, unwrap, key_id_of}
use z_bacs.Core.Opening.{unwrap-wrap}
use z_bacs.Agent.Forms.{Forms}
use z_bacs.Agent.Ledger.{Entry, Json}
use z_bacs.Agent.Approve.{PendingRequest, DecisionArg, permission_of, terms_for}
use z_bacs.Agent.Approve.Answering.{Answering, Answered, World, answer}
use z_bacs.Agent.Approve.Sending.{Answers, Allows, Sends, answer-Sends}
use z_bacs.Agent.Exchange.Keys.{Holds, rewrap-wraps, envelope_for-Holds}
use z_bacs.Agent.Request.{Target, granted, classify, payload_of, build_request}
use z_bacs.Agent.Request.Binding.{Binds, classify-granted_iff}

-- An approval that has arrived: the message answers the request with these terms, and the
-- requester's key opens what it carries.
pub record Arrives (c : Suite) (k : Forms) (w : Answering) (entry : Entry) (secret : Bytes)
    (e : Envelope) (nonce : Bytes) (target : Target) (key_hash : Bytes) (d : DecisionArg)
    : Type 0 where
  pub terms : AccessGrantTerms
  pub env : Bytes
  pub tx : Option Bytes
  pub wrapped : z_bacs.Core.Header.Envelope
  pub dek : Bytes
  pub classified :
      classify k e nonce target key_hash ≡ granted (permission_of d) terms (some env) tx
  pub key : Holds c k w.inspected entry w.owner_secret dek
  pub written : k.envelope.into_writer wrapped ≡ ok env
  pub opens : unwrap c wrapped secret (struct_hash c.primitives terms) ≡ ok dek

module _ (c : Suite) (k : Forms) (w : Answering) where
  payload_of-sent :
      (g : GrantMsg) (owner : DeviceIdentity) (ts : ℕ) (n : Bytes) (signed : Signed) (e : Envelope)
      → RoundTripsAt k.signed signed
      → sign c.primitives (grant_msg k.grant) owner g ts n ≡ ok signed
      → to_bytes k.signed signed ≡ ok e.body
      → e.kind ≡ Kind.grant
      → (payload_of k Kind.grant e ≡ some signed) × (k.grant.into_writer g ≡ ok signed.payload)
  unfolding payload_of grant_msg
  payload_of-sent g owner ts n signed e trips made sent kind =
      let f = sign-signed c.primitives (grant_msg k.grant) owner g ts n made in
      let decoded = from_bytes-to_bytes k.signed signed trips sent in
      (ground (arith, decoded, kind, f.0, same_kind_self Kind.grant), f.5)

last_inj : {A : Type 0} (xs : List A) {x y : A} → xs ++ (x ∷ []) ≡ xs ++ (y ∷ []) → x ≡ y
last_inj [] h = cc
last_inj (z ∷ xs) h = last_inj xs (cc)

from_cbor-to_cbor :
    (k : Forms) (t : AccessGrantTerms) {b : Bytes}
    → RoundTrips k.terms
    → to_cbor k.terms t ≡ ok b
    → from_cbor k.terms b ≡ ok t
unfolding to_cbor from_cbor
from_cbor-to_cbor k t {b} trips h =
    let read = trips.read-written t b (map_err-ok encode _ h) in ground arith

permissive :
    (d : DecisionArg)
    → d ≢ DecisionArg.deny
    → (permission_of d ≡ Permission.read_only) ⊎ (permission_of d ≡ Permission.edit)
unfolding permission_of
permissive DecisionArg.deny h = absurd (h refl)
permissive DecisionArg.read_only h = inl refl
permissive DecisionArg.edit h = inr refl

allowed :
    (c : Suite) (k : Forms) (w : Answering) (p : PendingRequest) (d : DecisionArg) (g : GrantMsg)
    → d ≢ DecisionArg.deny
    → Answers c k w p d g
    → Allows c k w p d g
unfolding Answers
allowed c k w p DecisionArg.deny g h x = absurd (h refl)
allowed c k w p DecisionArg.read_only g h x = x
allowed c k w p DecisionArg.edit g h x = x

-- The message of an approval, classified by the device that asked.
Allows-Binds :
    (c : Suite) (k : Forms) (w : Answering) (p : PendingRequest) (d : DecisionArg) (g : GrantMsg)
    (target : Target) (device : DeviceIdentity) (asked : Permission) (nonce : Bytes) (t₀ : ℕ)
    (signed : Signed) (e : Envelope) (al : Allows c k w p d g)
    → RoundTrips k.terms
    → p.request ≡ build_request c.primitives target device asked nonce t₀
    → d ≢ DecisionArg.deny
    → payload_of k Kind.grant e ≡ some signed
    → k.grant.from_reader signed.payload ≡ some g
    → Binds k e nonce target
        (device_key_hash c.primitives device.x25519_pub (ed25519_pub c.primitives device))
        (permission_of d)
        (terms_for c.primitives p.request al.entry (permission_of d) al.nonce w.now)
        (some al.envelope)
        g.tx_hash
unfolding terms_for build_request
Allows-Binds c k w p d g target device asked nonce t₀ signed e al trips is positive got read =
    record {
      signed = signed;
      message = g;
      bytes = al.bytes;
      payload = got;
      reads = read;
      our_nonce = al.request_nonce ∙ ap (λ r. r.nonce) is;
      decision = al.decision;
      allows = permissive d positive;
      has_terms = al.grant_is;
      terms_read = from_cbor-to_cbor k _ trips al.terms_written;
      file = ap (λ r. r.fid) is;
      version = ap (λ r. r.header_hash) is;
      device = ap (λ r. device_key_hash c.primitives r.x25519_pub r.ed25519_pub) is;
      terms_nonce = ap (λ r. r.nonce) is;
      permission = refl;
      envelope_is = al.envelope_is;
      tx_is = refl;
    }

requester :
    (c : Primitives) (target : Target) (device : DeviceIdentity) (asked : Permission)
    (nonce : Bytes) (t₀ : ℕ) {r : AccessRequest} {pk : Bytes}
    → r ≡ build_request c target device asked nonce t₀
    → device.x25519_pub ≡ pk
    → r.x25519_pub ≡ pk
unfolding build_request
requester c target device asked nonce t₀ is x = ap (λ r. r.x25519_pub) is ∙ x

module _ {Doc : Type 0} (json : Json Doc) (c : Suite) (k : Forms) (w : Answering) where
  -- An approval that `answer` sends for a request that a device built arrives there as an approval of
  -- that request: the device classifies the owner's message as granted, with the permission that the
  -- owner decided, and its secret opens the envelope that comes with it, to the data key that the
  -- owner can open, from the file on disk or from the envelope on record. The decision is not a
  -- refusal, the message is signed and written as the relay carries it, and the encodings read
  -- back what was written.
  pub answer-Arrives :
      (p : PendingRequest) (d : DecisionArg) (target : Target) (device owner : DeviceIdentity)
      (asked : Permission) (nonce n secret : Bytes) (t₀ ts : ℕ) (s s' : World Doc) (a : Answered)
      (g : GrantMsg) (signed : Signed) (e : Envelope)
      → Hpke c
      → RoundTrips k.terms
      → RoundTripsAt k.grant g
      → RoundTripsAt k.signed signed
      → p.request ≡ build_request c.primitives target device asked nonce t₀
      → device.x25519_pub ≡ c.x25519_public secret
      → d ≢ DecisionArg.deny
      → answer json c k w p d s ≡ (s', ok a)
      → s'.sent ≡ s.sent ++ (g ∷ [])
      → sign c.primitives (grant_msg k.grant) owner g ts n ≡ ok signed
      → to_bytes k.signed signed ≡ ok e.body
      → e.kind ≡ Kind.grant
      → (entry : Entry) × (p.entry ≡ some entry)
        × Arrives c k w entry secret e nonce target
            (device_key_hash c.primitives device.x25519_pub (ed25519_pub c.primitives device))
            d
  answer-Arrives p d target device owner asked nonce n secret t₀ ts s s' a g signed e hpke trips
        grants wire is x positive answered sent made carried kind =
      let (g', sent', what) =
        subst (Sends (Answers c k w p d) s) answered (answer-Sends json c k w p d s) in
      let same : g' ≡ g = last_inj s.sent (sym sent' ∙ sent) in
      let al = allowed c k w p d g positive (subst (Answers c k w p d) same what) in
      let (got, written) = payload_of-sent c k w g owner ts n signed e wire made carried kind in
      let read = grants.read-written signed.payload written in
      let terms = terms_for c.primitives p.request al.entry (permission_of d) al.nonce w.now in
      let id = struct_hash c.primitives terms in
      let binds =
        Allows-Binds c k w p d g target device asked nonce t₀ signed e al trips is positive got
          read in
      let (dek, key, long, re) =
        envelope_for-Holds c k w.inspected al.entry p.request w.owner_secret id al.wrapped in
      let (wrapped, wraps, out) = rewrap-wraps c k p.request dek id re in
      let mine : p.request.x25519_pub ≡ c.x25519_public secret =
        requester c.primitives target device asked nonce t₀ is x in
      let hash = device_key_hash c.primitives device.x25519_pub (ed25519_pub c.primitives device) in
      let opens =
        unwrap-wrap c secret dek id hpke long
          (subst (λ pk. wrap c pk dek id ≡ ok wrapped) mine wraps) in
      (
        al.entry,
        al.known,
        record {
          terms = terms;
          env = al.envelope;
          tx = g.tx_hash;
          wrapped = wrapped;
          dek = dek;
          classified =
              (classify-granted_iff k nonce target hash e (permission_of d) terms (some al.envelope)
                  g.tx_hash).1
                binds;
          key = key;
          written = out;
          opens = opens.0;
        },
      )
