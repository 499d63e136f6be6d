-- ===== src/Agent/Request/Binding.antt =====
-- Which messages `classify` of apps/agent/src-tauri/src/request.rs takes for an approval.
use z_bacs.Prelude.{
  ◌≡◌, ◌↔◌, ◌⊎◌, inl, inr, refl, Option, some, ok, ◌==◌, arith, sym, Option-cases, Result-cases,
  Bool-cases,
}
use z_bacs.Prelude.Bytes.{Bytes, bytes_beq_iff}
use z_bacs.Session.{Permission}
use z_bacs.Proto.Messages.{Envelope, GrantMsg, grant}
use z_bacs.Proto.Signed.{Signed}
use z_bacs.Proto.Grant.{AccessGrantTerms, from_cbor}
use z_bacs.Agent.Forms.{Forms}
use z_bacs.Agent.Approve.{permission_u8}
use z_bacs.Agent.Request.{
  Target, granted, check_terms, classify_terms, classify_grant, payload_of, classify,
}

-- An approval for this request: it answers the nonce, allows reading or editing, and its terms name
-- the file, the version, the device's keys, the nonce and the same permission.
pub record Binds (k : Forms) (e : Envelope) (nonce : Bytes) (target : Target) (key_hash : Bytes)
    (p : Permission) (t : AccessGrantTerms) (envelope tx : Option Bytes) : Type 0 where
  pub signed : Signed
  pub message : GrantMsg
  pub bytes : Bytes
  pub payload : payload_of k grant e ≡ some signed
  pub reads : k.grant.from_reader signed.payload ≡ some message
  pub our_nonce : message.request_nonce ≡ nonce
  pub decision : message.decision ≡ permission_u8 p
  pub allows : (p ≡ Permission.read_only) ⊎ (p ≡ Permission.edit)
  pub has_terms : message.grant ≡ some bytes
  pub terms_read : from_cbor k.terms bytes ≡ ok t
  pub file : t.file_id ≡ target.fid
  pub version : t.header_hash ≡ target.header_hash
  pub device : t.device_key_hash ≡ key_hash
  pub terms_nonce : t.request_nonce ≡ nonce
  pub permission : t.permission ≡ permission_u8 p
  pub envelope_is : message.envelope ≡ envelope
  pub tx_is : message.tx_hash ≡ tx

module _ (k : Forms) (nonce : Bytes) (target : Target) (key_hash : Bytes) where
  check_terms-granted :
      (q p : Permission) (t t' : AccessGrantTerms) (g : GrantMsg) (envelope tx : Option Bytes)
      → check_terms q t' nonce target key_hash g ≡ granted p t envelope tx
      → (q ≡ p)
        × (t' ≡ t)
        × (t'.file_id ≡ target.fid)
        × (t'.header_hash ≡ target.header_hash)
        × (t'.device_key_hash ≡ key_hash)
        × (t'.request_nonce ≡ nonce)
        × (t'.permission ≡ permission_u8 q)
        × (g.envelope ≡ envelope)
        × (g.tx_hash ≡ tx)
  unfolding check_terms
  check_terms-granted q p t t' g envelope tx h = ground (
    arith,
    bytes_beq_iff t'.file_id target.fid,
    bytes_beq_iff t'.header_hash target.header_hash,
    bytes_beq_iff t'.device_key_hash key_hash,
    bytes_beq_iff t'.request_nonce nonce,
  )

  classify_terms-granted :
      (q p : Permission) (t : AccessGrantTerms) (g : GrantMsg) (envelope tx : Option Bytes)
      → classify_terms k q g nonce target key_hash ≡ granted p t envelope tx
      → (bytes : Bytes) × (t' : AccessGrantTerms) × (g.grant ≡ some bytes)
        × (from_cbor k.terms bytes ≡ ok t')
        × (check_terms q t' nonce target key_hash g ≡ granted p t envelope tx)
  unfolding classify_terms
  classify_terms-granted q p t g envelope tx h = elim (Option-cases g.grant) [
    | inl e ↦ absurd (ground arith)
    | inr (bytes, e) ↦ elim (Result-cases (from_cbor k.terms bytes)) [
      | inl (x, f) ↦ absurd (ground arith)
      | inr (t', f) ↦ (bytes, t', e, f, ground arith)
    ]
  ]

  classify_grant-granted :
      (p : Permission) (t : AccessGrantTerms) (g : GrantMsg) (envelope tx : Option Bytes)
      → classify_grant k g nonce target key_hash ≡ granted p t envelope tx
      → (q : Permission) × (g.request_nonce ≡ nonce)
        × (g.decision ≡ permission_u8 q)
        × ((q ≡ Permission.read_only) ⊎ (q ≡ Permission.edit))
        × (classify_terms k q g nonce target key_hash ≡ granted p t envelope tx)
  unfolding classify_grant permission_u8
  classify_grant-granted p t g envelope tx h =
      let ours : g.request_nonce ≡ nonce = ground (arith, bytes_beq_iff g.request_nonce nonce) in
      elim (Bool-cases (g.decision == 1)) [
        | inl one ↦ (Permission.read_only, ours, ground arith, inl refl, ground (arith))
        | inr other ↦ (Permission.edit, ours, ground arith, inr refl, ground (arith))
      ]

  classify-read :
      (e : Envelope) (p : Permission) (t : AccessGrantTerms) (envelope tx : Option Bytes)
      → classify k e nonce target key_hash ≡ granted p t envelope tx
      → (signed : Signed) × (g : GrantMsg) × (payload_of k grant e ≡ some signed)
        × (k.grant.from_reader signed.payload ≡ some g)
        × (classify_grant k g nonce target key_hash ≡ granted p t envelope tx)
  unfolding classify
  classify-read e p t envelope tx h = elim (Option-cases (payload_of k grant e)) [
    | inl bad ↦ absurd (ground arith)
    | inr (signed, got) ↦ elim (Option-cases (k.grant.from_reader signed.payload)) [
      | inl bad ↦ absurd (ground arith)
      | inr (g, reads) ↦ (signed, g, got, reads, ground arith)
    ]
  ]

  classify-Binds :
      (e : Envelope) (p : Permission) (t : AccessGrantTerms) (envelope tx : Option Bytes)
      → classify k e nonce target key_hash ≡ granted p t envelope tx
      → Binds k e nonce target key_hash p t envelope tx
  classify-Binds e p t envelope tx h =
      let (signed, g, got, reads, h₁) = classify-read e p t envelope tx h in
      let (q, ours, dec, allows, h₂) = classify_grant-granted p t g envelope tx h₁ in
      let (bytes, t', has, read, h₃) = classify_terms-granted q p t g envelope tx h₂ in
      let (is_p, is_t, file, version, device, nonce_is, perm, env, tx_is) =
        check_terms-granted q p t t' g envelope tx h₃ in
      record {
        signed = signed;
        message = g;
        bytes = bytes;
        payload = got;
        reads = reads;
        our_nonce = ours;
        decision = rw (sym is_p) dec;
        allows = rw (sym is_p) allows;
        has_terms = has;
        terms_read = rw (sym is_t) read;
        file = rw (sym is_t) file;
        version = rw (sym is_t) version;
        device = rw (sym is_t) device;
        terms_nonce = rw (sym is_t) nonce_is;
        permission = rw (sym is_t, sym is_p) perm;
        envelope_is = env;
        tx_is = tx_is;
      }

  Binds-classify :
      (e : Envelope) (p : Permission) (t : AccessGrantTerms) (envelope tx : Option Bytes)
      → Binds k e nonce target key_hash p t envelope tx
      → classify k e nonce target key_hash ≡ granted p t envelope tx
  unfolding classify classify_grant classify_terms check_terms permission_u8
  Binds-classify e p t envelope tx b =
      let g = b.message in
      let checked : check_terms p t nonce target key_hash g ≡ granted p t envelope tx = ground (
        arith,
        bytes_beq_iff t.file_id target.fid,
        bytes_beq_iff t.header_hash target.header_hash,
        bytes_beq_iff t.device_key_hash key_hash,
        bytes_beq_iff t.request_nonce nonce,
      ) in
      let read : classify_terms k p g nonce target key_hash ≡ granted p t envelope tx =
        ground (arith, b.has_terms, b.terms_read, checked) in
      let ours : classify_grant k g nonce target key_hash ≡ granted p t envelope tx =
        elim b.allows [
          | inl is ↦ ground (arith, bytes_beq_iff g.request_nonce nonce)
          | inr is ↦ ground (arith, bytes_beq_iff g.request_nonce nonce)
        ] in
      ground (arith, b.payload, b.reads, ours)

  -- A message in the inbox is taken for an approval exactly when it binds to this request: it answers
  -- the nonce, allows reading or editing, and its terms read and name the file, the version,
  -- the device's keys, the nonce and the same permission.
  pub classify-granted_iff :
      (e : Envelope) (p : Permission) (t : AccessGrantTerms) (envelope tx : Option Bytes)
      → (classify k e nonce target key_hash ≡ granted p t envelope tx)
        ↔ Binds k e nonce target key_hash p t envelope tx
  classify-granted_iff e p t envelope tx =
      (classify-Binds e p t envelope tx, Binds-classify e p t envelope tx)
