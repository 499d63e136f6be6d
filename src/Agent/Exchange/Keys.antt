-- ===== src/Agent/Exchange/Keys.antt =====
-- The key that `envelope_for` of apps/agent/src-tauri/src/approve.rs wraps.
use z_bacs.Prelude.{
  not, ◌≡◌, inl, inr, some, ok, arith, refuse_if, map_err, map_err-ok, ok_or, ok_or-ok, >>=-ok,
  String, length, Option-cases,
}
use z_bacs.Prelude.Bytes.{Bytes, bytes_beq}
use z_bacs.Proto.Messages.{AccessRequest}
use z_bacs.Core.External.{Suite}
use z_bacs.Core.Header.{Header, Envelope, wrap, unwrap, key_id_of}
use z_bacs.Core.Container.{find_envelope}
use z_bacs.Agent.Forms.{Forms}
use z_bacs.Agent.Ledger.{Entry}
use z_bacs.Agent.Approve.Rewrapping.{Inspect, rewrap, from_stored, from_disk, envelope_for}

-- The data key that the owner can open: from the file on disk, or from the envelope on record.
pub data Holds (c : Suite) (k : Forms) (inspect : Inspect) (entry : Entry) (secret dek : Bytes)
    : Type 0 where
  on_disk :
      (h : Header) (hash : Bytes) (mine : Envelope)
      → inspect entry.path ≡ ok (h, hash)
      → find_envelope (key_id_of c (c.x25519_public secret)) h.body.env ≡ some mine
      → unwrap c mine secret h.body.fid ≡ ok dek
      → Holds c k inspect entry secret dek
  on_record :
      (stored fid : Bytes) (mine : Envelope)
      → entry.owner_envelope ≡ some stored
      → k.envelope.from_reader stored ≡ some mine
      → k.unhex32 entry.fid ≡ some fid
      → unwrap c mine secret fid ≡ ok dek
      → Holds c k inspect entry secret dek

module _ (c : Suite) (k : Forms) where
  pub rewrap-wraps :
      (r : AccessRequest) (dek id : Bytes) {env : Bytes}
      → rewrap c k r dek id ≡ ok env
      → (wrapped : Envelope) × (wrap c r.x25519_pub dek id ≡ ok wrapped)
        × (k.envelope.into_writer wrapped ≡ ok env)
  unfolding rewrap
  rewrap-wraps r dek id h =
      let (wrapped, made, rest) =
        >>=-ok (map_err (λ e. "failed") (wrap c r.x25519_pub dek id)) _ h in
      (wrapped, map_err-ok _ _ made, map_err-ok _ _ rest)

  unwrap-length :
      (e : Envelope) (secret aad : Bytes) {dek : Bytes}
      → unwrap c e secret aad ≡ ok dek
      → length dek ≡ 32
  unfolding unwrap
  unwrap-length e secret aad h = ground arith

  from_stored-Holds :
      (inspect : Inspect) (entry : Entry) (stored : Bytes) (r : AccessRequest) (secret id : Bytes)
      {env : Bytes}
      → entry.owner_envelope ≡ some stored
      → from_stored c k entry stored r secret id ≡ ok env
      → (dek : Bytes) × Holds c k inspect entry secret dek
        × (length dek ≡ 32)
        × (rewrap c k r dek id ≡ ok env)
  unfolding from_stored
  from_stored-Holds inspect entry stored r secret id there h =
      let (u, same, h₁) =
        >>=-ok
          (refuse_if {E = String} (not (bytes_beq entry.header_hash (k.hex r.header_hash)))
            "version")
          _ h in
      let (mine, read, h₂) =
        >>=-ok (ok_or {E = String} (k.envelope.from_reader stored) "not_mine") _ h₁ in
      let (fid, decoded, h₃) = >>=-ok (ok_or {E = String} (k.unhex32 entry.fid) "not_mine") _ h₂ in
      let (dek, opened, h₄) =
        >>=-ok (map_err {F = String} (λ e. "not_mine") (unwrap c mine secret fid)) _ h₃ in
      let opens = map_err-ok _ _ opened in
      (
        dek,
        on_record stored fid mine there (ok_or-ok _ _ read) (ok_or-ok _ _ decoded) opens,
        unwrap-length mine secret fid opens,
        h₄,
      )

  from_disk-Holds :
      (inspect : Inspect) (entry : Entry) (r : AccessRequest) (secret id : Bytes) {env : Bytes}
      → from_disk c k inspect entry r secret id ≡ ok env
      → (dek : Bytes) × Holds c k inspect entry secret dek
        × (length dek ≡ 32)
        × (rewrap c k r dek id ≡ ok env)
  unfolding from_disk
  from_disk-Holds inspect entry r secret id h =
      let ((header, hash), seen, h₁) =
        >>=-ok (map_err {F = String} (λ e. "file_moved") (inspect entry.path)) _ h in
      let (u, same, h₂) =
        >>=-ok (refuse_if {E = String} (not (bytes_beq hash r.header_hash)) "version") _ h₁ in
      let (mine, found, h₃) =
        >>=-ok
          (ok_or {E = String} (find_envelope (key_id_of c (c.x25519_public secret)) header.body.env)
            "not_mine")
          _ h₂ in
      let (dek, opened, h₄) =
        >>=-ok (map_err {F = String} (λ e. "not_mine") (unwrap c mine secret header.body.fid)) _
          h₃ in
      let opens = map_err-ok _ _ opened in
      (
        dek,
        on_disk header hash mine (map_err-ok _ _ seen) (ok_or-ok _ _ found) opens,
        unwrap-length mine secret header.body.fid opens,
        h₄,
      )

  pub envelope_for-Holds :
      (inspect : Inspect) (entry : Entry) (r : AccessRequest) (secret id : Bytes) {env : Bytes}
      → envelope_for c k inspect entry r secret id ≡ ok env
      → (dek : Bytes) × Holds c k inspect entry secret dek
        × (length dek ≡ 32)
        × (rewrap c k r dek id ≡ ok env)
  unfolding envelope_for
  envelope_for-Holds inspect entry r secret id h = elim (Option-cases entry.owner_envelope) [
    | inl disk ↦ from_disk-Holds inspect entry r secret id (ground arith)
    | inr (stored, there) ↦ from_stored-Holds inspect entry stored r secret id there (ground arith)
  ]
