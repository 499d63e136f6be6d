-- ===== src/Agent/Open/Contents.antt =====
-- A sealed file of crates/zbacs-core/src/container.rs at `materialise` of
-- apps/agent/src-tauri/src/open.rs.
use z_bacs.Prelude.{
  ℕ, ◌<◌, ◌^◌, true, ◌≡◌, refl, inl, inr, some, ok, length, arith, Bool-cases, subst,
}
use z_bacs.Prelude.Bytes.{Bytes, bytes_beq_iff}
use z_bacs.Proto.External.{RoundTripsAt}
use z_bacs.Proto.Grant.{AccessGrantTerms, struct_hash}
use z_bacs.Session.{State, Event, is_read_only, apply}
use z_bacs.Session.Requested.{counted, opening, Left, apply-opened}
use z_bacs.Core.External.{Suite, Hpke}
use z_bacs.Core.Header as Headers
use z_bacs.Core.Header.{Header, Envelope, wrap, unwrap, header_hash}
use z_bacs.Core.Container.{SealOptions, Draws, seal_signed, read_header, open_with_dek, Opened}
use z_bacs.Core.Sealing.{Sensible}
use z_bacs.Core.Opening.{Laws, unwrap-wrap, seal_signed-Reads}
use z_bacs.Agent.Forms.{Forms}
use z_bacs.Agent.Request.Asking.{Held}
use z_bacs.Agent.Open.{Desk, Disk, holds, well_named, prepare}
use z_bacs.Agent.Open.Materialising.{offer, kept_or_wiped, write_plain, mark, finish, materialise}

-- A disk on which each call succeeds.
pub record Works (disk : Disk) (sealed : Bytes) : Type 0 where
  pub has : disk.sealed ≡ some sealed
  pub creates : disk.creates ≡ true
  pub creates_file : disk.creates_file ≡ true
  pub renames : disk.renames ≡ true
  pub marks : disk.marks ≡ true

-- A grant that is held: the terms, and the data key wrapped for the device under their hash.
pub record Grants (c : Suite) (k : Forms) (held : Held) (hash secret dek : Bytes) : Type 0 where
  pub terms : AccessGrantTerms
  pub bytes : Bytes
  pub envelope : Envelope
  pub has_terms : held.terms ≡ some terms
  pub has_envelope : held.envelope ≡ some bytes
  pub granted : held.session.state ≡ State.granted
  pub version : terms.header_hash ≡ hash
  pub reads : k.envelope.from_reader bytes ≡ some envelope
  pub wrapped : wrap c (c.x25519_public secret) dek (struct_hash c.primitives terms) ≡ ok envelope

module _ (c : Suite) (f : Headers.Forms) (k : Forms) where
  prepare-Grants :
      (disk : Disk) (secret dek out hash rest : Bytes) (held : Held) (h : Header)
      → Hpke c
      → length dek ≡ 32
      → disk.sealed ≡ some out
      → Grants c k held hash secret dek
      → read_header c f out ≡ ok (h, hash, rest)
      → prepare c f k disk secret held ≡ ok (dek, h, hash, rest)
  unfolding prepare
  prepare-Grants disk secret dek out hash rest held h hpke l has g read =
      let (opened, _) =
        unwrap-wrap c secret dek (struct_hash c.primitives g.terms) hpke l g.wrapped in
      let same = (bytes_beq_iff hash hash).1 refl in
      rw (g.has_terms, g.has_envelope, g.granted, g.reads, opened, has, read, g.version, same) refl

  materialises :
      (disk : Disk) (now : ℕ) (secret dek out hash rest plain : Bytes) (desk : Desk) (h : Header)
      (o : Opened)
      → prepare c f k disk secret desk.held ≡ ok (dek, h, hash, rest)
      → apply desk.held.session Event.opened now
        ≡ (counted desk.held.session, ok (opening (is_read_only desk.held.session.permission)))
      → Works disk out
      → open_with_dek c h hash rest dek ≡ ok (o, plain)
      → well_named o.file_name ≡ true
      → materialise c f k disk now secret desk ≡ (
        record {
          held = record desk.held { session = counted desk.held.session };
          workspace = holds o.file_name plain (is_read_only desk.held.session.permission);
        },
        ok (record {
          name = o.file_name;
          effects = opening (is_read_only desk.held.session.permission);
        }),
      )
  unfolding materialise offer write_plain kept_or_wiped finish mark
  materialises disk now secret dek out hash rest plain desk h o p a w od named =
      elim (Bool-cases (is_read_only desk.held.session.permission)) [
        | inl ro ↦
            rw (p, a, ro, w.creates, w.creates_file)
              (rw (od, write_plain, kept_or_wiped) (rw (named, w.renames, w.marks) refl))
        | inr ro ↦
            rw (p, a, ro, w.creates, w.creates_file)
              (rw (od, write_plain, kept_or_wiped) (rw (named, w.renames) refl))
      ]

  -- What an owner sealed, a device that holds a grant for it opens: the workspace holds the sealed
  -- bytes under the sealed name, read-only exactly when the permission is, and the session is open
  -- with one open more. The grant is for this container's header and has an open left, its
  -- envelope wraps the container's data key for the device under the hash of the terms, the calls on
  -- the file system succeed, the name is one that the workspace takes, and the container is as
  -- `seal_signed` asks for: the owner's settings sensible, the name UTF-8, the data key 32 bytes,
  -- the file shorter than 2^64 bytes.
  pub materialise-seal_signed :
      (disk : Disk) (now : ℕ) (input owner secret sk out hash : Bytes) (opts : SealOptions)
      (draws : Draws) (h : Header) (desk : Desk)
      → Laws c sk
      → RoundTripsAt f.header h
      → Sensible opts
      → c.is_utf8 opts.file_name ≡ true
      → length draws.dek ≡ 32
      → length input < 2 ^ 64
      → seal_signed c f input (c.x25519_public owner) sk opts draws ≡ ok (h, out)
      → header_hash c f h ≡ ok hash
      → Works disk out
      → Grants c k desk.held hash secret draws.dek
      → Left desk.held.session
      → well_named opts.file_name ≡ true
      → materialise c f k disk now secret desk ≡ (
        record {
          held = record desk.held { session = counted desk.held.session };
          workspace = holds opts.file_name input (is_read_only desk.held.session.permission);
        },
        ok (record {
          name = opts.file_name;
          effects = opening (is_read_only desk.held.session.permission);
        }),
      )
  materialise-seal_signed disk now input owner secret sk out hash opts draws h desk laws trips good
        utf8 l small sealed hashed w g left named =
      let r =
        seal_signed-Reads c f input owner sk opts draws h out laws trips good utf8 l small sealed in
      let same : hash ≡ r.hash = ground (arith, hashed, r.hashed) in
      let grants = subst (λ x. Grants c k desk.held x secret draws.dek) same g in
      let prepared =
        prepare-Grants disk secret draws.dek out r.hash r.rest desk.held h laws.hpke l w.has grants
          r.read in
      materialises disk now secret draws.dek out r.hash r.rest input desk h
        (record { header = h; header_hash = r.hash; file_name = opts.file_name }) prepared
        (apply-opened desk.held.session now g.granted left) w r.opened named
