-- ===== src/Agent/Exchange/Saved.antt =====
-- A version that a recipient writes, by open.rs of apps/agent/src-tauri/src, at the owner's ledger.
use z_bacs.Prelude.{
  ℕ, ◌+◌, ◌%◌, ◌^◌, ◌<◌, ◌≡◌, refl, sym, ◌∙◌, ap, Option, some, some_inj, ok, ok_inj, arith, length,
  ==_iff,
}
use z_bacs.Prelude.Bytes.{Bytes, bytes_beq_iff}
use z_bacs.Proto.External.{RoundTrips, RoundTripsAt}
use z_bacs.Proto.Messages.{VersionMsg}
use z_bacs.Proto.Grant.{AccessGrantTerms, struct_hash}
use z_bacs.Core.External.{Suite}
use z_bacs.Core.Header as Headers
use z_bacs.Core.Header.{Header, Envelope, unwrap}
use z_bacs.Core.Container.{read_header, open_container}
use z_bacs.Core.Opening.{Laws}
use z_bacs.Core.Resealing.{reseal_as_recipient_to_path}
use z_bacs.Core.Superseding.{reseal_as_recipient_to_path-Supersedes}
use z_bacs.Agent.Forms.{Forms}
use z_bacs.Agent.Dict.{get, assign}
use z_bacs.Agent.Ledger.{
  File, Entry, Grant, Io, Json, advanced, advance_version, load, store, replacement,
}
use z_bacs.Agent.Ledger.Calls.{Call, Reply, entry, advances, change, call, find_grant}
use z_bacs.Agent.Approve.{apply_version}
use z_bacs.Agent.Approve.Rewrapping.{Inspect}
use z_bacs.Agent.Exchange.Keys.{Holds, on_record}
use z_bacs.Agent.Open.Saving.{Desk, Saving, Saved, first_envelope, inspected, notice_of, save}
use z_bacs.Agent.Open.Announcing.{save-Announces}

module _ {Doc : Type 0} (json : Json Doc) where
  call-ok :
      (c : Call) (io : Io) (disk : Option Doc) {f g : File} {r : Reply} {doc : Doc}
      → load json io disk ≡ ok f
      → change c f ≡ ok (g, r)
      → replacement json io g ≡ ok doc
      → call json c io disk ≡ (some doc, ok r)
  unfolding call store
  call-ok c io disk l h s = ground (arith, l, h, s)

advance_version-ok :
    (key prev next : Bytes) (ver : ℕ) (env : Bytes) (f : File) {e : Entry}
    → get f.files key ≡ some e
    → e.header_hash ≡ prev
    → ver ≡ e.ver + 1
    → e.ver + 1 < 2 ^ 32
    → (g : File) × (advance_version key prev next ver env f ≡ ok (g, advanced e next ver env))
unfolding advance_version
advance_version-ok key prev next ver env f {e = e} there same v small =
    let hash = (bytes_beq_iff e.header_hash prev).1 same in
    let wraps : ver ≡ (e.ver + 1) % 2 ^ 32 = omega arith in
    let number = (==_iff ver ((e.ver + 1) % 2 ^ 32)).1 wraps in
    (
      record f { files = assign key (advanced e next ver env) f.files },
      rw (there, hash, number) refl,
    )

module _ {Doc : Type 0} (json : Json Doc) (k : Forms) where
  apply_version-ok :
      (n : VersionMsg) (looking storing : Io) (disk : Option Doc) {g : Grant} {f f' : File}
      {r : Reply} {doc : Doc}
      → find_grant json (k.hex n.grant_id) looking disk ≡ some g
      → g.fid ≡ k.hex n.fid
      → load json storing disk ≡ ok f
      → change
          (advances
            (k.hex n.fid)
            (k.hex n.prev_header_hash)
            (k.hex n.header_hash)
            n.ver
            n.owner_envelope)
          f
        ≡ ok (f', r)
      → replacement json storing f' ≡ ok doc
      → apply_version json k n looking storing disk ≡ (some doc, ok r)
  unfolding apply_version
  apply_version-ok n looking storing disk {g = g} given same l h s =
      let run = call-ok json _ storing disk l h s in
      let fid = (bytes_beq_iff g.fid (k.hex n.fid)).1 same in
      rw (given, run, fid, apply_version) refl

module _ (c : Suite) (f : Headers.Forms) (k : Forms) (w : Saving) where
  inspected-ok :
      (d : Desk) (b : Bytes) {p : Header} {ph r : Bytes} {h : Header} {hash : Bytes}
      → d.sealed ≡ some b
      → read_header c f b ≡ ok (p, ph, r)
      → inspected c f k w d ≡ ok (h, hash)
      → (h ≡ p) × (hash ≡ ph)
  unfolding inspected
  inspected-ok d b is read h = ground (arith, is, read, h)

-- What the owner has after the notice: the record of the new version, whose envelope gives the key.
pub record Takes {Doc : Type 0} (json : Json Doc) (c : Suite) (f : Headers.Forms) (k : Forms)
    (inspect : Inspect) (looking storing : Io) (disk : Option Doc) (before : Entry) (after : Desk)
    (out : Saved) (owner dek input : Bytes) : Type 0 where
  pub moved : Entry
  pub doc : Doc
  pub replied : apply_version json k out.notice looking storing disk ≡ (some doc, ok (entry moved))
  pub hash_is : moved.header_hash ≡ k.hex out.header_hash
  pub ver_is : moved.ver ≡ before.ver + 1
  pub holds : Holds c k inspect moved owner dek
  pub bytes : Bytes
  pub name : Bytes
  pub header : Header
  pub sealed_is : after.sealed ≡ some bytes
  pub opens :
      open_container c f bytes owner
      ≡ ok (record { header = header; header_hash = out.header_hash; file_name = name }, input)

-- The owner's record of the version that is being edited, and a ledger that can be written.
pub record Knows {Doc : Type 0} (json : Json Doc) (k : Forms) (looking storing : Io)
    (disk : Option Doc) (p : Header) (id ph : Bytes) (before : Entry) : Type 0 where
  pub file : File
  pub given : Grant
  pub loaded : load json storing disk ≡ ok file
  pub listed : get file.files (k.hex p.body.fid) ≡ some before
  pub found : find_grant json (k.hex id) looking disk ≡ some given
  pub for_file : given.fid ≡ k.hex p.body.fid
  pub hash_is : before.header_hash ≡ k.hex ph
  pub ver_is : before.ver ≡ p.body.ver
  pub fid_reads : k.unhex32 before.fid ≡ some p.body.fid
  pub writes : (g : File) → (doc : Doc) × (replacement json storing g ≡ ok doc)

module _ {Doc : Type 0} (json : Json Doc) (k : Forms) where
  notice-moves :
      (n : VersionMsg) (looking storing : Io) (disk : Option Doc) (p : Header) (id ph : Bytes)
      (before : Entry)
      → Knows json k looking storing disk p id ph before
      → n.fid ≡ p.body.fid
      → n.prev_header_hash ≡ ph
      → n.ver ≡ p.body.ver + 1
      → p.body.ver + 1 < 2 ^ 32
      → n.grant_id ≡ id
      → (doc : Doc) × (apply_version json k n looking storing disk
          ≡ (some doc, ok (entry (advanced before (k.hex n.header_hash) n.ver n.owner_envelope))))
  unfolding change
  notice-moves n looking storing disk p id ph before known fid prev ver small is_grant =
      let file = known.file in
      let listed = ap (λ x. get file.files (k.hex x)) fid ∙ known.listed in
      let old = known.ver_is in
      let (g, moves) =
        advance_version-ok (k.hex n.fid) (k.hex n.prev_header_hash) (k.hex n.header_hash) n.ver
          n.owner_envelope file listed (known.hash_is ∙ ap k.hex (sym prev)) (omega arith)
          (omega arith) in
      let (doc, stores) = known.writes g in
      (
        doc,
        apply_version-ok json k n looking storing disk
            (ap (λ x. find_grant json (k.hex x) looking disk) is_grant ∙ known.found)
            (known.for_file ∙ ap k.hex (sym fid)) known.loaded (rw moves refl) stores,
      )

module _ {Doc : Type 0} (json : Json Doc) (c : Suite) (f : Headers.Forms) (k : Forms)
    (w : Saving) where
  -- A version that a recipient saves is one that the owner takes, and keeps the key of: the notice
  -- moves the owner's record of the file to it, the envelope in that record gives the owner the new
  -- data key, and the container on the recipient's disk opens with the owner's secret to the edited
  -- plaintext. The owner's record is that of the version that was edited, the grant is the one held,
  -- the ledger can be written, the new header and envelope are read back as written, and the old
  -- header carries the owner's key.
  pub save-Takes :
      (inspect : Inspect) (looking storing : Io) (disk : Option Doc) (b input owner ph r : Bytes)
      (p : Header) (t : AccessGrantTerms) (before : Entry) (d d' : Desk) (out : Saved)
      → Laws c w.signer
      → RoundTrips k.envelope
      → ((h : Header) (dek : Bytes) (new : Option Bytes)
          → reseal_as_recipient_to_path c f w.files dek w.signer p.body.pol w.draws (some b)
            ≡ (new, ok h)
          → RoundTripsAt f.header h)
      → length w.draws.dek ≡ 32
      → length input < 2 ^ 64
      → w.files.input ≡ some input
      → d.sealed ≡ some b
      → d.held.terms ≡ some t
      → read_header c f b ≡ ok (p, ph, r)
      → p.body.opub ≡ some (c.x25519_public owner)
      → Knows json k looking storing disk p (struct_hash c.primitives t) ph before
      → save c f k w d ≡ (d', ok out)
      → Takes json c f k inspect looking storing disk before d' out owner w.draws.dek input
  unfolding notice_of advanced
  save-Takes inspect looking storing disk b input owner ph r p t before d d' out laws trips trips_h
        l small has is held read key known run =
      let a = save-Announces c f k w d run in
      let (same_p, same_hash) = inspected-ok c f k w d b is read a.seen in
      let same_t = some_inj (sym a.has_terms ∙ held) in
      let resealed = rw (is, same_p) at a.resealed in
      let (bytes, name, new, named, s, (hash, hashed, opens)) =
        reseal_as_recipient_to_path-Supersedes c f w.files b input a.dek owner w.signer ph r
          p.body.pol w.draws p a.header d'.sealed laws (trips_h a.header a.dek d'.sealed resealed) l
          small has read key resealed in
      let n = a.notice_is in
      let ver = ap (λ x. x.ver) n ∙ s.version in
      let fid = ap (λ x. x.fid) n ∙ s.same_file in
      let (doc, replied) =
        notice-moves json k out.notice looking storing disk p (struct_hash c.primitives t) ph before
          known fid (ap (λ x. x.prev_header_hash) n ∙ same_hash) ver s.small
          (ap (λ x. x.grant_id) n ∙ ap (λ x. struct_hash c.primitives x) same_t) in
      let (_, again) = inspected-ok c f k w d' bytes new s.read a.seen_again in
      let same_new : hash ≡ out.header_hash = ok_inj (sym hashed ∙ s.hashed) ∙ sym again in
      let env = ap (λ x. x.owner_envelope) n in
      let same_mine = ok_inj (sym a.first ∙ ap first_envelope s.env) in
      let old = known.ver_is in
      record {
        moved =
            advanced before (k.hex out.notice.header_hash) out.notice.ver out.notice.owner_envelope;
        doc = doc;
        replied = replied;
        hash_is = ap (λ x. k.hex x.header_hash) n;
        ver_is = omega (arith, ver, old);
        holds =
            on_record out.notice.owner_envelope p.body.fid s.mine refl
              (ap (λ x. k.envelope.from_reader x) env
                ∙ (trips.read-written a.mine a.envelope a.written ∙ ap some same_mine))
              known.fid_reads (ap (λ x. unwrap c s.mine owner x) (sym s.same_file) ∙ s.unwrapped);
        bytes = bytes;
        name = name;
        header = a.header;
        sealed_is = new;
        opens =
            opens
            ∙ ap (λ x. ok (record { header = a.header; header_hash = x; file_name = name }, input))
                same_new;
      }
