-- ===== src/Agent/Open/Endings.antt =====
-- What `materialise` of apps/agent/src-tauri/src/open.rs leaves, however it ends.
use z_bacs.Prelude.{
  ℕ, Bool, true, false, not, ◌≡◌, refl, ◌⊎◌, inl, inr, List, ok, err, Result, String, refuse_if,
  any, arith, ap, sym, ◌∙◌, map_err, map_err-ok, >>=-ok, ok_or, ok_or-ok, ok_inj, some, Bool-cases,
  if◌then◌else◌,
}
use z_bacs.Prelude.Steps.{lift-cases, step-cases, fail_if-cases}
use z_bacs.Prelude.Bytes.{Bytes, bytes_beq, bytes_beq_iff}
use z_bacs.Proto.Grant.{AccessGrantTerms, struct_hash}
use z_bacs.Session.{State, Session, Event, Effect, is_read_only, apply}
use z_bacs.Session.Requested.{counted, opening, is_wipe, Left, apply-opened_ok}
use z_bacs.Core.External.{Suite}
use z_bacs.Core.Header as Headers
use z_bacs.Core.Header.{Header, Error, Envelope, unwrap}
use z_bacs.Core.Container.{Opened, open_with_dek, read_header}
use z_bacs.Agent.Forms.{Forms}
use z_bacs.Agent.Request.Asking.{Held}
use z_bacs.Agent.Open.{
  Workspace, bare, partial, written, holds, Desk, Disk, Materialised, well_named, is_mark,
  is_granted, prepare,
}
use z_bacs.Agent.Open.Materialising.{
  offer, kept_or_wiped, write_plain, mark, renamed, marked, at, finish, materialise,
}

-- A call behind the decryption that does not succeed: the workspace refuses the name, or the file
-- cannot be renamed or marked.
abbrev pub Trouble : Disk → Bytes → Type 0
Trouble disk name = (well_named name ≡ false) ⊎ ((disk.renames ≡ false) ⊎ (disk.marks ≡ false))

-- What an error leaves: the workspace as it was, or without the file; or a part of the plaintext,
-- where the wipe fails too; or, after trouble behind the decryption, all of it.
pub data Spoiled (disk : Disk) (before after : Desk) : Type 0 where
  untouched : after.workspace ≡ before.workspace → Spoiled disk before after
  cleaned : after.workspace ≡ bare → Spoiled disk before after
  unwiped : after.workspace ≡ partial → disk.wipes ≡ false → Spoiled disk before after
  kept :
      (name plain : Bytes)
      → Trouble disk name
      → (after.workspace ≡ written plain) ⊎ (after.workspace ≡ holds name plain false)
      → Spoiled disk before after

opening-marked :
    (ro : Bool) (fx : List Effect) (name plain : Bytes) (w : Workspace)
    → fx ≡ opening ro
    → w ≡ holds name plain false
    → (if any is_mark fx then marked else λ w. w) w ≡ holds name plain ro
opening-marked true fx name plain w e is = rw (e, is) refl
opening-marked false fx name plain w e is = rw (e, is) refl

same_version :
    (a b : Bytes) {u : Unit {0}}
    → refuse_if {E = String} (not (bytes_beq a b)) "version" ≡ ok u
    → a ≡ b
same_version a b h = ground (arith, bytes_beq_iff a b)

module _ (c : Suite) (f : Headers.Forms) (k : Forms) (disk : Disk) (secret : Bytes) where
  -- What `prepare` has found when it succeeds.
  pub record Prepared (held : Held) (dek : Bytes) (header : Header) (header_hash rest : Bytes)
      : Type 0 where
    pub terms : AccessGrantTerms
    pub has_terms : held.terms ≡ some terms
    pub version : header_hash ≡ terms.header_hash
    pub envelope : Envelope
    pub has_envelope :
        (b : Bytes) × (held.envelope ≡ some b) × (k.envelope.from_reader b ≡ some envelope)
    pub unwraps : unwrap c envelope secret (struct_hash c.primitives terms) ≡ ok dek
    pub reads :
        (b : Bytes) × (disk.sealed ≡ some b) × (read_header c f b ≡ ok (header, header_hash, rest))
    pub granted : held.session.state ≡ State.granted

  -- What a success means.
  pub record Opens (before after : Desk) (m : Materialised) : Type 0 where
    pub dek : Bytes
    pub header : Header
    pub header_hash : Bytes
    pub rest : Bytes
    pub plain : Bytes
    pub opened : Opened
    pub terms : AccessGrantTerms
    pub has_terms : before.held.terms ≡ some terms
    pub version : header_hash ≡ terms.header_hash
    pub envelope : Envelope
    pub has_envelope :
        (b : Bytes) × (before.held.envelope ≡ some b) × (k.envelope.from_reader b ≡ some envelope)
    pub unwraps : unwrap c envelope secret (struct_hash c.primitives terms) ≡ ok dek
    pub reads :
        (b : Bytes) × (disk.sealed ≡ some b) × (read_header c f b ≡ ok (header, header_hash, rest))
    pub decrypts : open_with_dek c header header_hash rest dek ≡ ok (opened, plain)
    pub name_is : m.name ≡ opened.file_name
    pub granted : before.held.session.state ≡ State.granted
    pub left : Left before.held.session
    pub session_is : after.held.session ≡ counted before.held.session
    pub workspace_is :
        after.workspace ≡ holds opened.file_name plain (is_read_only before.held.session.permission)

  abbrev pub Ends : Desk → Desk × Result String Materialised → Type 0
  Ends before (after, err e) = Spoiled disk before after
  Ends before (after, ok m) = Opens before after m

  prepare-Prepared :
      (held : Held) {dek : Bytes} {header : Header} {hash rest : Bytes}
      → prepare c f k disk secret held ≡ ok (dek, header, hash, rest)
      → Prepared held dek header hash rest
  unfolding prepare
  prepare-Prepared held h =
      let (terms, t, h₁) = >>=-ok (ok_or {E = String} held.terms "not_granted") _ h in
      let (bytes, b, h₂) = >>=-ok (ok_or {E = String} held.envelope "not_granted") _ h₁ in
      let (u, go, h₃) =
        >>=-ok (refuse_if {E = String} (not (is_granted held.session.state)) "not_granted") _ h₂ in
      let (e, en, h₄) =
        >>=-ok (ok_or {E = String} (k.envelope.from_reader bytes) "envelope") _ h₃ in
      let (key, kn, h₅) =
        >>=-ok (map_err (λ e. "envelope") (unwrap c e secret (struct_hash c.primitives terms))) _
          h₄ in
      let (sealed, sn, h₆) = >>=-ok (ok_or {E = String} disk.sealed "missing") _ h₅ in
      let ((header, hash, rest), rn, h₇) =
        >>=-ok (map_err (λ e. "damaged") (read_header c f sealed)) _ h₆ in
      let (w, vn, h₈) =
        >>=-ok (refuse_if {E = String} (not (bytes_beq hash terms.header_hash)) "version") _ h₇ in
      let all = ok_inj h₈ in
      let hash_is = ap (λ y. y.2) all in
      record {
        terms = terms;
        has_terms = ok_or-ok held.terms "not_granted" t;
        version = sym hash_is ∙ same_version hash terms.header_hash vn;
        envelope = e;
        has_envelope = (
          bytes,
          ok_or-ok held.envelope "not_granted" b,
          ok_or-ok (k.envelope.from_reader bytes) "envelope" en,
        );
        unwraps = map_err-ok _ _ kn ∙ ap ok (ap (λ y. y.0) all);
        reads = (
          sealed,
          ok_or-ok disk.sealed "missing" sn,
          map_err-ok _ _ rn ∙ ap ok (ap (λ y. (y.1, y.2, y.3)) all),
        );
        granted = ground (arith, go);
      }

  offer-ok :
      (e : Event) (now : ℕ) (why : String) (d : Desk) {d' : Desk} {fx : List Effect}
      → offer e now why d ≡ (d', ok fx)
      → (s : Session) × (apply d.held.session e now ≡ (s, ok fx))
        × (d' ≡ record d { held = record d.held { session = s } })
  unfolding offer
  offer-ok e now why d h =
      let r = apply d.held.session e now in
      let accepted = map_err-ok (λ x. why) r.1 (ap (λ y. y.1) h) in
      (r.0, ap (λ y. (r.0, y)) accepted, sym (ap (λ y. y.0) h))

  offer-workspace :
      (e : Event) (now : ℕ) (why : String) (d : Desk) {d' : Desk} {x : String}
      → offer e now why d ≡ (d', err x)
      → d'.workspace ≡ d.workspace
  unfolding offer
  offer-workspace e now why d h = ground arith

  kept_or_wiped-ok :
      (r : Result Error (Opened × Bytes)) (d : Desk) {d' : Desk} {o : Opened}
      → kept_or_wiped disk r d ≡ (d', ok o)
      → (plain : Bytes) × (r ≡ ok (o, plain)) × (d' ≡ record d { workspace = written plain })
  unfolding kept_or_wiped
  kept_or_wiped-ok (err e) d h = absurd (ground arith)
  kept_or_wiped-ok (ok (o, plain)) d h = (plain, ground arith, ground arith)

  kept_or_wiped-Spoiled :
      (r : Result Error (Opened × Bytes)) (before d : Desk) {d' : Desk} {x : String}
      → kept_or_wiped disk r d ≡ (d', err x)
      → Spoiled disk before d'
  unfolding kept_or_wiped
  kept_or_wiped-Spoiled (ok (o, plain)) before d h = absurd (ground arith)
  kept_or_wiped-Spoiled (err e) before d h = elim (Bool-cases disk.wipes) [
    | inl wipes ↦ cleaned (ground arith)
    | inr stays ↦ unwiped (ground arith) stays
  ]

  mark-ok :
      (b : Bool) (d : Desk) {d' : Desk} {u : Unit {0}}
      → mark disk b d ≡ (d', ok u)
      → d' ≡ at (if b then marked else λ w. w) d
  unfolding mark
  mark-ok true d h = ground arith
  mark-ok false d h = ground arith

  mark-refused :
      (b : Bool) (d : Desk) {d' : Desk} {e : String}
      → mark disk b d ≡ (d', err e)
      → (d' ≡ d) × (disk.marks ≡ false)
  unfolding mark
  mark-refused true d h = ground arith
  mark-refused false d h = ground arith

  -- Behind the decryption: naming, renaming and marking the file.
  finishing :
      (before d₁ d₂ : Desk) (fx : List Effect) (dek : Bytes) (h : Header) (hash rest plain : Bytes)
      (o : Opened)
      → Prepared before.held dek h hash rest
      → open_with_dek c h hash rest dek ≡ ok (o, plain)
      → Left before.held.session
      → d₁.held.session ≡ counted before.held.session
      → fx ≡ opening (is_read_only before.held.session.permission)
      → d₂ ≡ record d₁ { workspace = written plain }
      → Ends before (finish disk fx o d₂)
  unfolding finish
  finishing before d₁ d₂ fx dek h hash rest plain o p x left s same is =
      let P = Ends before in
      let ro = is_read_only before.held.session.permission in
      let d₃ = at (renamed o.file_name) d₂ in
      let is₂ = ap (λ y. y.workspace) is in
      let is₃ = ap (renamed o.file_name) is₂ in
      fail_if-cases P (not (well_named o.file_name)) "workspace" _ d₂
        (λ bad. kept o.file_name plain (inl (ground arith)) (inl is₂))
        (λ named.
          fail_if-cases P (not disk.renames) "workspace" _ d₂
            (λ bad. kept o.file_name plain (inr (inl (ground arith))) (inl is₂))
            (λ moved.
              step-cases P (mark disk (any is_mark fx)) _ d₃
                (λ d' e r.
                  let (stays, unmarked) = mark-refused (any is_mark fx) d₃ r in
                  kept o.file_name plain (inr (inr unmarked))
                    (inr (ap (λ y. y.workspace) stays ∙ is₃)))
                (λ d' w m.
                  let same_mark = mark-ok (any is_mark fx) d₃ m in
                  record {
                    dek = dek;
                    header = h;
                    header_hash = hash;
                    rest = rest;
                    plain = plain;
                    opened = o;
                    terms = p.terms;
                    has_terms = p.has_terms;
                    version = p.version;
                    envelope = p.envelope;
                    has_envelope = p.has_envelope;
                    unwraps = p.unwraps;
                    reads = p.reads;
                    decrypts = x;
                    name_is = refl;
                    granted = p.granted;
                    left = left;
                    session_is =
                        ap (λ y. y.held.session) same_mark ∙ (ap (λ y. y.held.session) is ∙ s);
                    workspace_is =
                        ap (λ y. y.workspace) same_mark
                        ∙ opening-marked ro fx o.file_name plain d₃.workspace same is₃;
                  })))

  pub materialise-Ends : (now : ℕ) (d : Desk) → Ends d (materialise c f k disk now secret d)
  unfolding materialise write_plain
  materialise-Ends now d =
      let P = Ends d in
      lift-cases P (prepare c f k disk secret d.held) _ d (λ e. untouched refl)
        (λ (dek, h, hash, rest) prepares.
          let prepared = prepare-Prepared d.held prepares in
          step-cases P (offer Event.opened now "not_granted") _ d
            (λ d' e r. untouched (offer-workspace Event.opened now "not_granted" d r))
            (λ d₁ fx offered.
              let (s, took, is) = offer-ok Event.opened now "not_granted" d offered in
              let same = ap (λ y. y.workspace) is in
              fail_if-cases P (any is_wipe fx) "opens_exhausted" _ d₁ (λ b. untouched same)
                (λ unwiped.
                  let (left, counts, effects) =
                    apply-opened_ok d.held.session now prepared.granted took unwiped in
                  fail_if-cases P (not disk.creates) "workspace" _ d₁ (λ b. untouched same)
                    (λ x.
                      fail_if-cases P (not disk.creates_file) "workspace" _ d₁ (λ b. untouched same)
                        (λ y.
                          let r = open_with_dek c h hash rest dek in
                          step-cases P (kept_or_wiped disk r) _ d₁
                            (λ d' e z. kept_or_wiped-Spoiled r d d₁ z)
                            (λ d₂ o z.
                              let (plain, decrypts, wrote) = kept_or_wiped-ok r d₁ z in
                              finishing d d₁ d₂ fx dek h hash rest plain o prepared decrypts left
                                (ap (λ q. q.held.session) is ∙ counts) effects wrote))))))
