-- ===== src/Agent/Open/Announcing.antt =====
-- What a save of apps/agent/src-tauri/src/open.rs tells the owner.
use z_bacs.Prelude.{
  true, false, not, ◌≡◌, refl, sym, ◌∙◌, ap, some, [], ◌∷◌, ◌++◌, ok, err, ok_or, ok_or-ok, map_err,
  map_err-ok, ok_inj, some_inj, arith, ◌≢◌,
}
use z_bacs.Prelude.Steps.{step-ok, lift-ok, fail_if-ok}
use z_bacs.Prelude.Bytes.{Bytes, bytes_beq, bytes_beq_iff}
use z_bacs.Proto.Grant.{AccessGrantTerms, struct_hash}
use z_bacs.Core.External.{Suite}
use z_bacs.Core.Header as Headers
use z_bacs.Core.Header.{Header, Envelope}
use z_bacs.Core.Resealing.{reseal_as_recipient_to_path}
use z_bacs.Agent.Forms.{Forms}
use z_bacs.Agent.Open.{held_key}
use z_bacs.Agent.Open.Saving.{
  Desk, Saving, Saved, is_resealing, first_envelope, inspected, reseal_problem, reseal_step,
  notice_of, announce_version, save,
}

module _ (c : Suite) (f : Headers.Forms) (k : Forms) (w : Saving) where
  -- A save that succeeds.
  pub record Announces (before after : Desk) (out : Saved) : Type 0 where
    pub terms : AccessGrantTerms
    pub dek : Bytes
    pub prev : Header
    pub header : Header
    pub again : Header
    pub mine : Envelope
    pub envelope : Bytes
    pub resealing_now : is_resealing before.held.session.state ≡ true
    pub has_terms : before.held.terms ≡ some terms
    pub key : held_key c k w.secret terms before.held.envelope ≡ ok dek
    pub seen : inspected c f k w before ≡ ok (prev, terms.header_hash)
    pub resealed :
        reseal_as_recipient_to_path c f w.files dek w.signer prev.body.pol w.draws before.sealed
        ≡ (after.sealed, ok header)
    pub seen_again : inspected c f k w after ≡ ok (again, out.header_hash)
    pub first : first_envelope header.body.env ≡ ok mine
    pub written : k.envelope.into_writer mine ≡ ok envelope
    pub notice_is :
        out.notice
        ≡ notice_of c f k w header terms.header_hash out.header_hash
            (struct_hash c.primitives terms)
            envelope
    pub sent : after.sent ≡ before.sent ++ (out.notice ∷ [])
    pub same_terms : after.held.terms ≡ before.held.terms
    pub same_envelope : after.held.envelope ≡ before.held.envelope
    pub ver_is : out.ver ≡ header.body.ver

  inspected-sealed :
      (d d' : Desk) → d.sealed ≡ d'.sealed → inspected c f k w d' ≡ inspected c f k w d
  unfolding inspected
  inspected-sealed d d' e = rw e refl

  reseal_step-ok :
      (dek : Bytes) (prev : Header) (d : Desk) {d' : Desk} {h : Header}
      → reseal_step c f k w dek prev d ≡ (d', ok h)
      → (reseal_as_recipient_to_path c f w.files dek w.signer prev.body.pol w.draws d.sealed
          ≡ (d'.sealed, ok h))
        × (d' ≡ record d { sealed = d'.sealed })
  unfolding reseal_step
  reseal_step-ok dek prev d {d' = d'} e =
      let r = reseal_as_recipient_to_path c f w.files dek w.signer prev.body.pol w.draws d.sealed in
      let new = ap (λ y. y.0.sealed) e in
      let made = map_err-ok reseal_problem r.1 (ap (λ y. y.1) e) in
      (
        ap (λ x. (x, r.1)) new ∙ ap (λ x. (d'.sealed, x)) made,
        sym (ap (λ y. y.0) e) ∙ ap (λ x. record d { sealed = x }) new,
      )

  announce_version-ok :
      (terms : AccessGrantTerms) (prev_hash : Bytes) (h : Header) (d : Desk) {d' : Desk}
      {out : Saved}
      → announce_version c f k w terms prev_hash h d ≡ (d', ok out)
      → (again : Header) × (mine : Envelope) × (env : Bytes) × (inspected c f k w d
          ≡ ok (again, out.header_hash))
        × (first_envelope h.body.env ≡ ok mine)
        × (k.envelope.into_writer mine ≡ ok env)
        × (out.notice
            ≡ notice_of c f k w h prev_hash out.header_hash (struct_hash c.primitives terms) env)
        × (d'.sent ≡ d.sent ++ (out.notice ∷ []))
        × (d'.held.terms ≡ d.held.terms)
        × (d'.held.envelope ≡ d.held.envelope)
        × (d'.sealed ≡ d.sealed)
        × (out.ver ≡ h.body.ver)
  unfolding announce_version
  announce_version-ok terms prev_hash h d e =
      let (u₁, e₁) = fail_if-ok (not w.reopens) "missing" _ d e in
      let ((again, hash), i, e₂) = lift-ok (inspected c f k w d) _ d e₁ in
      let (mine, m, e₃) = lift-ok (first_envelope h.body.env) _ d e₂ in
      let (env, n, e₄) = lift-ok (map_err (λ x. "failed") (k.envelope.into_writer mine)) _ d e₃ in
      let (u₂, e₅) = fail_if-ok (not w.sends) "relay_unreachable" _ d e₄ in
      let is = sym (ok_inj (ap (λ y. y.1) e₅)) in
      let after = sym (ap (λ y. y.0) e₅) in
      let same_hash = ap (λ o. o.header_hash) is in
      let said = ap (λ o. o.notice) is in
      (
        again,
        mine,
        env,
        i ∙ ap (λ x. ok (again, x)) (sym same_hash),
        m,
        map_err-ok _ _ n,
        said
            ∙ ap (λ x. notice_of c f k w h prev_hash x (struct_hash c.primitives terms) env)
                (sym same_hash),
        ap (λ x. x.sent) after ∙ ap (λ x. d.sent ++ (x ∷ [])) (sym said),
        ap (λ x. x.held.terms) after,
        ap (λ x. x.held.envelope) after,
        ap (λ x. x.sealed) after,
        ap (λ o. o.ver) is,
      )

  pub save-Announces :
      (d : Desk) {d' : Desk} {out : Saved} → save c f k w d ≡ (d', ok out) → Announces d d' out
  unfolding save
  save-Announces d {d' = d'} {out = out} e =
      let s = d.held.session.state in
      let (u₁, e₁) = fail_if-ok (not (is_resealing s)) "not_saving" _ d e in
      let (terms, t, e₂) = lift-ok (ok_or d.held.terms "not_granted") _ d e₁ in
      let (dek, q, e₃) = lift-ok (held_key c k w.secret terms d.held.envelope) _ d e₂ in
      let ((prev, prev_hash), i, e₄) = lift-ok (inspected c f k w d) _ d e₃ in
      let (u₂, e₅) = fail_if-ok (not (bytes_beq prev_hash terms.header_hash)) "version" _ d e₄ in
      let (d₁, header, r, e₆) = step-ok (reseal_step c f k w dek prev) _ d e₅ in
      let (resealed, is) = reseal_step-ok dek prev d r in
      let (
        again, mine, env, again_is, first, written, notice, sent, terms_is, env_is, sealed_is, ver,
      ) =
        announce_version-ok terms prev_hash header d₁ e₆ in
      let version = (bytes_beq_iff prev_hash terms.header_hash).0 (ground (arith, u₂)) in
      record {
        terms = terms;
        dek = dek;
        prev = prev;
        header = header;
        again = again;
        mine = mine;
        envelope = env;
        resealing_now = ground (arith, u₁);
        has_terms = ok_or-ok _ _ t;
        key = q;
        seen = i ∙ ap (λ x. ok (prev, x)) version;
        resealed = resealed ∙ ap (λ x. (x, ok header)) (sym sealed_is);
        seen_again = inspected-sealed d₁ d' (sym sealed_is) ∙ again_is;
        first = first;
        written = written;
        notice_is =
            notice
            ∙ ap
                (λ x.
                  notice_of c f k w header x out.header_hash (struct_hash c.primitives terms) env)
                version;
        sent = sent ∙ ap (λ x. x.sent ++ (out.notice ∷ [])) is;
        same_terms = terms_is ∙ ap (λ x. x.held.terms) is;
        same_envelope = env_is ∙ ap (λ x. x.held.envelope) is;
        ver_is = ver;
      }

module _ (c : Suite) (f : Headers.Forms) (k : Forms) where
  inspected-same :
      (w w' : Saving) (d d' : Desk)
      → d.sealed ≡ d'.sealed
      → inspected c f k w' d' ≡ inspected c f k w d
  unfolding inspected
  inspected-same w w' d d' e = rw e refl

  -- After a save, no further save of the session succeeds: the grant that is held still names the
  -- version before, and the container is the version after. Unless the two headers hash alike, every
  -- later save of the same held grant, on the container that the first save left, is refused as
  -- "version" and changes nothing.
  pub save-then-refused :
      (w w' : Saving) (t : AccessGrantTerms) (d d' d'' : Desk) (out : Saved)
      → save c f k w d ≡ (d', ok out)
      → d.held.terms ≡ some t
      → out.header_hash ≢ t.header_hash
      → w'.secret ≡ w.secret
      → d''.sealed ≡ d'.sealed
      → d''.held.terms ≡ d'.held.terms
      → d''.held.envelope ≡ d'.held.envelope
      → is_resealing d''.held.session.state ≡ true
      → save c f k w' d'' ≡ (d'', err "version")
  unfolding save
  save-then-refused w w' t d d' d'' out run held differs secret sealed terms env live =
      let a = save-Announces c f k w d run in
      let has : d''.held.terms ≡ some t = terms ∙ (a.same_terms ∙ held) in
      let same_t : a.terms ≡ t = some_inj (sym a.has_terms ∙ held) in
      let key : held_key c k w'.secret t d''.held.envelope ≡ ok a.dek =
        ap (λ x. held_key c k x t d''.held.envelope) secret
        ∙ (ap (λ x. held_key c k w.secret t x) (env ∙ a.same_envelope)
            ∙ (ap (λ x. held_key c k w.secret x d.held.envelope) (sym same_t) ∙ a.key)) in
      let seen : inspected c f k w' d'' ≡ ok (a.again, out.header_hash) =
        inspected-same w w' d' d'' (sym sealed) ∙ a.seen_again in
      let other : bytes_beq out.header_hash t.header_hash ≡ false =
        ground (arith, bytes_beq_iff out.header_hash t.header_hash) in
      rw (live, has) (rw (key, seen) (rw other refl))
