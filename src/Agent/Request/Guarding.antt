-- ===== src/Agent/Request/Guarding.antt =====
-- `watch_grant` of apps/agent/src-tauri/src/request.rs: while a grant is held, a revocation or the
-- expiry ends it. What the others answer is an argument, one record for each round of the loop.
use z_bacs.Prelude.{
  ℕ, ◌≤◌, Bool, true, false, ◌≡◌, ◌⊎◌, inl, inr, refl, Option, none, some, List, [], ◌∷◌, Result,
  ok, err, leb, any, arith, if◌then◌else◌, String, Bool-cases, sym, All, ◌++◌, subst,
}
use z_bacs.Prelude.Bytes.{Bytes, bytes_beq_iff}
use z_bacs.Session.{Session, State, closed, apply, Event, is_terminal}
use z_bacs.Session.Requested.{apply_live-revoked, apply_live-expired}
use z_bacs.Proto.Messages.{Envelope, Kind, Revoke}
use z_bacs.Proto.Signed.{Signed, from_bytes, same_kind}
use z_bacs.Proto.Authenticity.{same_kind_self}
use z_bacs.Agent.Forms.{Forms}
use z_bacs.Agent.Request.{is_revoke_for, payload_of}
use z_bacs.Agent.Request.Asking.{ClientError}

pub data GrantEnd : Type 0 where
  revoked expired cancelled : GrantEnd

-- One round: whether the watch is to stop, the clock, what the chain says of the grant, if there is a
-- chain, and the inbox.
pub record Look : Type 0 where
  pub cancel : Bool
  pub now : ℕ
  pub is_grant_valid : Option (Result String Bool)
  pub inbox : Result ClientError (List Envelope)

-- `matches!(.., Ok(false))`.
abbrev pub revoked_on_chain : Option (Result String Bool) → Bool
revoked_on_chain (some (ok false)) = true
revoked_on_chain _ = false

same_kind_is : (a b : Kind) → a ≡ b → same_kind a b ≡ true
same_kind_is a b h = subst (λ x. same_kind a x ≡ true) h (same_kind_self a)

module _ (k : Forms) (grant_id : Bytes) (expiry : ℕ) where
  unfoldable pub revoked_by_relay : Result ClientError (List Envelope) → Bool
  unfolding is_revoke_for
  revoked_by_relay (ok envelopes) = any (λ e. is_revoke_for k e grant_id) envelopes
  revoked_by_relay (err e) = false

  -- One round up to the sleep: how the watch ends, and the session.
  unfoldable pub look : Look → Session → Option (GrantEnd × Session)
  unfolding revoked_by_relay apply
  look l s =
      if l.cancel
      then some (cancelled, s)
      else if leb expiry l.now
      then some (expired, (apply s Event.expired l.now).0)
      else if revoked_on_chain l.is_grant_valid
      then some (revoked, (apply s Event.revoked l.now).0)
      else if revoked_by_relay l.inbox
      then some (revoked, (apply s Event.revoked l.now).0)
      else none

  -- The loop; `none` where the rounds come to an end before the watch.
  unfoldable pub watch_grant : List Look → Session → Option (GrantEnd × Session)
  unfolding look
  watch_grant [] s = none
  watch_grant (l ∷ ls) s =
      let rest = watch_grant ls s in elim (look l s) [ none ↦ rest | some end ↦ some end ]

  -- An envelope of the revocations' kind whose body is a message of that kind, and whose payload
  -- reads as a revocation of the grant.
  pub record Revokes (e : Envelope) : Type 0 where
    pub signed : Signed
    pub what : Revoke
    pub envelope_kind : e.kind ≡ Kind.revoke
    pub message : from_bytes k.signed e.body ≡ ok signed
    pub message_kind : signed.kind ≡ Kind.revoke
    pub payload : k.revoke.from_reader signed.payload ≡ some what
    pub names : what.grant_id ≡ grant_id

  -- An envelope that revokes the grant, anywhere in an inbox.
  pub record Pulled (inbox : Result ClientError (List Envelope)) : Type 0 where
    pub before : List Envelope
    pub it : Envelope
    pub after : List Envelope
    pub inbox_is : inbox ≡ ok (before ++ (it ∷ after))
    pub revokes : Revokes it

  -- What ends the use of a grant.
  abbrev pub Over : Look → Type 0
  Over l = (expiry ≤ l.now) ⊎ ((l.is_grant_valid ≡ some (ok false)) ⊎ Pulled l.inbox)

  Revokes-is : (e : Envelope) → Revokes e → is_revoke_for k e grant_id ≡ true
  unfolding is_revoke_for payload_of
  Revokes-is e r =
      let here = same_kind_is e.kind Kind.revoke r.envelope_kind in
      let inside = same_kind_is r.signed.kind Kind.revoke r.message_kind in
      let same = (bytes_beq_iff r.what.grant_id grant_id).1 r.names in
      ground (arith, here, r.message, inside, r.payload, same)

  any-within :
      (p : Envelope → Bool) (before : List Envelope) (e : Envelope) (after : List Envelope)
      → p e ≡ true
      → any p (before ++ (e ∷ after)) ≡ true
  any-within p [] e after h = ground (arith, h)
  any-within p (b ∷ before) e after h = ground (arith, any-within p before e after h)

  Pulled-is :
      (inbox : Result ClientError (List Envelope)) → Pulled inbox → revoked_by_relay inbox ≡ true
  unfolding revoked_by_relay
  Pulled-is inbox x = rw (x.inbox_is) (
      any-within (λ e. is_revoke_for k e grant_id) x.before x.it x.after
        (Revokes-is x.it x.revokes))

  -- The watch ended because of the grant, and the session with it.
  abbrev pub Closed : Option (GrantEnd × Session) → Type 0
  Closed o =
      (s : Session) × (((o ≡ some (revoked, s)) × (s.state ≡ State.revoked))
        ⊎ ((o ≡ some (expired, s)) × (s.state ≡ closed)))

  look-Closed :
      (l : Look) (s : Session)
      → is_terminal s.state ≡ false
      → l.cancel ≡ false
      → ((look l s ≡ none) × ¬ Over l) ⊎ Closed (look l s)
  unfolding look
  look-Closed l s live go = elim (Bool-cases (leb expiry l.now)) [
    | inl late ↦ inr (
      (apply s Event.expired l.now).0,
      inr (rw (go, late, look) refl, apply_live-expired s l.now live),
    )
    | inr early ↦ elim (Bool-cases (revoked_on_chain l.is_grant_valid)) [
      | inl gone ↦ inr (
        (apply s Event.revoked l.now).0,
        inl (rw (go, early, gone, look) refl, apply_live-revoked s l.now live),
      )
      | inr kept ↦ elim (Bool-cases (revoked_by_relay l.inbox)) [
        | inl told ↦ inr (
          (apply s Event.revoked l.now).0,
          inl (rw (go, early, kept, told, look) refl, apply_live-revoked s l.now live),
        )
        | inr silent ↦ inl (
          rw (go, early, kept, silent, look) refl,
          λ over. elim over [
            | inl x ↦ ground arith
            | inr (inl x) ↦ ground arith
            | inr (inr x) ↦ ground (arith, Pulled-is l.inbox x)
          ],
        )
      ]
    ]
  ]

  watch-stops :
      (l : Look) (ls : List Look) (s : Session)
      → Closed (look l s)
      → Closed (watch_grant (l ∷ ls) s)
  unfolding watch_grant
  watch-stops l ls s (s', inl (e, st)) = (s', inl (rw (e, watch_grant) refl, st))
  watch-stops l ls s (s', inr (e, st)) = (s', inr (rw (e, watch_grant) refl, st))

  watch-goes_on :
      (l : Look) (ls : List Look) (s : Session)
      → look l s ≡ none
      → watch_grant (l ∷ ls) s ≡ watch_grant ls s
  unfolding watch_grant
  watch-goes_on l ls s e = rw (e, watch_grant) refl

  -- A watch that is not told to stop ends as soon as a round finds the window over, the grant no longer
  -- valid on the chain, or anywhere in the inbox a message of the revocations' kind that names it; the
  -- session that it guards, which had
  -- not ended, is then revoked or closed, whatever the rounds before have seen.
  pub watch_grant-Closed :
      (before : List Look) (l : Look) (s : Session)
      → is_terminal s.state ≡ false
      → All (λ x. x.cancel ≡ false) (before ++ (l ∷ []))
      → Over l
      → Closed (watch_grant (before ++ (l ∷ [])) s)
  watch_grant-Closed [] l s live (go, u) over = elim (look-Closed l s live go) [
    | inl (still, not_over) ↦ absurd (not_over over)
    | inr end ↦ watch-stops l [] s end
  ]
  watch_grant-Closed (b ∷ before) l s live (go, gos) over = elim (look-Closed b s live go) [
    | inl (still, not_over) ↦
        subst Closed (sym (watch-goes_on b (before ++ (l ∷ [])) s still))
          (watch_grant-Closed before l s live gos over)
    | inr end ↦ watch-stops b (before ++ (l ∷ [])) s end
  ]
