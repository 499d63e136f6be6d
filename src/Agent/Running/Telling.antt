-- ===== src/Agent/Running/Telling.antt =====
-- What a session of apps/agent/src-tauri/src/session.rs tells the person and the owner of its versions.
use z_bacs.Prelude.{
  ℕ, Bool, ◌≡◌, refl, sym, ◌∙◌, ap, subst, Option, none, some, some_inj, List, [], ◌∷◌, ◌++◌, map,
  map-append, filter_map, filter_map-append, filter_map-cons-none, filter_map-cons-some, append-nil,
  String, Result, ok, err, ok_inj,
}
use z_bacs.Proto.Messages.{VersionMsg}
use z_bacs.Proto.Grant.{AccessGrantTerms}
use z_bacs.Core.External.{Suite}
use z_bacs.Core.Header as Headers
use z_bacs.Core.Header.{Header}
use z_bacs.Agent.Forms.{Forms}
use z_bacs.Agent.Open.Saving.{Desk, Saving, Saved, inspected, notice_of, save}
use z_bacs.Agent.Open.Announcing.{Announces, save-Announces}
use z_bacs.Agent.Running.{Room, Update, End, settle, with_desk, desk_of}
use z_bacs.Agent.Running.Ending.{Keeps, same}

-- The versions that the updates name.
abbrev pub versions : List Update → List ℕ
versions us = filter_map (λ u. u.version) us

-- The person is told of the versions that the relay took a notice of, in their order, and of no other.
abbrev pub Tale : List Update → List VersionMsg → Type 0
Tale us ns = versions us ≡ map (λ n. n.ver) ns

abbrev pub Told : Room → Type 0
Told d = Tale d.updates d.sent

pub Tale-silent :
    (us : List Update) (ns : List VersionMsg) (u : Update)
    → u.version ≡ none
    → Tale us ns
    → Tale (us ++ (u ∷ [])) ns
unfolding filter_map
Tale-silent us ns u silent told =
    filter_map-append (λ u. u.version) us (u ∷ [])
    ∙ (ap (λ l. versions us ++ l) (filter_map-cons-none (λ u. u.version) u [] silent)
        ∙ (append-nil (versions us) ∙ told))

Tale-saved :
    (us : List Update) (ns : List VersionMsg) (u : Update) (n : VersionMsg) {v : ℕ}
    → u.version ≡ some v
    → n.ver ≡ v
    → Tale us ns
    → Tale (us ++ (u ∷ [])) (ns ++ (n ∷ []))
unfolding filter_map
Tale-saved us ns u n {v = v} names is told =
    filter_map-append (λ u. u.version) us (u ∷ [])
    ∙ (ap (λ l. versions us ++ l) (filter_map-cons-some (λ u. u.version) u [] names)
        ∙ (ap (λ l. l ++ (v ∷ [])) told
            ∙ (ap (λ x. map (λ n. n.ver) ns ++ (x ∷ [])) (sym is)
                ∙ sym (map-append (λ n. n.ver) ns (n ∷ [])))))

-- At most one notice; or the first names one hash for both versions.
pub data Few : List VersionMsg → Type 0 where
  nothing : Few []
  single : (n : VersionMsg) → Few (n ∷ [])
  collided :
      (n : VersionMsg) (ns : List VersionMsg) → n.prev_header_hash ≡ n.header_hash → Few (n ∷ ns)

module _ (c : Suite) (f : Headers.Forms) (k : Forms) where
  -- The container is the version of a notice, which followed on the version of the held grant.
  pub record Current (d : Desk) (n : VersionMsg) : Type 0 where
    pub terms : AccessGrantTerms
    pub header : Header
    pub has_terms : d.held.terms ≡ some terms
    pub follows : n.prev_header_hash ≡ terms.header_hash
    pub seen : (w : Saving) → inspected c f k w d ≡ ok (header, n.header_hash)

  -- The notices while the session goes on.
  pub data Known (d : Desk) : Type 0 where
    unsaved : d.sent ≡ [] → Known d
    current : (n : VersionMsg) → d.sent ≡ n ∷ [] → Current d n → Known d
    repeated :
        (n : VersionMsg) (ns : List VersionMsg)
        → d.sent ≡ n ∷ ns
        → n.prev_header_hash ≡ n.header_hash
        → Known d

  pub Known-Few : (d : Desk) → Known d → Few d.sent
  Known-Few d (unsaved e) = subst Few (sym e) nothing
  Known-Few d (current n e h) = subst Few (sym e) (single n)
  Known-Few d (repeated n ns e h) = subst Few (sym e) (collided n ns h)

  inspected-any : (w w' : Saving) (d : Desk) → inspected c f k w' d ≡ inspected c f k w d
  unfolding inspected
  inspected-any w w' d = refl

  saved-Known :
      (w : Saving) (d d' : Desk) (out : Saved) → save c f k w d ≡ (d', ok out) → Known d → Known d'
  unfolding notice_of
  saved-Known w d d' out run known =
      let a = save-Announces c f k w d run in
      let follows = ap (λ x. x.prev_header_hash) a.notice_is in
      let next : Current d' out.notice = record {
        terms = a.terms;
        header = a.again;
        has_terms = a.same_terms ∙ a.has_terms;
        follows = follows;
        seen = λ w'.
            inspected-any w w' d'
            ∙ (a.seen_again
                ∙ ap (λ x. ok (a.again, x)) (sym (ap (λ x. x.header_hash) a.notice_is)));
      } in
      cases a next known
    where
      cases : Announces c f k w d d' out → Current d' out.notice → Known d → Known d'
      cases a next (unsaved e) =
          current out.notice (a.sent ∙ ap (λ l. l ++ (out.notice ∷ [])) e) next
      cases a next (repeated n ns e h) =
          repeated n (ns ++ (out.notice ∷ [])) (a.sent ∙ ap (λ l. l ++ (out.notice ∷ [])) e) h
      cases a next (current n e now) =
          let one = ok_inj (sym (now.seen w) ∙ a.seen) in
          let t = some_inj (sym a.has_terms ∙ now.has_terms) in
          repeated n (out.notice ∷ []) (a.sent ∙ ap (λ l. l ++ (out.notice ∷ [])) e)
            (now.follows ∙ (ap (λ x. x.header_hash) (sym t) ∙ sym (ap (λ x. x.1) one)))

  saved-ver :
      (w : Saving) (d d' : Desk) (out : Saved)
      → save c f k w d ≡ (d', ok out)
      → (d'.sent ≡ d.sent ++ (out.notice ∷ [])) × (out.notice.ver ≡ out.ver)
  unfolding notice_of
  saved-ver w d d' out run =
      let a = save-Announces c f k w d run in (a.sent, ap (λ x. x.ver) a.notice_is ∙ sym a.ver_is)

  -- What holds of the room in the loop, and at its end.
  unfoldable pub Good : Room → Type 0
  Good d = Told d × Known (desk_of d)

  unfoldable pub Fine : Room → Type 0
  Fine d = Told d × Few d.sent

  unfoldable pub Tells : Room × Option End → Type 0
  Tells (d, none) = Good d
  Tells (d, some e) = Fine d

  pub settle-Tells :
      (b : Bool) (now : ℕ) (w : Saving) (d : Room) (desk : Desk) (r : Result String Saved)
      → save c f k w (desk_of d) ≡ (desk, r)
      → Keeps (desk_of d) (desk, r)
      → Good d
      → Tells (settle b now r (with_desk desk d))
  unfolding settle Tells Good Fine
  settle-Tells b now w d desk (ok o) run keeps good =
      let (sent, ver) = saved-ver w (desk_of d) desk o run in
      (
        subst
            (Tale (
              d.updates
              ++ (record { phase = "resealed"; version = some o.ver; problem = none } ∷ [])))
            (sym sent) (Tale-saved d.updates d.sent _ o.notice refl ver good.0),
        saved-Known w (desk_of d) desk o run good.1,
      )
  settle-Tells b now w d desk (err e) run (same held sent) good = (
    subst
        (Tale (d.updates ++ (record { phase = "problem"; version = none; problem = some e } ∷ [])))
        (sym sent) (Tale-silent d.updates d.sent _ refl good.0),
    subst Few (sym sent) (Known-Few (desk_of d) good.1),
  )
