-- ===== src/Chain/Cache/Revocations.antt =====
-- What a fresh answer of crates/zbacs-chain/src/cache.rs says of the answers before it.
use z_bacs.Prelude.{
  ℕ, ◌-◌, ◌≤◌, Bool, true, false, not, ◌≡◌, ◌⊎◌, inl, inr, Option, none, some, List, [], ◌∷◌, All,
  arith, Option-cases, Bool-cases, sym, ◌∙◌,
}
use z_bacs.Prelude.Bytes.{Bytes, bytes_beq, bytes_beq_iff, bytes_eq}
use z_bacs.Chain.Cache.{
  Cache, Cached, Entry, Put, grants_put, versions_put, new, put_grant, put_version, puts, grant,
  cached, if_fresh, revives,
}

-- Nothing of what was remembered denies the grant.
unfoldable pub Allowed : Bytes → Put → Type 0
Allowed id (grants_put other valid now) = bytes_beq other id ≡ true → valid ≡ true
Allowed id (versions_put file_id v now) = Unit

-- An answer that says that the grant is valid, within the tolerance.
unfoldable pub Confirms : Bytes → ℕ → ℕ → Put → Type 0
Confirms id tolerance now (grants_put other valid at) =
    (other ≡ id) × (valid ≡ true) × (now - at ≤ tolerance)
Confirms id tolerance now (versions_put file_id v at) = ⊥

-- One of the answers does.
unfoldable pub Some : (Put → Type 0) → List Put → Type 0
Some P [] = ⊥
Some P (p ∷ ps) = P p ⊎ Some P ps

abbrev denied : Option (Entry Bool) → Bool
denied none = false
denied (some e) = not e.value

put_grant-denied :
    (id other : Bytes) (valid : Bool) (now : ℕ) (c : Cache)
    → denied ((put_grant other valid now c).grants id) ≡ false
    → (bytes_beq other id ≡ true → valid ≡ true) × (denied (c.grants id) ≡ false)
unfolding put_grant
put_grant-denied id other valid now c h =
    (λ same. ground (arith, bytes_beq_iff other id), ground (arith, bytes_beq_iff other id))

puts-denied :
    (id : Bytes) (ps : List Put) (c : Cache)
    → denied ((puts ps c).grants id) ≡ false
    → All (Allowed id) ps × (denied (c.grants id) ≡ false)
unfolding puts put_version Allowed
puts-denied id [] c h = (tt, h)
puts-denied id (grants_put other valid now ∷ ps) c h =
    let (rest, kept) = puts-denied id ps (put_grant other valid now c) h in
    let (mine, before) = put_grant-denied id other valid now c kept in ((mine, rest), before)
puts-denied id (versions_put file_id v now ∷ ps) c h =
    let (rest, kept) = puts-denied id ps (put_version file_id v now c) h in ((tt, rest), kept)

-- What the entry of a grant goes back to.
put_grant-entry :
    (id other : Bytes) (valid : Bool) (now : ℕ) (c : Cache) (e : Entry Bool)
    → (put_grant other valid now c).grants id ≡ some e
    → ((other ≡ id) × (valid ≡ e.value) × (now ≡ e.at)) ⊎ (c.grants id ≡ some e)
unfolding put_grant
put_grant-entry id other valid now c e h = elim (Bool-cases (revives (c.grants other) valid)) [
  | inl kept ↦ inr (ground arith)
  | inr new_one ↦ elim (Bool-cases (bytes_beq other id)) [
    | inl same ↦ inl ((bytes_beq_iff other id).0 same, ground arith, ground arith)
    | inr differ ↦ inr (ground arith)
  ]
]

puts-entry :
    (id : Bytes) (tolerance now : ℕ) (ps : List Put) (c : Cache) (e : Entry Bool)
    → (puts ps c).grants id ≡ some e
    → e.value ≡ true
    → now - e.at ≤ tolerance
    → Some (Confirms id tolerance now) ps ⊎ (c.grants id ≡ some e)
unfolding puts put_version Some Confirms
puts-entry id tolerance now [] c e h alive young = inr h
puts-entry id tolerance now (grants_put other valid at ∷ ps) c e h alive young =
    elim (puts-entry id tolerance now ps (put_grant other valid at c) e h alive young) [
      | inl later ↦ inl (inr later)
      | inr here ↦ elim (put_grant-entry id other valid at c e here) [
        | inl (same, is, when) ↦ inl (inl (same, is ∙ alive, ground arith))
        | inr before ↦ inr before
      ]
    ]
puts-entry id tolerance now (versions_put file_id v at ∷ ps) c e h alive young =
    elim (puts-entry id tolerance now ps (put_version file_id v at c) e h alive young) [
      | inl later ↦ inl (inr later)
      | inr here ↦ inr here
    ]

fresh-entry :
    (id : Bytes) (tolerance now : ℕ) (c : Cache) (x : Cached Bool)
    → grant id tolerance now c ≡ some x
    → if_fresh x ≡ some true
    → (e : Entry Bool) × (c.grants id ≡ some e) × (e.value ≡ true) × (now - e.at ≤ tolerance)
unfolding grant cached if_fresh
fresh-entry id tolerance now c x h f = elim (Option-cases (c.grants id)) [
  | inl missing ↦ absurd (ground arith)
  | inr (e, here) ↦
      let is : x ≡ cached tolerance now e = ground arith in
      let found : if_fresh (cached tolerance now e) ≡ some true = rw (sym is) f in
      (e, here, ground arith, ground arith)
]

-- A cache that gives a fresh answer that a grant is valid has never been told otherwise: since it was new
-- (or cleared) every answer about that grant was that it is valid, and one of them is no older than
-- the tolerance. So a grant that was once seen revoked is never taken for valid again.
pub if_fresh-Allowed :
    (id : Bytes) (tolerance now : ℕ) (ps : List Put) (x : Cached Bool)
    → grant id tolerance now (puts ps new) ≡ some x
    → if_fresh x ≡ some true
    → All (Allowed id) ps × Some (Confirms id tolerance now) ps
unfolding new
if_fresh-Allowed id tolerance now ps x h f =
    let (e, here, alive, young) = fresh-entry id tolerance now (puts ps new) x h f in
    let kept : denied ((puts ps new).grants id) ≡ false = ground arith in
    let told = (puts-denied id ps new kept).0 in
    elim (puts-entry id tolerance now ps new e here alive young) [
      | inl some_one ↦ (told, some_one)
      | inr before ↦ cc
    ]
