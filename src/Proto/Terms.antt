-- ===== src/Proto/Terms.antt =====
-- A grant's hash and digest bind its terms: crates/zbacs-proto/src/grant.rs.
use z_bacs.Prelude.{
  ℕ, ◌^◌, ◌<◌, [], ◌∷◌, ◌++◌, List, ◌≡◌, refl, sym, ◌∙◌, inl, inr, ◌⊎◌, arith, length,
  length-append, replicate,
}
use z_bacs.Prelude.Bytes.{
  Bytes, to_be_bytes, length-to_be_bytes, to_be_bytes_inj, append_inj, Collision, hash_inj,
}
use z_bacs.Proto.External.{Primitives}
use z_bacs.Proto.Grant.{
  AccessGrantTerms, IsTerms, word_u64, word_bytes16, joined, keccak, typehash, struct_hash,
  domain_hash, digest,
}

length-word_u64 : (v : ℕ) → length (word_u64 v) ≡ 32
unfolding word_u64
length-word_u64 v =
    omega (arith, length-append (replicate 24 0) (to_be_bytes 8 v), length-to_be_bytes 8 v)

word_u64_inj : (a b : ℕ) → a < 2 ^ 64 → b < 2 ^ 64 → word_u64 a ≡ word_u64 b → a ≡ b
unfolding word_u64
word_u64_inj a b ha hb e =
    to_be_bytes_inj 8 a b (omega arith) (omega arith)
      (append_inj (replicate 24 0) (replicate 24 0) refl e).1

word_bytes16_inj :
    (a b : Bytes) → length a ≡ 16 → length b ≡ 16 → word_bytes16 a ≡ word_bytes16 b → a ≡ b
unfolding word_bytes16
word_bytes16_inj a b ha hb e = (append_inj a b (ha ∙ sym hb) e).0

length-word_bytes16 : (v : Bytes) → length v ≡ 16 → length (word_bytes16 v) ≡ 32
unfolding word_bytes16
length-word_bytes16 v h = omega (arith, length-append v (replicate 16 0))

-- Parts of the same widths are joined without ambiguity.
SameWidths : List Bytes → List Bytes → Type 0
SameWidths [] [] = Unit
SameWidths (x ∷ xs) (y ∷ ys) = (length x ≡ length y) × SameWidths xs ys
SameWidths _ _ = ⊥

joined_inj : (xs ys : List Bytes) → SameWidths xs ys → joined xs ≡ joined ys → xs ≡ ys
unfolding joined SameWidths
joined_inj [] [] w e = refl
joined_inj [] (y ∷ ys) w e = elim w [ ]
joined_inj (x ∷ xs) [] w e = elim w [ ]
joined_inj (x ∷ xs) (y ∷ ys) w e =
    let (same, rest) = append_inj x y w.0 e in let ih = joined_inj xs ys w.1 rest in cc

keccak_inj :
    (c : Primitives) (xs ys : List Bytes)
    → SameWidths xs ys
    → keccak c xs ≡ keccak c ys
    → (xs ≡ ys) ⊎ Collision c.keccak256
unfolding keccak
keccak_inj c xs ys w e = elim (hash_inj c.keccak256 (joined xs) (joined ys) e) [
  | inl same ↦ inl (joined_inj xs ys w same)
  | inr clash ↦ inr clash
]

same_word : (a b : ℕ) → length (word_u64 a) ≡ length (word_u64 b)
same_word a b = length-word_u64 a ∙ sym (length-word_u64 b)

abbrev words : Primitives → AccessGrantTerms → List Bytes
words c t =
    typehash c
    ∷ t.file_id
    ∷ t.header_hash
    ∷ t.device_key_hash
    ∷ word_u64 t.permission
    ∷ word_u64 t.not_before
    ∷ word_u64 t.expiry
    ∷ word_u64 t.max_opens
    ∷ word_bytes16 t.request_nonce
    ∷ word_u64 t.grant_nonce
    ∷ []

words-SameWidths :
    (c : Primitives) (t u : AccessGrantTerms)
    → IsTerms t
    → IsTerms u
    → SameWidths (words c t) (words c u)
unfolding SameWidths
words-SameWidths c t u v w = (
  refl,
  (
    v.file_id ∙ sym w.file_id,
    (
      v.header_hash ∙ sym w.header_hash,
      (
        v.device_key_hash ∙ sym w.device_key_hash,
        (
          same_word t.permission u.permission,
          (
            same_word t.not_before u.not_before,
            (
              same_word t.expiry u.expiry,
              (
                same_word t.max_opens u.max_opens,
                (
                  length-word_bytes16 t.request_nonce v.request_nonce
                      ∙ sym (length-word_bytes16 u.request_nonce w.request_nonce),
                  (same_word t.grant_nonce u.grant_nonce, tt),
                ),
              ),
            ),
          ),
        ),
      ),
    ),
  ),
)

words_inj :
    (c : Primitives) (t u : AccessGrantTerms)
    → IsTerms t
    → IsTerms u
    → words c t ≡ words c u
    → t ≡ u
words_inj c t u v w e =
    let permission = word_u64_inj t.permission u.permission (omega arith) (omega arith) (cc) in
    let not_before = word_u64_inj t.not_before u.not_before v.not_before w.not_before (cc) in
    let expiry = word_u64_inj t.expiry u.expiry v.expiry w.expiry (cc) in
    let max_opens = word_u64_inj t.max_opens u.max_opens (omega arith) (omega arith) (cc) in
    let request_nonce =
      word_bytes16_inj t.request_nonce u.request_nonce v.request_nonce w.request_nonce (cc) in
    let grant_nonce = word_u64_inj t.grant_nonce u.grant_nonce v.grant_nonce w.grant_nonce (cc) in
    let file_id : t.file_id ≡ u.file_id = cc in
    let header_hash : t.header_hash ≡ u.header_hash = cc in
    let device : t.device_key_hash ≡ u.device_key_hash = cc in
    ground (
      arith, permission, not_before, expiry, max_opens, request_nonce, grant_nonce, file_id,
      header_hash, device,
    )

-- Two grants with one struct hash (the grant id on chain), whose fields have their widths, have the
-- same terms, field for field, or they show a Keccak collision.
pub struct_hash_binds :
    (c : Primitives) (t u : AccessGrantTerms)
    → IsTerms t
    → IsTerms u
    → struct_hash c t ≡ struct_hash c u
    → (t ≡ u) ⊎ Collision c.keccak256
unfolding struct_hash
struct_hash_binds c t u v w e =
    elim (keccak_inj c (words c t) (words c u) (words-SameWidths c t u v w) e) [
      | inl same ↦ inl (words_inj c t u v w same)
      | inr clash ↦ inr clash
    ]

domain_hash_binds :
    (c : Primitives) (chain chain' : ℕ) (contract contract' : Bytes)
    → chain < 2 ^ 64
    → chain' < 2 ^ 64
    → length contract ≡ 20
    → length contract' ≡ 20
    → domain_hash c chain contract ≡ domain_hash c chain' contract'
    → ((chain ≡ chain') × (contract ≡ contract')) ⊎ Collision c.keccak256
unfolding domain_hash SameWidths
domain_hash_binds c n n' k k' hn hn' hk hk' e =
    elim (keccak_inj c _ _ (refl, (refl, (refl, (same_word n n', (padded, tt))))) e) [
      | inl same ↦
          let words : word_u64 n ≡ word_u64 n' = cc in
          let pads : replicate 12 0 ++ k ≡ replicate 12 0 ++ k' = cc in
          inl (
            word_u64_inj n n' hn hn' words,
            (append_inj (replicate 12 0) (replicate 12 0) refl pads).1,
          )
      | inr clash ↦ inr clash
    ]
  where
    padded : length (replicate 12 0 ++ k) ≡ length (replicate 12 0 ++ k')
    padded = omega (arith, length-append (replicate 12 0) k, length-append (replicate 12 0) k')

module _ (c : Primitives) (d : (b : Bytes) → length (c.keccak256 b) ≡ 32) where
  length-domain_hash : (n : ℕ) (k : Bytes) → length (domain_hash c n k) ≡ 32
  unfolding domain_hash keccak
  length-domain_hash n k = d _

  length-struct_hash : (t : AccessGrantTerms) → length (struct_hash c t) ≡ 32
  unfolding struct_hash keccak
  length-struct_hash t = d _

three :
    (x y z x' y' z' : Bytes)
    → length x ≡ length x'
    → length y ≡ length y'
    → length z ≡ length z'
    → SameWidths (x ∷ y ∷ z ∷ []) (x' ∷ y' ∷ z' ∷ [])
unfolding SameWidths
three x y z x' y' z' p q r = (p, (q, (r, tt)))

-- The digest that the owner signs binds the terms, the chain and the contract: a grant cannot be
-- replayed on another chain or for another contract, short of a Keccak collision. Digests are 32
-- bytes, chain ids u64, contracts 20 bytes, and the fields have their widths.
pub digest_binds :
    (c : Primitives) (t u : AccessGrantTerms) (chain chain' : ℕ) (contract contract' : Bytes)
    → ((b : Bytes) → length (c.keccak256 b) ≡ 32)
    → IsTerms t
    → IsTerms u
    → chain < 2 ^ 64
    → chain' < 2 ^ 64
    → length contract ≡ 20
    → length contract' ≡ 20
    → digest c t chain contract ≡ digest c u chain' contract'
    → ((t ≡ u) × (chain ≡ chain') × (contract ≡ contract')) ⊎ Collision c.keccak256
unfolding digest
digest_binds c t u n n' k k' d v w hn hn' hk hk' e =
    let domain = length-domain_hash c d n k ∙ sym (length-domain_hash c d n' k') in
    let struct = length-struct_hash c d t ∙ sym (length-struct_hash c d u) in
    elim (keccak_inj c _ _ (three _ _ _ _ _ _ refl domain struct) e) [
      | inr clash ↦ inr clash
      | inl same ↦ elim (domain_hash_binds c n n' k k' hn hn' hk hk' (cc)) [
        | inr clash ↦ inr clash
        | inl (chains, contracts) ↦ elim (struct_hash_binds c t u v w (cc)) [
          | inr clash ↦ inr clash
          | inl terms ↦ inl (terms, chains, contracts)
        ]
      ]
    ]
