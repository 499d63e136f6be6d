-- ===== src/Core/Padding.antt =====
-- The padding of file names: `pad_name` and `unpad_name` of crates/zbacs-core/src/container.rs.
use z_bacs.Prelude.{
  ℕ, zero, suc, ◌^◌, ◌+◌, ◌-◌, ◌%◌, ◌≤◌, ◌≡◌, refl, ◌∙◌, ap, ◌++◌, true, false, not, ok, arith,
  length, length-append, length-replicate, take, drop, take-append, drop-append, replicate, any,
  ◌==◌,
}
use z_bacs.Prelude.Bytes.{Bytes, to_le_bytes, from_le_bytes, length-to_le_bytes, from-to_le_bytes}
use z_bacs.Core.External.{Suite}
use z_bacs.Core.Name.{padded_len, pad_name, unpad_name, max_name_len}

any-replicate : (n : ℕ) → any (λ b. not (b == 0)) (replicate n 0) ≡ false
any-replicate zero = refl
any-replicate (suc n) = any-replicate n

abbrev padded : Bytes → Bytes
padded name =
    to_le_bytes 2 (length name % 2 ^ 16)
    ++ (name ++ replicate (padded_len (length name) - (2 + length name)) 0)

pad_name-padded :
    (name : Bytes) {b : Bytes}
    → pad_name name ≡ ok b
    → (b ≡ padded name) × (length name ≤ max_name_len)
unfolding pad_name
pad_name-padded name h = ground arith

length-padded :
    (name : Bytes) → length name ≤ max_name_len → length (padded name) ≡ padded_len (length name)
length-padded name h = omega (
  arith,
  length-append (to_le_bytes 2 (length name % 2 ^ 16))
      (name ++ replicate (padded_len (length name) - (2 + length name)) 0),
  length-append name (replicate (padded_len (length name) - (2 + length name)) 0),
  length-replicate {A = ℕ} (padded_len (length name) - (2 + length name)) 0,
  length-to_le_bytes 2 (length name % 2 ^ 16),
)

-- A padded name is of one of 17 lengths, a positive number of blocks of 64 bytes, and the length
-- depends on the number of blocks alone that the name and its prefix need.
pub length-pad_name :
    (name : Bytes) {b : Bytes}
    → pad_name name ≡ ok b
    → (length b ≡ padded_len (length name))
      × (length b % 64 ≡ 0)
      × (64 ≤ length b)
      × (length b ≤ 1088)
length-pad_name name h =
    let (e, small) = pad_name-padded name h in
    let l = ap length e ∙ length-padded name small in (l, omega arith, omega arith, omega arith)

-- Where the prefix, the name and the zeros stand in a padded name.
parts :
    (name zeros : Bytes) (v : ℕ)
    → (take 2 (to_le_bytes 2 v ++ (name ++ zeros)) ≡ to_le_bytes 2 v)
      × (drop 2 (to_le_bytes 2 v ++ (name ++ zeros)) ≡ name ++ zeros)
      × (drop (2 + length name) (to_le_bytes 2 v ++ (name ++ zeros)) ≡ zeros)
unfolding to_le_bytes
parts name zeros v =
    let two : 2 + length name ≡ suc (suc (length name)) = omega arith in
    (refl, refl, rw two (drop-append name zeros))

prefix : (n : ℕ) → n ≤ max_name_len → from_le_bytes (to_le_bytes 2 (n % 2 ^ 16)) ≡ n
prefix n h = from-to_le_bytes 2 (n % 2 ^ 16) (omega arith) ∙ omega arith

unpad-padded :
    (c : Suite) (name buf : Bytes) (n : ℕ)
    → n ≡ length name
    → n ≤ max_name_len
    → length buf ≡ padded_len n
    → from_le_bytes (take 2 buf) ≡ n
    → drop (2 + n) buf ≡ replicate (padded_len n - (2 + n)) 0
    → take n (drop 2 buf) ≡ name
    → c.is_utf8 name ≡ true
    → unpad_name c buf ≡ ok name
unfolding unpad_name
unpad-padded c name buf n e small l p d t u = ground (arith, any-replicate (padded_len n - (2 + n)))

-- A name in UTF-8 that was padded is unpadded to the same name.
pub unpad_name-pad_name :
    (c : Suite) (name : Bytes) {b : Bytes}
    → c.is_utf8 name ≡ true
    → pad_name name ≡ ok b
    → unpad_name c b ≡ ok name
unpad_name-pad_name c name u h =
    let (e, small) = pad_name-padded name h in
    let zeros = replicate (padded_len (length name) - (2 + length name)) 0 in
    let (two, rest, tail) = parts name zeros (length name % 2 ^ 16) in
    ap (unpad_name c) e
    ∙ unpad-padded c name (padded name) (length name) refl small (length-padded name small)
        (ap from_le_bytes two ∙ prefix (length name) small) tail
        (ap (take (length name)) rest ∙ take-append name zeros) u
