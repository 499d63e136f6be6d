-- ===== src/Prelude/Bytes.antt =====
-- Byte strings, their equality, and little-endian words of a given width.
use Prim.Native.Nat.{ℕ, zero, suc, ◌+◌, ◌-◌, ◌*◌, ◌/◌, ◌%◌, ◌^◌, ◌<◌}
use Prim.Native.Char.{code}
use Prim.Native.String.{String}
use mathlib.Core.Path.{◌≡◌, refl, ap, sym, ◌∙◌}
use mathlib.Core.Logic.{◌↔◌, ◌⊎◌, ◌≢◌, inl, inr}
use mathlib.Core.Bool.{Bool, true, false, ◌&&◌}
use mathlib.Core.List.{List, [], ◌∷◌, ◌++◌}
use native.Mathlib.Omega.{arith}
use z_bacs.Prelude.Tests.{◌==◌, Bool-cases}
use z_bacs.Prelude.Lists.{length, length-append}
use z_bacs.Prelude.Maps.{Eq}

abbrev pub Bytes : Type 0
Bytes = List ℕ

unfoldable pub bytes_beq : Bytes → Bytes → Bool
bytes_beq [] [] = true
bytes_beq (x ∷ xs) (y ∷ ys) = x == y && bytes_beq xs ys
bytes_beq _ _ = false

pub bytes_beq_iff : (a b : Bytes) → (bytes_beq a b ≡ true) ↔ (a ≡ b)
unfolding bytes_beq
bytes_beq_iff (x ∷ a) (y ∷ b) = ground (arith, bytes_beq_iff a b)
bytes_beq_iff _ _ = ground arith

instance abbrev pub bytes_eq : Eq Bytes
bytes_eq = record { beq = bytes_beq; beq_iff = bytes_beq_iff }

-- `to_le_bytes` of a word of `w` bytes.
unfoldable pub to_le_bytes : ℕ → ℕ → Bytes
to_le_bytes zero v = []
to_le_bytes (suc w) v = (v % 256) ∷ to_le_bytes w (v / 256)

-- `from_le_bytes`.
unfoldable pub from_le_bytes : Bytes → ℕ
from_le_bytes [] = 0
from_le_bytes (b ∷ bs) = b + 256 * from_le_bytes bs

pub length-to_le_bytes : (w v : ℕ) → length (to_le_bytes w v) ≡ w
unfolding to_le_bytes
length-to_le_bytes zero v = refl
length-to_le_bytes (suc w) v = ap suc (length-to_le_bytes w (v / 256))

pub from-to_le_bytes : (w v : ℕ) → v < 256 ^ w → from_le_bytes (to_le_bytes w v) ≡ v
unfolding to_le_bytes from_le_bytes
from-to_le_bytes zero v h = omega arith
from-to_le_bytes (suc w) v h =
    let q : v / 256 < 256 ^ w = omega arith in omega (arith, from-to_le_bytes w (v / 256) q)

pub to_le_bytes_inj :
    (w a b : ℕ) → a < 256 ^ w → b < 256 ^ w → to_le_bytes w a ≡ to_le_bytes w b → a ≡ b
to_le_bytes_inj w a b ha hb e =
    sym (from-to_le_bytes w a ha) ∙ ap from_le_bytes e ∙ from-to_le_bytes w b hb

-- `to_be_bytes` of a word of `w` bytes.
unfoldable pub to_be_bytes : ℕ → ℕ → Bytes
to_be_bytes zero v = []
to_be_bytes (suc w) v = to_be_bytes w (v / 256) ++ ((v % 256) ∷ [])

pub append_inj :
    (xs xs' : Bytes) {ys ys' : Bytes}
    → length xs ≡ length xs'
    → xs ++ ys ≡ xs' ++ ys'
    → (xs ≡ xs') × (ys ≡ ys')
append_inj [] [] l e = (refl, e)
append_inj [] (x' ∷ xs') l e = absurd (omega arith)
append_inj (x ∷ xs) [] l e = absurd (omega arith)
append_inj (x ∷ xs) (x' ∷ xs') {ys = ys} {ys' = ys'} l e =
    let rest : xs ++ ys ≡ xs' ++ ys' = ground arith in
    let ih = append_inj xs xs' (omega arith) rest in (ground (arith, ih.0), ih.1)

pub length-to_be_bytes : (w v : ℕ) → length (to_be_bytes w v) ≡ w
unfolding to_be_bytes
length-to_be_bytes zero v = refl
length-to_be_bytes (suc w) v = omega (
  arith,
  length-append (to_be_bytes w (v / 256)) ((v % 256) ∷ []),
  length-to_be_bytes w (v / 256),
)

pub to_be_bytes_inj :
    (w a b : ℕ) → a < 256 ^ w → b < 256 ^ w → to_be_bytes w a ≡ to_be_bytes w b → a ≡ b
unfolding to_be_bytes
to_be_bytes_inj zero a b ha hb e = omega arith
to_be_bytes_inj (suc w) a b ha hb e =
    let l = length-to_be_bytes w (a / 256) ∙ sym (length-to_be_bytes w (b / 256)) in
    let (high, low) = append_inj (to_be_bytes w (a / 256)) (to_be_bytes w (b / 256)) l e in
    let ih = to_be_bytes_inj w (a / 256) (b / 256) (omega arith) (omega arith) high in
    let d : a % 256 ≡ b % 256 = ground arith in omega arith

-- The bytes of an ASCII text.
abbrev pub codes : String → Bytes
codes String.[] = []
codes (String.◌∷◌ c s) = code c ∷ codes s

-- `u64::abs_diff`.
abbrev pub abs_diff : ℕ → ℕ → ℕ
abs_diff a b = (a - b) + (b - a)

pub bytes_eq_or_ne : (a b : Bytes) → (a ≡ b) ⊎ (a ≢ b)
bytes_eq_or_ne a b = elim (Bool-cases (bytes_beq a b)) [
  | inl e ↦ inl ((bytes_beq_iff a b).0 e)
  | inr e ↦ inr (λ h. ground (arith, (bytes_beq_iff a b).1 h))
]

-- Two inputs that a hash function takes to one value.
abbrev pub Collision : (Bytes → Bytes) → Type 0
Collision hash = (a : Bytes) × (b : Bytes) × (a ≢ b) × (hash a ≡ hash b)

-- Equal hashes come from equal inputs, or show a collision.
pub hash_inj : (hash : Bytes → Bytes) (a b : Bytes) → hash a ≡ hash b → (a ≡ b) ⊎ Collision hash
hash_inj hash a b e = elim (bytes_eq_or_ne a b) [
  | inl same ↦ inl same
  | inr other ↦ inr (a, b, other, e)
]
