-- ===== src/Prelude/Maps.antt =====
-- `HashMap` as a function from keys to optional values. Keys are compared by an instance.
use Prim.Native.Nat.{ℕ}
use mathlib.Core.Path.{◌≡◌, refl}
use mathlib.Core.Logic.{◌↔◌, inl, inr}
use mathlib.Core.Bool.{Bool, true}
use mathlib.Core.Option.{Option, none, some}
use z_bacs.Prelude.Tests.{if◌then◌else◌, ◌==◌, ==_iff, Bool-cases}

pub record Eq {ℓ} (A : Type ℓ) : Type ℓ where
  pub beq : A → A → Bool
  pub beq_iff : (a b : A) → (beq a b ≡ true) ↔ (a ≡ b)

instance abbrev pub nat_eq : Eq ℕ
nat_eq = record { beq = ◌==◌; beq_iff = ==_iff }

abbrev pub Map {ℓ κ} : Type ℓ → Type κ → Type (ℓ ⊔ κ)
Map K V = K → Option V

abbrev pub empty {ℓ κ} : {K : Type ℓ} {V : Type κ} → Map K V
empty k = none

-- `insert`.
abbrev pub put {ℓ κ} : {K : Type ℓ} {V : Type κ} ⦃e : Eq K⦄ → Map K V → K → V → Map K V
put ⦃e⦄ m k v j = if e.beq k j then some v else m j

-- `retain`, which may also rewrite the values that it keeps.
abbrev pub retain {ℓ κ} : {K : Type ℓ} {V : Type κ} → (V → Option V) → Map K V → Map K V
retain f m k = elim (m k) [ none ↦ none | some v ↦ f v ]

-- `entry(k).or_default()`.
abbrev pub entry_or {ℓ κ} : {K : Type ℓ} {V : Type κ} → Map K V → K → V → V
entry_or m k d = elim (m k) [ none ↦ d | some v ↦ v ]

module _ {ℓ} {K : Type ℓ} ⦃e : Eq K⦄ where
  pub beq_self : (k : K) → e.beq k k ≡ true
  beq_self k = (e.beq_iff k k).1 refl

  pub entry_or-put {κ} :
      {V : Type κ} (m : Map K V) (k j : K) (v d : V)
      → entry_or (put m k v) j d ≡ (if e.beq k j then v else entry_or m j d)
  entry_or-put m k j v d = elim (Bool-cases (e.beq k j)) [
    | inl h ↦ rw (h, entry_or) refl
    | inr h ↦ rw (h, entry_or) refl
  ]
