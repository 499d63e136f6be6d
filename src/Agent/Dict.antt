-- ===== src/Agent/Dict.antt =====
-- `BTreeMap` with byte strings as keys: its entries, in the order of the keys.
use z_bacs.Prelude.{
  Bool, true, false, ◌≡◌, refl, Option, none, some, List, [], ◌∷◌, map, ltb, ◌==◌, if◌then◌else◌,
  arith,
}
use z_bacs.Prelude.Bytes.{Bytes, bytes_beq, bytes_beq_iff}

abbrev pub Dict : Type 0 → Type 0
Dict V = List (Bytes × V)

-- `Ord` of strings.
unfoldable pub bytes_ltb : Bytes → Bytes → Bool
bytes_ltb [] [] = false
bytes_ltb [] (y ∷ ys) = true
bytes_ltb (x ∷ xs) [] = false
bytes_ltb (x ∷ xs) (y ∷ ys) = if ltb x y then true else (if x == y then bytes_ltb xs ys else false)

module _ {V : Type 0} where
  unfoldable pub get : Dict V → Bytes → Option V
  get [] j = none
  get (e ∷ d) j = if bytes_beq e.0 j then some e.1 else get d j

  unfoldable pub insert : Bytes → V → Dict V → Dict V
  insert k v [] = (k, v) ∷ []
  insert k v (e ∷ d) =
      let rest = insert k v d in
      if bytes_beq e.0 k then (k, v) ∷ d else (if bytes_ltb k e.0 then (k, v) ∷ e ∷ d else e ∷ rest)

  -- An assignment through `get_mut`.
  unfoldable pub assign : Bytes → V → Dict V → Dict V
  assign k v [] = []
  assign k v (e ∷ d) = if bytes_beq e.0 k then (e.0, v) ∷ d else e ∷ assign k v d

  abbrev pub values : Dict V → List V
  values = map (λ e. e.1)

  pub get-insert :
      (k j : Bytes) (v : V) (d : Dict V)
      → get (insert k v d) j ≡ (if bytes_beq k j then some v else get d j)
  unfolding get insert
  get-insert k j v [] = refl
  get-insert k j v (e ∷ d) =
      ground
        (arith, get-insert k j v d, bytes_beq_iff e.0 k, bytes_beq_iff e.0 j, bytes_beq_iff k j)

  pub get-assign :
      (k j : Bytes) (v w : V) (d : Dict V)
      → get d k ≡ some w
      → get (assign k v d) j ≡ (if bytes_beq k j then some v else get d j)
  unfolding get assign
  get-assign k j v w [] h = cc
  get-assign k j v w (e ∷ d) h =
      ground
        (arith, get-assign k j v w d, bytes_beq_iff e.0 k, bytes_beq_iff e.0 j, bytes_beq_iff k j)
