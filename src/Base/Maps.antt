-- ===== src/Base/Maps.antt =====
-- `std::unordered_map` keyed by an address, as an association list. The order of the entries stands
-- for the unspecified order of iteration.
use Prim.Native.Nat.{ℕ}
use mathlib.Core.Path.{◌≡◌, refl}
use mathlib.Core.Option.{Option, none, some}
use mathlib.Core.List.{List, [], ◌∷◌}
use native.Mathlib.Omega.{arith}
use brix.Base.Tests.{◌==◌, if◌then◌else◌}

abbrev pub Dict {ℓ} : Type ℓ → Type ℓ
Dict V = List (ℕ × V)

module _ {ℓ} {V : Type ℓ} where
  -- `at`, which throws where this is `none`
  unfoldable pub lookup : ℕ → Dict V → Option V
  lookup k [] = none
  lookup k (e ∷ m) = if k == e.0 then some e.1 else lookup k m

  -- `insert`, which leaves an entry that is there alone
  unfoldable pub insert : ℕ → V → Dict V → Dict V
  unfolding lookup
  insert k v m = elim (lookup k m) [ none ↦ (k, v) ∷ m | some _ ↦ m ]

  -- a write through a reference to the entry
  unfoldable pub assign : ℕ → V → Dict V → Dict V
  assign k v [] = []
  assign k v (e ∷ m) = if k == e.0 then (k, v) ∷ m else e ∷ assign k v m

  -- `erase`
  unfoldable pub erase : ℕ → Dict V → Dict V
  erase k [] = []
  erase k (e ∷ m) = if k == e.0 then m else e ∷ erase k m

  -- Every key stands once.
  abbrev pub IsMap : Dict V → Type ℓ
  IsMap [] = Unit
  IsMap (e ∷ m) = (lookup e.0 m ≡ none) × IsMap m

  pub lookup-assign :
      (j k : ℕ) (v : V) (m : Dict V)
      → lookup j (assign k v m)
        ≡ (if k == j then elim (lookup k m) [ none ↦ none | some _ ↦ some v ] else lookup j m)
  unfolding lookup assign
  lookup-assign j k v [] = ground arith
  lookup-assign j k v (e ∷ m) = ground (arith, lookup-assign j k v m)

  pub lookup-insert :
      (j k : ℕ) (v : V) (m : Dict V)
      → lookup j (insert k v m)
        ≡ (if k == j then elim (lookup k m) [ none ↦ some v | some w ↦ some w ] else lookup j m)
  unfolding lookup insert
  lookup-insert j k v m = ground arith

  pub lookup-erase :
      (j k : ℕ) (m : Dict V)
      → IsMap m
      → lookup j (erase k m) ≡ (if k == j then none else lookup j m)
  unfolding lookup erase
  lookup-erase j k [] h = ground arith
  lookup-erase j k (e ∷ m) h = ground (arith, lookup-erase j k m h.1)

  pub assign-assign : (k : ℕ) (v w : V) (m : Dict V) → assign k w (assign k v m) ≡ assign k w m
  unfolding assign
  assign-assign k v w [] = refl
  assign-assign k v w (e ∷ m) = ground (arith, assign-assign k v w m)

  -- The law of a write to an entry that is there.
  pub lookup-assign_known :
      (j k : ℕ) (v : V) {w : V} (m : Dict V)
      → lookup k m ≡ some w
      → lookup j (assign k v m) ≡ (if k == j then some v else lookup j m)
  lookup-assign_known j k v m h = ground (arith, lookup-assign j k v m)

  pub assign-IsMap : (k : ℕ) (v : V) (m : Dict V) → IsMap m → IsMap (assign k v m)
  unfolding assign
  assign-IsMap k v [] h = tt
  assign-IsMap k v (e ∷ m) h = ground (arith, assign-IsMap k v m h.1, lookup-assign e.0 k v m)

  pub insert-IsMap : (k : ℕ) (v : V) (m : Dict V) → IsMap m → IsMap (insert k v m)
  unfolding insert
  insert-IsMap k v m h = ground arith

  pub erase-IsMap : (k : ℕ) (m : Dict V) → IsMap m → IsMap (erase k m)
  unfolding erase
  erase-IsMap k [] h = tt
  erase-IsMap k (e ∷ m) h = ground (arith, erase-IsMap k m h.1, lookup-erase e.0 k m h.1)
