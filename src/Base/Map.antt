-- ===== src/Base/Map.antt =====
-- `std::map`: an association list in the order of its keys. The order is an argument, so the same
-- text serves ascending and descending (`rbegin`) views.
pub mod Laws
pub mod Sorted
use Prim.Native.Nat.{Ordering}
use cproject.Base.{Bool, true, false, Option, none, some, List, [], ◌∷◌}

module _ {ℓ κ} {K : Type ℓ} {V : Type κ} (cmp : K → K → Ordering) where
  -- `m.find(k)`, read through the iterator; `none` is `m.end()`.
  unfoldable pub lookup : K → List (K × V) → Option V
  lookup k [] = none
  lookup k ((j, v) ∷ m) =
      let rest = lookup k m in elim (cmp k j) [ Ordering.eq ↦ some v | _ ↦ rest ]

  -- `m[k] = v`
  unfoldable pub insert : K → V → List (K × V) → List (K × V)
  insert k v [] = (k, v) ∷ []
  insert k v ((j, w) ∷ m) =
      let rest = insert k v m in
      elim (cmp k j) [
        | Ordering.lt ↦ (k, v) ∷ (j, w) ∷ m
        | Ordering.eq ↦ (k, v) ∷ m
        | Ordering.gt ↦ (j, w) ∷ rest
      ]

  -- `m.erase(k)`; a map has a key at most once.
  unfoldable pub erase : K → List (K × V) → List (K × V)
  erase k [] = []
  erase k ((j, v) ∷ m) =
      let rest = erase k m in elim (cmp k j) [ Ordering.eq ↦ rest | _ ↦ (j, v) ∷ rest ]

  -- The first entry above `k`: `m.upper_bound(k)`.
  unfoldable pub upper_bound : K → List (K × V) → Option (K × V)
  upper_bound k [] = none
  upper_bound k ((j, v) ∷ m) =
      let rest = upper_bound k m in elim (cmp k j) [ Ordering.lt ↦ some (j, v) | _ ↦ rest ]

-- `m.begin()`
abbrev pub begin {ℓ} : {A : Type ℓ} → List A → Option A
begin [] = none
begin (x ∷ xs) = some x

-- `m.count(k)`
abbrev pub is_some {ℓ} : {A : Type ℓ} → Option A → Bool
is_some none = false
is_some (some a) = true
