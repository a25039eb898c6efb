-- ===== src/Base/Map/Laws.antt =====
-- Laws of the maps of `Base.Map` that hold for every order of the keys.
use Prim.Native.Nat.{Ordering}
use cproject.Base.{◌≡◌, ◌≢◌, some, List, [], ◌∷◌, All, arith}
use cproject.Base.Map.{lookup, insert, erase}

module _ {ℓ κ μ} {K : Type ℓ} {V : Type κ} (P : V → Type μ) (cmp : K → K → Ordering) where
  -- What holds of every value holds of the one that is found.
  pub lookup-All :
      (k : K) (m : List (K × V)) (v : V)
      → All (λ (e : K × V). P e.1) m
      → lookup cmp k m ≡ some v
      → P v
  unfolding lookup
  lookup-All k [] v h e = cc
  lookup-All k ((j, w) ∷ m) v h e = ground (arith, lookup-All k m v h.1)

  pub insert-All :
      (k : K) (v : V) (m : List (K × V))
      → All (λ (e : K × V). P e.1) m
      → P v
      → All (λ (e : K × V). P e.1) (insert cmp k v m)
  unfolding insert
  insert-All k v [] h p = (p, tt)
  insert-All k v ((j, w) ∷ m) h p = ground (arith, insert-All k v m h.1 p)

pub lookup-insert_self {ℓ κ} :
    {K : Type ℓ} {V : Type κ} (cmp : K → K → Ordering) (k : K) (v : V) (m : List (K × V))
    → cmp k k ≡ Ordering.eq
    → lookup cmp k (insert cmp k v m) ≡ some v
unfolding lookup insert
lookup-insert_self cmp k v [] e = rw e
lookup-insert_self cmp k v ((j, w) ∷ m) e = ground (arith, lookup-insert_self cmp k v m e)

-- Where the order tells every two keys apart, other keys keep their values.
module _ {ℓ κ} {K : Type ℓ} {V : Type κ} (cmp : K → K → Ordering)
    (same_key : (j k : K) → cmp j k ≡ Ordering.eq → j ≡ k) where
  pub lookup-insert_ne :
      (j k : K) (v : V) (m : List (K × V))
      → cmp j k ≢ Ordering.eq
      → lookup cmp j (insert cmp k v m) ≡ lookup cmp j m
  unfolding lookup insert
  lookup-insert_ne j k v [] ne = ground arith
  lookup-insert_ne j k v ((i, w) ∷ m) ne = ground (arith, same_key k i, lookup-insert_ne j k v m ne)

  pub lookup-erase_ne :
      (j k : K) (m : List (K × V))
      → cmp j k ≢ Ordering.eq
      → lookup cmp j (erase cmp k m) ≡ lookup cmp j m
  unfolding lookup erase
  lookup-erase_ne j k [] ne = ground arith
  lookup-erase_ne j k ((i, w) ∷ m) ne = ground (arith, same_key k i, lookup-erase_ne j k m ne)

-- What holds of every entry holds of those that are left, with one that is added, and of the one found.
module _ {ℓ κ μ} {K : Type ℓ} {V : Type κ} (P : K × V → Type μ) (cmp : K → K → Ordering) where
  pub erase-All : (k : K) (m : List (K × V)) → All P m → All P (erase cmp k m)
  unfolding erase
  erase-All k [] h = tt
  erase-All k ((j, v) ∷ m) h = ground (arith, erase-All k m h.1)

  pub insert-entries :
      (k : K) (v : V) (m : List (K × V)) → All P m → P (k, v) → All P (insert cmp k v m)
  unfolding insert
  insert-entries k v [] h p = (p, tt)
  insert-entries k v ((j, w) ∷ m) h p = ground (arith, insert-entries k v m h.1 p)

  pub lookup-entries :
      ((j k : K) → cmp j k ≡ Ordering.eq → j ≡ k)
      → (k : K) (m : List (K × V)) (v : V) → All P m
      → lookup cmp k m ≡ some v
      → P (k, v)
  unfolding lookup
  lookup-entries same_key k [] v h e = cc
  lookup-entries same_key k ((j, w) ∷ m) v h e =
      ground (arith, same_key k j, lookup-entries same_key k m v h.1)
