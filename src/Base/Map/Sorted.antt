-- ===== src/Base/Map/Sorted.antt =====
-- The maps of `Base.Map` have each key once, in increasing order.
use Prim.Native.Nat.{Ordering}
use cproject.Base.{◌≡◌, ◌≢◌, refl, sym, subst, List, [], ◌∷◌, All, arith}
use cproject.Base.Text.{
  text_compare, text_compare_eq, text_compare_refl, text_compare_flip, text_compare_trans,
}
use cproject.Base.Map.{insert, erase}
use cproject.Base.Map.Laws.{erase-All, insert-entries}

-- A strict order of the keys, that tells every two of them apart.
pub record IsOrder {ℓ} {K : Type ℓ} (cmp : K → K → Ordering) : Type ℓ where
  pub same : (j k : K) → cmp j k ≡ Ordering.eq → j ≡ k
  pub self : (k : K) → cmp k k ≡ Ordering.eq
  pub flip : (j k : K) → cmp j k ≡ Ordering.gt → cmp k j ≡ Ordering.lt
  pub trans : (i j k : K) → cmp i j ≡ Ordering.lt → cmp j k ≡ Ordering.lt → cmp i k ≡ Ordering.lt

module _ {ℓ κ} {K : Type ℓ} {V : Type κ} (cmp : K → K → Ordering) where
  abbrev pub Above : K → List (K × V) → Type 0
  Above k m = All (λ (e : K × V). cmp k e.0 ≡ Ordering.lt) m

  abbrev pub IsSorted : List (K × V) → Type 0
  IsSorted [] = Unit {0}
  IsSorted ((k, v) ∷ m) = Above k m × IsSorted m

module _ {ℓ} {K : Type ℓ} (cmp : K → K → Ordering) (o : IsOrder cmp) where
  lt-ne : (j k : K) → cmp k j ≡ Ordering.lt → j ≢ k
  lt-ne j k lt e =
      let again : cmp k k ≡ Ordering.lt = subst (λ i. cmp k i ≡ Ordering.lt) e lt in
      let self = o.self k in cc

module _ {ℓ κ} {K : Type ℓ} {V : Type κ} (cmp : K → K → Ordering) (o : IsOrder cmp) where
  Above-trans : (i j : K) (m : List (K × V)) → cmp i j ≡ Ordering.lt → Above cmp j m → Above cmp i m
  Above-trans i j [] e h = tt
  Above-trans i j ((k, v) ∷ m) e h = (o.trans i j k e h.0, Above-trans i j m e h.1)

  pub insert-IsSorted :
      (k : K) (v : V) (m : List (K × V)) → IsSorted cmp m → IsSorted cmp (insert cmp k v m)
  unfolding insert
  insert-IsSorted k v [] h = (tt, tt)
  insert-IsSorted k v ((j, w) ∷ m) h = ground (
    arith,
    o.same k j,
    o.flip k j,
    Above-trans k j m,
    insert-IsSorted k v m h.1,
    insert-entries (λ (e : K × V). cmp j e.0 ≡ Ordering.lt) cmp k v m h.0,
  )

  pub erase-IsSorted : (k : K) (m : List (K × V)) → IsSorted cmp m → IsSorted cmp (erase cmp k m)
  unfolding erase
  erase-IsSorted k [] h = tt
  erase-IsSorted k ((j, w) ∷ m) h = ground (
    arith,
    erase-IsSorted k m h.1,
    erase-All (λ (e : K × V). cmp j e.0 ≡ Ordering.lt) cmp k m h.0,
  )

  -- A key below all others is not among them.
  Above-ne {μ} :
      (Q : V → Type μ) (k : K) (m : List (K × V))
      → Above cmp k m
      → All (λ (e : K × V). e.0 ≡ k → Q e.1) m
  Above-ne Q k [] h = tt
  Above-ne Q k ((j, w) ∷ m) h = (λ e. absurd (lt-ne cmp o j k h.0 e), Above-ne Q k m h.1)

  -- Behind an insertion the key has the new value, and no other.
  pub insert-only {μ} :
      (Q : V → Type μ) (k : K) (v : V) (m : List (K × V))
      → IsSorted cmp m
      → Q v
      → All (λ (e : K × V). e.0 ≡ k → Q e.1) (insert cmp k v m)
  unfolding insert
  insert-only Q k v [] h q = ((λ _. q), tt)
  insert-only Q k v ((j, w) ∷ m) h q = by_order (insert-only Q k v m h.1 q) (cmp k j) refl
    where
      by_order :
          All (λ (e : K × V). e.0 ≡ k → Q e.1) (insert cmp k v m)
          → (x : Ordering) → cmp k j ≡ x
          → All
              (λ (e : K × V). e.0 ≡ k → Q e.1)
              (elim x [
                | Ordering.lt ↦ (k, v) ∷ (j, w) ∷ m
                | Ordering.eq ↦ (k, v) ∷ m
                | Ordering.gt ↦ (j, w) ∷ insert cmp k v m
              ])
      by_order rest Ordering.lt e =
          ((λ _. q), Above-ne Q k ((j, w) ∷ m) (e, Above-trans k j m e h.0))
      by_order rest Ordering.eq e =
          ((λ _. q), Above-ne Q k m (subst (λ i. Above cmp i m) (sym (o.same k j e)) h.0))
      by_order rest Ordering.gt e = ((λ e'. absurd (lt-ne cmp o k j (o.flip k j e) (sym e'))), rest)

pub text_compare-IsOrder : IsOrder text_compare
text_compare-IsOrder = record {
  same = text_compare_eq;
  self = text_compare_refl;
  flip = text_compare_flip;
  trans = text_compare_trans;
}
