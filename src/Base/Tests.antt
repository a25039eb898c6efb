-- ===== src/Base/Tests.antt =====
-- Boolean tests on the native numbers, the conditional, and the outcome of a call in C++.
use Prim.Native.Nat.{ℕ, compare, Ordering}
use mathlib.Core.Path.{◌≡◌, refl}
use mathlib.Core.Logic.{◌≢◌, ◌↔◌, ◌⊎◌, inl, inr}
use mathlib.Core.Bool.{Bool, true, false}
use mathlib.Core.Option.{Option, none, some}
use native.Mathlib.Omega.{arith}

abbrev pub ltb : ℕ → ℕ → Bool
ltb a b = elim (compare a b) [ Ordering.lt ↦ true | _ ↦ false ]

abbrev pub leb : ℕ → ℕ → Bool
leb a b = elim (compare a b) [ Ordering.gt ↦ false | _ ↦ true ]

infix 50 ◌==◌
abbrev pub ◌==◌ : ℕ → ℕ → Bool
a == b = elim (compare a b) [ Ordering.eq ↦ true | _ ↦ false ]

infix 1 if◌then◌else◌
abbrev pub if◌then◌else◌ {ℓ} : {A : Type ℓ} → Bool → A → A → A
if true then x else y = x
if false then x else y = y

pub ==_iff : (a b : ℕ) → ((a == b) ≡ true) ↔ (a ≡ b)
==_iff a b = ground arith

-- To split on a computed value and keep the equation.
pub Bool-cases : (b : Bool) → (b ≡ true) ⊎ (b ≡ false)
Bool-cases true = inl refl
Bool-cases false = inr refl

pub Option-cases {ℓ} : {A : Type ℓ} (o : Option A) → (o ≡ none) ⊎ ((a : A) × (o ≡ some a))
Option-cases none = inl refl
Option-cases (some a) = inr (a, refl)

-- A call returns, runs into undefined behaviour (`crash`, such as a read through a pointer that
-- is not valid), or is still in its loop when the model's fuel ends (`stuck`).
pub data Outcome {ℓ} (A : Type ℓ) : Type ℓ where
  done : A → Outcome A
  crash : Outcome A
  stuck : Outcome A

infixl 5 ◌>>=◌
abbrev pub ◌>>=◌ {ℓ κ} : {A : Type ℓ} {B : Type κ} → Outcome A → (A → Outcome B) → Outcome B
done a >>= f = f a
crash >>= f = crash
stuck >>= f = stuck

-- Inversion of a chain that returned.
pub >>=-eq-done {ℓ κ} :
    {A : Type ℓ} {B : Type κ} (m : Outcome A) (f : A → Outcome B) {b : B}
    → (m >>= f) ≡ done b
    → (a : A) × (m ≡ done a) × (f a ≡ done b)
>>=-eq-done (done a) f h = (a, refl, h)
>>=-eq-done crash f h = cc
>>=-eq-done stuck f h = cc

-- What holds of both branches holds of the conditional.
pub if-both {ℓ κ} :
    {A : Type ℓ} (P : A → Type κ) (b : Bool) {x y : A} → P x → P y → P (if b then x else y)
if-both P true p q = p
if-both P false p q = q

pub done-injective {ℓ} : {A : Type ℓ} {a b : A} → done a ≡ done b → a ≡ b
done-injective e = cc

-- What follows from either branch follows from the conditional.
pub if-elim {ℓ κ μ} :
    {A : Type ℓ} (Q : A → Type κ) {P : Type μ} (b : Bool) {x y : A}
    → (Q x → P)
    → (Q y → P)
    → Q (if b then x else y)
    → P
if-elim Q true f g q = f q
if-elim Q false f g q = g q

pub >>=-ne-stuck {ℓ κ} :
    {A : Type ℓ} {B : Type κ} (m : Outcome A) (f : A → Outcome B)
    → m ≢ stuck
    → ((a : A) → m ≡ done a → f a ≢ stuck)
    → (m >>= f) ≢ stuck
>>=-ne-stuck (done a) f p q = q a refl
>>=-ne-stuck crash f p q = λ e. cc
>>=-ne-stuck stuck f p q = absurd (p refl)

pub done-ne-stuck {ℓ} : {A : Type ℓ} (a : A) → done a ≢ stuck
done-ne-stuck a e = cc

pub crash-ne-stuck {ℓ} : {A : Type ℓ} → ◌≢◌ {A = Outcome A} crash stuck
crash-ne-stuck e = cc

pub done-cases {ℓ} : {A : Type ℓ} (m : Outcome A) → m ≢ crash → m ≢ stuck → (a : A) × (m ≡ done a)
done-cases (done a) p q = (a, refl)
done-cases crash p q = absurd (p refl)
done-cases stuck p q = absurd (q refl)

-- A test between a value and a run that returns: what holds of both holds of the answer.
pub if-done {ℓ κ} :
    {A : Type ℓ} (P : A → Type κ) (b : Bool) (x y : A) (m : Outcome A)
    → P x
    → m ≡ done y
    → P y
    → (a : A) × ((if b then done x else m) ≡ done a) × P a
if-done P true x y m at_x e at_y = (x, refl, at_x)
if-done P false x y m at_x e at_y = (y, e, at_y)

-- A property of a conditional, its test known in either branch.
pub if-known {ℓ κ} :
    {A : Type ℓ} (P : A → Type κ) (b : Bool) {x y : A}
    → (b ≡ true → P x)
    → (b ≡ false → P y)
    → P (if b then x else y)
if-known P true p q = p refl
if-known P false p q = q refl

pub if-true {ℓ} : {A : Type ℓ} (b : Bool) (x y : A) → b ≡ true → (if b then x else y) ≡ x
if-true true x y e = refl
if-true false x y e = cc

-- What relates both branches of two conditionals on one test relates the conditionals.
pub if-related {ℓ κ μ} :
    {A : Type ℓ} {B : Type κ} (R : A → B → Type μ) (b : Bool) {x y : A} {x' y' : B}
    → (b ≡ true → R x x')
    → (b ≡ false → R y y')
    → R (if b then x else y) (if b then x' else y')
if-related R true p q = p refl
if-related R false p q = q refl
