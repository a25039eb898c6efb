-- ===== src/Base/Text.antt =====
-- C strings and `std::string` as lists of bytes, and the functions of <cstring> and <cstdlib> that
-- the sources call on them.
use Prim.Native.Nat.{compare, Ordering}
use Prim.Native.Char.{code}
use Prim.Native.String.{String}
use cproject.Base.{
  ℕ, ◌+◌, ◌-◌, ◌*◌, ◌≡◌, ◌↔◌, refl, Bool, true, false, ◌&&◌, ◌||◌, Option, none, some, List, [],
  ◌∷◌, arith, leb, ◌==◌, if◌then◌else◌,
}
use cproject.Base.Int.{ℤ, pos, neg}

abbrev pub Text : Type 0
Text = List ℕ

-- The bytes of a literal (all are ASCII).
abbrev pub codes : String → Text
codes String.[] = []
codes (String.◌∷◌ c s) = code c ∷ codes s

-- What a function that takes `const char*` sees: the bytes up to the first NUL.
unfoldable pub c_str : Text → Text
c_str [] = []
c_str (c ∷ s) = let rest = c ∷ c_str s in if c == 0 then [] else rest

-- Byte order, as in `std::string::compare`.
unfoldable pub text_compare : Text → Text → Ordering
text_compare [] [] = Ordering.eq
text_compare [] (b ∷ t) = Ordering.lt
text_compare (a ∷ s) [] = Ordering.gt
text_compare (a ∷ s) (b ∷ t) =
    let rest = text_compare s t in
    elim (compare a b) [
      | Ordering.lt ↦ Ordering.lt
      | Ordering.gt ↦ Ordering.gt
      | Ordering.eq ↦ rest
    ]

pub text_compare_refl : (s : Text) → text_compare s s ≡ Ordering.eq
unfolding text_compare
text_compare_refl [] = refl
text_compare_refl (a ∷ s) = ground (arith, text_compare_refl s)

pub text_compare_eq : (s t : Text) → text_compare s t ≡ Ordering.eq → s ≡ t
unfolding text_compare
text_compare_eq [] [] e = refl
text_compare_eq [] (b ∷ t) e = cc
text_compare_eq (a ∷ s) [] e = cc
text_compare_eq (a ∷ s) (b ∷ t) e = ground (arith, text_compare_eq s t)

pub text_compare_flip :
    (s t : Text) → text_compare s t ≡ Ordering.gt → text_compare t s ≡ Ordering.lt
unfolding text_compare
text_compare_flip [] [] e = cc
text_compare_flip [] (b ∷ t) e = cc
text_compare_flip (a ∷ s) [] e = refl
text_compare_flip (a ∷ s) (b ∷ t) e = ground (arith, text_compare_flip s t)

pub text_compare_trans :
    (s t u : Text)
    → text_compare s t ≡ Ordering.lt
    → text_compare t u ≡ Ordering.lt
    → text_compare s u ≡ Ordering.lt
unfolding text_compare
text_compare_trans [] [] u e f = cc
text_compare_trans [] (b ∷ t) [] e f = cc
text_compare_trans [] (b ∷ t) (c ∷ u) e f = refl
text_compare_trans (a ∷ s) [] u e f = cc
text_compare_trans (a ∷ s) (b ∷ t) [] e f = cc
text_compare_trans (a ∷ s) (b ∷ t) (c ∷ u) e f = ground (arith, text_compare_trans s t u)

unfoldable pub text_eq : Text → Text → Bool
text_eq [] [] = true
text_eq [] (b ∷ t) = false
text_eq (a ∷ s) [] = false
text_eq (a ∷ s) (b ∷ t) = a == b && text_eq s t

pub text_eq_iff : (s t : Text) → (text_eq s t ≡ true) ↔ (s ≡ t)
unfolding text_eq
text_eq_iff [] [] = (λ _. refl, λ _. refl)
text_eq_iff [] (b ∷ t) = (λ e. cc, λ e. cc)
text_eq_iff (a ∷ s) [] = (λ e. cc, λ e. cc)
text_eq_iff (a ∷ s) (b ∷ t) =
    let ih = text_eq_iff s t in (λ e. ground (arith, ih.0), λ e. ground (arith, ih.1))

-- `strcmp(s, t) == 0`
unfoldable pub strcmp_eq : Text → Text → Bool
unfolding c_str text_eq
strcmp_eq s t = text_eq (c_str s) (c_str t)

pub strcmp_eq_refl : (s : Text) → strcmp_eq s s ≡ true
unfolding strcmp_eq
strcmp_eq_refl s = (text_eq_iff (c_str s) (c_str s)).1 refl

-- `strchr(s, c)`: the rest of the string from the first `c` on; none is NULL.
unfoldable pub strchr : Text → ℕ → Option Text
strchr [] c = none
strchr (b ∷ s) c = let rest = strchr s c in if b == c then some (b ∷ s) else rest

abbrev pub is_digit : ℕ → Bool
is_digit c = leb b'0' c && leb c b'9'

abbrev pub is_space : ℕ → Bool
is_space c = c == 32 || leb 9 c && leb c 13

-- `acc` and the leading digits behind it.
unfoldable pub digits_value : ℕ → Text → ℕ
digits_value acc [] = acc
digits_value acc (c ∷ s) =
    let rest = digits_value (acc * 10 + (c - b'0')) s in if is_digit c then rest else acc

abbrev atoi_sign : Text → ℤ
atoi_sign [] = pos 0
atoi_sign (c ∷ s) =
    if c == b'-'
    then neg (pos (digits_value 0 s))
    else if c == b'+'
    then pos (digits_value 0 s)
    else pos (digits_value 0 (c ∷ s))

-- `atoi`, for numbers that an int holds (C leaves the others undefined).
unfoldable pub atoi : Text → ℤ
unfolding digits_value
atoi [] = pos 0
atoi (c ∷ s) = let rest = atoi s in if is_space c then rest else atoi_sign (c ∷ s)
