-- ===== src/MusicgoAlias/Parse/Range.antt =====
-- musicgo_alias/Parameters.cpp: the line of a request that states a range.
use cproject.Base.{
  ℕ, suc, ◌+◌, ◌<◌, ◌≡◌, refl, ap, ◌∙◌, Bool, true, false, ◌||◌, ◌==◌, if◌then◌else◌, some, List,
  [], ◌∷◌, ◌++◌, length, length-append, drop, All, All-append, append_assoc, arith, done, ◌>>=◌,
}
use cproject.Base.Int.{pos}
use cproject.Base.Map.{insert}
use cproject.Base.Text.{Text, codes, is_digit, is_space, text_eq}
use cproject.Rotator.Timer.{decimal}
use cproject.Rotator.Timer.RoundTrip.{IsDigit, decimal-IsDigit, length-decimal}
use cproject.MusicgoAlias.Memory.{
  Memory, among, count_while, sign_length, strtol_end, strstr, tokens, token_at, until,
}
use cproject.MusicgoAlias.Request.{
  Request, Field, fields, field_of, compare_ℤ, to_int, marks, set_range, set_field, set_found,
  set_all, get_file_data,
}
use cproject.MusicgoAlias.Parse.Pieces.{Free, tokens-piece}
use cproject.MusicgoAlias.Parse.Params.{no_keys_before, from_key}
use cproject.MusicgoAlias.Parse.Reading.{atoi-decimal}

-- A byte of a number or a minus sign.
abbrev pub IsNumeral : ℕ → Type 0
IsNumeral c = (is_digit c || c == 45) ≡ true

digit-IsNumeral : (s : Text) → All IsDigit s → All IsNumeral s
digit-IsNumeral [] h = tt
digit-IsNumeral (c ∷ s) h = (rw h.0 refl, digit-IsNumeral s h.1)

-- "a-b"
abbrev pub numbers : ℕ → ℕ → Text
numbers a b = decimal (suc a) a ++ (45 ∷ decimal (suc b) b)

pub numbers-All : (P : ℕ → Type 0) → ((c : ℕ) → IsNumeral c → P c) → (a b : ℕ) → All P (numbers a b)
numbers-All P h a b = at_each (numbers a b) (
    All-append IsNumeral (decimal (suc a) a) (45 ∷ decimal (suc b) b)
      (digit-IsNumeral (decimal (suc a) a) (decimal-IsDigit (suc a) a))
      (refl, digit-IsNumeral (decimal (suc b) b) (decimal-IsDigit (suc b) b)))
  where
    at_each : (s : Text) → All IsNumeral s → All P s
    at_each [] k = tt
    at_each (c ∷ s) k = (h c k.0, at_each s k.1)

count_while-digits :
    (s : Text) (e : ℕ) (t : Memory)
    → All IsDigit s
    → is_digit e ≡ false
    → count_while is_digit (s ++ (e ∷ t)) ≡ length s
unfolding count_while
count_while-digits [] e t h end = rw end refl
count_while-digits (c ∷ s) e t h end = rw h.0 (ap suc (count_while-digits s e t h.1 end))

digit_facts : (c : ℕ) → IsDigit c → (is_space c ≡ false) × ((c == b'-' || c == b'+') ≡ false)
digit_facts c h = (ground arith, ground arith)

if_false : (b : Bool) (x y : ℕ) → b ≡ false → (if b then x else y) ≡ y
if_false true x y e = cc
if_false false x y e = refl

some_digits : (n : ℕ) → (if suc n == 0 then 0 else 0 + 0 + suc n) ≡ suc n
some_digits n = ground arith

strtol_end-digits :
    (c : ℕ) (s : Text) (e : ℕ) (t : Memory)
    → All IsDigit (c ∷ s)
    → is_digit e ≡ false
    → strtol_end (c ∷ (s ++ (e ∷ t))) ≡ suc (length s)
unfolding strtol_end count_while
strtol_end-digits c s e t h end = ap (end_after m) no_space ∙ ap (end_with m 0) no_sign ∙ all_digits
  where
    m : Memory
    m = c ∷ (s ++ (e ∷ t))

    end_with : Memory → ℕ → ℕ → ℕ
    end_with m spaces sign =
        let digits = count_while is_digit (drop (spaces + sign) m) in
        if digits == 0 then 0 else spaces + sign + digits

    end_after : Memory → ℕ → ℕ
    end_after m spaces = end_with m spaces (sign_length (drop spaces m))

    no_space : count_while is_space m ≡ 0
    no_space =
        if_false (is_space c) (suc (count_while is_space (s ++ (e ∷ t)))) 0 (digit_facts c h.0).0

    no_sign : sign_length (drop 0 m) ≡ 0
    no_sign = if_false (c == b'-' || c == b'+') 1 0 (digit_facts c h.0).1

    all_digits : end_with m 0 0 ≡ suc (length s)
    all_digits =
        ap (λ d. if d == 0 then 0 else 0 + 0 + d) (count_while-digits (c ∷ s) e t h end)
        ∙ some_digits (length s)

-- The same for a number that is printed.
strtol_end-decimal :
    (s : Text) (e : ℕ) (t : Memory)
    → 0 < length s
    → All IsDigit s
    → is_digit e ≡ false
    → strtol_end (s ++ (e ∷ t)) ≡ length s
strtol_end-decimal [] e t some_text h end = absurd (omega arith)
strtol_end-decimal (c ∷ s) e t some_text h end = strtol_end-digits c s e t h end

drop-past : (s t : Text) (e : ℕ) → drop (length s + 1) (s ++ (e ∷ t)) ≡ t
drop-past [] t e = refl
drop-past (c ∷ s) t e =
    let count : suc (length s) + 1 ≡ suc (length s + 1) = omega arith in rw count (drop-past s t e)

not_empty : (s t : Text) (e : ℕ) → (length (s ++ (e ∷ t)) == 0) ≡ false
not_empty s t e = let k = length-append s (e ∷ t) in ground (arith, k)

-- An `int` holds them.
to_int-pos : (n : ℕ) → n < 2147483648 → to_int (pos n) ≡ pos n
unfolding to_int
to_int-pos n lt = ground arith

int_sum : (b : ℕ) → b < 2147483648 → (b + 0 == 2147483648) ≡ false
int_sum b lt = ground arith

-- Both numbers of a range are read.
set_range-numbers :
    (a b : ℕ) (t : Memory) (r : Request)
    → a < 2147483648
    → b < 2147483648
    → set_range (decimal (suc a) a ++ (45 ∷ (decimal (suc b) b ++ (0 ∷ t)))) r
      ≡ done (record r { ranges = insert compare_ℤ (pos a) b r.ranges })
unfolding set_range
set_range-numbers a b t r fits_a fits_b =
    let da : Text = decimal (suc a) a in
    let rest : Memory = decimal (suc b) b ++ (0 ∷ t) in
    let ends =
      strtol_end-decimal da 45 rest (length-decimal a a) (decimal-IsDigit (suc a) a) refl in
    let same : b + 0 ≡ b = omega arith in
    rw
      (
        ends,
        drop-past da rest 45,
        not_empty (decimal (suc b) b) t 0,
        atoi-decimal a 45 rest refl,
        atoi-decimal b 0 t refl,
        to_int-pos a fits_a,
        to_int-pos b fits_b,
        int_sum b fits_b,
        same,
      )
      refl

-- "Range: bytes=a-b"
abbrev pub range_line : ℕ → ℕ → Text
range_line a b = codes "Range: bytes=" ++ numbers a b

numeral_facts : (c : ℕ) → IsNumeral c → ((c == 61) ≡ false) × ((c == 0 || among marks c) ≡ false)
unfolding among
numeral_facts c h = (ground arith, ground arith)

field_of-range :
    (a b : ℕ) (t : Memory)
    → field_of fields (codes "bytes=" ++ (numbers a b ++ (0 ∷ t)))
      ≡ some (Field.bytes, numbers a b ++ (0 ∷ t))
unfolding field_of strstr text_eq
field_of-range a b t =
    let lacks = numbers-All (λ c. (c == 61) ≡ false) (λ c k. (numeral_facts c k).0) a b in
    from_key 6 (codes "bytes=" ++ (numbers a b ++ (0 ∷ t))) _
      (no_keys_before 6 (numbers a b) t lacks) refl refl

-- The line is read as the range.
pub get_file_data-range :
    (a b : ℕ) (t : Memory) (r : Request)
    → a < 2147483648
    → b < 2147483648
    → get_file_data (range_line a b ++ (0 ∷ t)) r
      ≡ done (record r { ranges = insert compare_ℤ (pos a) b r.ranges })
unfolding get_file_data tokens set_all field_of strstr text_eq token_at until among set_found
    set_field
get_file_data-range a b t r fits_a fits_b =
    ap (λ (ts : List Memory). set_all ts r) piece
    ∙ rw (field_of-range a b t) (
        ap (λ m. set_range m r >>= λ q. done q)
          (append_assoc (decimal (suc a) a) (45 ∷ decimal (suc b) b) (0 ∷ t))
        ∙ rw (set_range-numbers a b t r fits_a fits_b) refl)
  where
    free : Free marks (numbers a b)
    free = numbers-All (λ c. (c == 0 || among marks c) ≡ false) (λ c k. (numeral_facts c k).1) a b

    piece :
        tokens marks false (codes "bytes=" ++ (numbers a b ++ (0 ∷ t)))
        ≡ (codes "bytes=" ++ (numbers a b ++ (0 ∷ t))) ∷ []
    piece =
        tokens-piece (codes "bytes=" ++ numbers a b) t 0
          (refl, (refl, (refl, (refl, (refl, (refl, free)))))) (omega arith) refl
