-- ===== src/Rotator/Timer/RoundTrip.antt =====
-- rotator/obj_timer.h: what `convert_seconds_to_char` prints, `get_seconds` reads.
use cproject.Base.{
  ℕ, zero, suc, ◌+◌, ◌*◌, ◌/◌, ◌%◌, ◌≤◌, ◌<◌, ◌≡◌, refl, sym, ap, ◌∙◌, true, ◌==◌, ltb, leb,
  if◌then◌else◌, some, [], ◌∷◌, ◌++◌, length, length-append, All, All-append, arith, Outcome, done,
  crash, ◌>>=◌, if-known, if-related, ◌&&◌, append_assoc,
}
use cproject.Base.Below.{passes_below, passes_at}
use cproject.Base.Int.{ℤ, pos, ◌+ℤ◌, ◌*ℤ◌}
use cproject.Base.Text.{Text, strchr, is_digit, digits_value, atoi}
use cproject.Rotator.Timer.{
  after_colon, is_zero, seconds_of, get_seconds, decimal, two_digits, clock_text,
  convert_seconds_to_char,
}

abbrev pub IsDigit : ℕ → Type 0
IsDigit c = is_digit c ≡ true

digit : (n : ℕ) → n < 10 → IsDigit (b'0' + n)
digit n lt = ground arith

pub decimal-IsDigit : (fuel n : ℕ) → All IsDigit (decimal fuel n)
unfolding decimal
decimal-IsDigit zero n = tt
decimal-IsDigit (suc fuel) n =
    if-known (All IsDigit) (ltb n 10) (λ e. (digit n (ground arith), tt))
      (λ e.
        All-append IsDigit (decimal fuel (n / 10)) ((b'0' + n % 10) ∷ [])
          (decimal-IsDigit fuel (n / 10)) (digit (n % 10) (omega arith), tt))

digits_value-step :
    (n m : ℕ) (s : Text) → m < 10 → digits_value n ((b'0' + m) ∷ s) ≡ digits_value (n * 10 + m) s
unfolding digits_value
digits_value-step n m s lt = ground (arith, digit m lt)

first_digit : (n : ℕ) (s : Text) → n < 10 → digits_value 0 ((b'0' + n) ∷ s) ≡ digits_value n s
first_digit n s lt =
    let whole : 0 * 10 + n ≡ n = omega arith in
    digits_value-step 0 n s lt ∙ ap (λ m. digits_value m s) whole

last_digit :
    (front : Text) (n : ℕ) (s : Text)
    → ((t : Text) → digits_value 0 (front ++ t) ≡ digits_value (n / 10) t)
    → digits_value 0 ((front ++ ((b'0' + n % 10) ∷ [])) ++ s) ≡ digits_value n s
last_digit front n s before =
    let whole : n / 10 * 10 + n % 10 ≡ n = omega arith in
    ap (digits_value 0) (append_assoc front ((b'0' + n % 10) ∷ []) s)
    ∙ (before ((b'0' + n % 10) ∷ s)
        ∙ (digits_value-step (n / 10) (n % 10) s (omega arith) ∙ ap (λ m. digits_value m s) whole))

pub digits_value-decimal :
    (fuel n : ℕ) (s : Text) → n < fuel → digits_value 0 (decimal fuel n ++ s) ≡ digits_value n s
unfolding decimal
digits_value-decimal zero n s enough = absurd (omega arith)
digits_value-decimal (suc fuel) n s enough =
    if-known (λ t. digits_value 0 (t ++ s) ≡ digits_value n s) (ltb n 10)
      (λ e. first_digit n s (ground arith))
      (λ e.
        let more : 10 ≤ n = ground arith in
        last_digit (decimal fuel (n / 10)) n s
          (λ t. digits_value-decimal fuel (n / 10) t (omega arith)))

two_digits-IsDigit : (n : ℕ) → All IsDigit (two_digits n)
unfolding two_digits
two_digits-IsDigit n =
    if-known (All IsDigit) (ltb n 10) (λ e. (refl, (digit n (ground arith), tt)))
      (λ e. decimal-IsDigit (suc n) n)

digits_value-two_digits : (n : ℕ) (s : Text) → digits_value 0 (two_digits n ++ s) ≡ digits_value n s
unfolding two_digits
digits_value-two_digits n s =
    if-known (λ t. digits_value 0 (t ++ s) ≡ digits_value n s) (ltb n 10)
      (λ e. first_digit 0 ((b'0' + n) ∷ s) (omega arith) ∙ first_digit n s (ground arith))
      (λ e. digits_value-decimal (suc n) n s (omega arith))

pub length-decimal : (fuel n : ℕ) → 0 < length (decimal (suc fuel) n)
unfolding decimal
length-decimal fuel n = ground (arith, length-append (decimal fuel (n / 10)) ((b'0' + n % 10) ∷ []))

length-two_digits : (n : ℕ) → 0 < length (two_digits n)
unfolding two_digits
length-two_digits n = ground (arith, length-decimal n n)

-- A text that starts with a digit is read from there on.
pub atoi_digits :
    (xs s : Text) → 0 < length xs → All IsDigit xs → atoi (xs ++ s) ≡ pos (digits_value 0 (xs ++ s))
unfolding atoi
atoi_digits [] s le all = absurd (omega arith)
atoi_digits (c ∷ xs) s le (d, all) = ground arith

after_colon_digits : (xs s : Text) → All IsDigit xs → after_colon (xs ++ (b':' ∷ s)) ≡ done s
unfolding after_colon strchr
after_colon_digits [] s all = refl
after_colon_digits (c ∷ xs) s (d, all) = ground (arith, after_colon_digits xs s all)

value_at_colon : (n : ℕ) (s : Text) → digits_value n (b':' ∷ s) ≡ n
unfolding digits_value
value_at_colon n s = refl

value_at_end : (n : ℕ) → digits_value n [] ≡ n
unfolding digits_value
value_at_end n = refl

field : (n : ℕ) (s : Text) → digits_value n s ≡ n → atoi (two_digits n ++ s) ≡ pos n
field n s e =
    atoi_digits (two_digits n) s (length-two_digits n) (two_digits-IsDigit n)
    ∙ ap pos (digits_value-two_digits n s ∙ e)

append_nil : (xs : Text) → xs ++ [] ≡ xs
append_nil [] = refl
append_nil (x ∷ xs) = ap (λ t. x ∷ t) (append_nil xs)

pos-* : (a b : ℕ) → pos a *ℤ pos b ≡ pos (a * b)
unfolding ◌*ℤ◌
pos-* a b =
    if-known (λ x. x ≡ pos (a * b)) (leb (a * 0 + 0 * b) (a * b + 0 * 0))
      (λ e. ap pos (grind arith)) (λ e. absurd (grind arith))

pos-+ : (a b : ℕ) → pos a +ℤ pos b ≡ pos (a + b)
unfolding ◌+ℤ◌
pos-+ a b = ground arith

some_value : (default : ℤ) (n : ℕ) → 0 < n → (if is_zero (pos n) then default else pos n) ≡ pos n
unfolding is_zero
some_value default n lt = ground arith

-- An `int` holds all of the sums if it holds the last one.
seconds_of-pos :
    (h n k : ℕ)
    → seconds_of (pos h) (pos n) (pos k) ≡ (
        if ltb (h * 3600 + n * 60 + k) 2147483648
        then done (pos (h * 3600 + n * 60 + k))
        else crash)
unfolding seconds_of
seconds_of-pos h n k =
    rw (pos-* h 3600, pos-* n 60, pos-+ (h * 3600) (n * 60), pos-+ (h * 3600 + n * 60) k)
      (by_last (h * 3600) (n * 60) k)
  where
    by_last :
        (a b c : ℕ)
        → (if ltb a 2147483648
              && ltb b 2147483648
              && ltb (a + b) 2147483648
              && ltb (a + b + c) 2147483648
            then done (pos (a + b + c))
            else crash)
          ≡ (if ltb (a + b + c) 2147483648 then done (pos (a + b + c)) else crash)
    by_last a b c = ground arith

-- What the two tests for colons and the three numbers give.
get_seconds_fields :
    (default : ℤ) (s m e : Text) (h n k : ℕ)
    → after_colon s ≡ done m
    → after_colon m ≡ done e
    → atoi s ≡ pos h
    → atoi m ≡ pos n
    → atoi e ≡ pos k
    → 0 < h * 3600 + n * 60 + k
    → get_seconds default (some s) ≡ (
        if ltb (h * 3600 + n * 60 + k) 2147483648
        then done (pos (h * 3600 + n * 60 + k))
        else crash)
unfolding get_seconds
get_seconds_fields default s m e h n k p q a b c some_time =
    rw (p, q, a, b, c, seconds_of-pos h n k) (kept (h * 3600 + n * 60 + k) some_time)
  where
    kept :
        (v : ℕ)
        → 0 < v
        → ((if ltb v 2147483648 then done (pos v) else crash) >>= λ x.
            done (if is_zero x then default else x))
          ≡ (if ltb v 2147483648 then done (pos v) else crash)
    kept v some_value_in =
        if-related (λ (x y : Outcome ℤ). (x >>= λ v. done (if is_zero v then default else v)) ≡ y)
          (ltb v 2147483648) (λ _. ap done (some_value default v some_value_in)) (λ _. refl)

two_digits_table : passes_below (λ n. length (two_digits n) == 2) 100 ≡ true
unfolding passes_below two_digits
two_digits_table = refl

length-two_digits_2 : (n : ℕ) → n < 100 → length (two_digits n) ≡ 2
length-two_digits_2 n lt =
    let checked = passes_at (λ n. length (two_digits n) == 2) 100 n lt two_digits_table in
    ground arith

length-clock_text : (t : ℕ) → t < 360000 → length (clock_text t) ≡ 8
unfolding clock_text
length-clock_text t lt =
    let h : Text = two_digits (t / 3600) in
    let m : Text = two_digits (t / 60 % 60) in
    let s : Text = two_digits (t % 60) in
    omega (
      arith,
      length-append h (b':' ∷ (m ++ (b':' ∷ s))),
      length-append m (b':' ∷ s),
      length-two_digits_2 (t / 3600) (omega arith),
      length-two_digits_2 (t / 60 % 60) (omega arith),
      length-two_digits_2 (t % 60) (omega arith),
    )

get_seconds-clock_text :
    (default : ℤ) (t : ℕ)
    → 0 < t
    → t < 360000
    → get_seconds default (some (clock_text t)) ≡ done (pos t)
unfolding clock_text
get_seconds-clock_text default t some_time lt =
    let h : ℕ = t / 3600 in
    let m : ℕ = t / 60 % 60 in
    let s : ℕ = t % 60 in
    let back : Text = two_digits s in
    let middle : Text = two_digits m ++ (b':' ∷ back) in
    let whole : h * 3600 + m * 60 + s ≡ t = omega arith in
    get_seconds_fields default (two_digits h ++ (b':' ∷ middle)) middle back h m s
      (after_colon_digits (two_digits h) middle (two_digits-IsDigit h))
      (after_colon_digits (two_digits m) back (two_digits-IsDigit m))
      (field h (b':' ∷ middle) (value_at_colon h middle))
      (field m (b':' ∷ back) (value_at_colon m back))
      (ap atoi (sym (append_nil back)) ∙ field s [] (value_at_end s)) (omega arith)
    ∙ in_range (h * 3600 + m * 60 + s) whole
  where
    in_range : (n : ℕ) → n ≡ t → (if ltb n 2147483648 then done (pos n) else crash) ≡ done (pos t)
    in_range n e = ground arith

-- For every duration below 100 hours but 0, which stands for the default, `convert_seconds_to_char` stays
-- inside its buffer, and `get_seconds` reads the seconds that it printed, whatever the default length.
pub get_seconds-convert_seconds_to_char :
    (default : ℤ) (t : ℕ)
    → 0 < t
    → t < 360000
    → (convert_seconds_to_char t >>= λ s. get_seconds default (some s)) ≡ done (pos t)
unfolding convert_seconds_to_char
get_seconds-convert_seconds_to_char default t some_time lt =
    if-known (λ o. (o >>= λ s. get_seconds default (some s)) ≡ done (pos t))
      (ltb 8 (length (clock_text t)))
      (λ e. absurd (let eight = length-clock_text t lt in ground arith))
      (λ e. get_seconds-clock_text default t some_time lt)

-- "h:n:k", of any three numbers.
abbrev pub time_text : ℕ → ℕ → ℕ → Text
time_text h n k = decimal (suc h) h ++ (b':' ∷ (decimal (suc n) n ++ (b':' ∷ decimal (suc k) k)))
