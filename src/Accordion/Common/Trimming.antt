-- ===== src/Accordion/Common/Trimming.antt =====
-- accordion_V10.X/common.cpp: what `xtrim` takes away.
use cproject.Base.{
  ℕ, zero, suc, ◌+◌, ◌<◌, ◌≡◌, refl, ap, ◌∙◌, false, ◌==◌, Option, none, some, [], ◌∷◌, ◌++◌,
  length, done, arith,
}
use cproject.Base.Text.{Text, c_str}
use cproject.Accordion.Common.{
  space, from_word, or_else, or_here, last_space, address, cut_end, xtrim,
}

abbrev pub spaces : ℕ → Text
spaces zero = []
spaces (suc n) = space ∷ spaces n

c_str-spaces : (n : ℕ) (s : Text) → c_str (spaces n ++ s) ≡ spaces n ++ c_str s
unfolding c_str
c_str-spaces zero s = refl
c_str-spaces (suc n) s = ap (λ t. space ∷ t) (c_str-spaces n s)

spaces-c_str : (n : ℕ) → c_str (spaces n) ≡ spaces n
unfolding c_str
spaces-c_str zero = refl
spaces-c_str (suc n) = ap (λ t. space ∷ t) (spaces-c_str n)

c_str-word : (c : ℕ) (s : Text) → (c == 0) ≡ false → c_str (c ∷ s) ≡ c ∷ c_str s
unfolding c_str
c_str-word c s h = rw h refl

from_word-spaces : (n : ℕ) (s : Text) → from_word (spaces n ++ s) ≡ from_word s
unfolding from_word
from_word-spaces zero s = refl
from_word-spaces (suc n) s = from_word-spaces n s

from_word-word : (c : ℕ) (s : Text) → (c == space) ≡ false → from_word (c ∷ s) ≡ some (c ∷ s)
unfolding from_word
from_word-word c s h = rw h refl

no_word : (n : ℕ) → from_word (spaces n) ≡ none
unfolding from_word
no_word zero = refl
no_word (suc n) = no_word n

-- The pointer is below the end of the text, also where it is null.
or_here-address :
    (base c n : ℕ) (o : Option ℕ)
    → 0 < base
    → address base o < base + n
    → address base (or_here c o) < base + suc n
or_here-address base c n none pos lt = ground arith
or_here-address base c n (some i) pos lt = omega arith

last_space-address :
    (base : ℕ) (t : Text) → 0 < base → address base (last_space t) < base + length t
unfolding last_space
last_space-address base [] pos = omega arith
last_space-address base (c ∷ t) pos =
    or_here-address base c (length t) (last_space t) pos (last_space-address base t pos)

cut_end-whole : (base : ℕ) (t : Text) → 0 < base → cut_end base t ≡ done t
cut_end-whole base t pos = ground (arith, last_space-address base t pos)

-- For a text that is not at the null pointer: `xtrim` takes the spaces in front of a word away, and nothing
-- behind it up to the NUL, no space at its end either; a text of spaces stays as it is.
pub xtrim_lem :
    (base n c : ℕ) (s : Text)
    → 0 < base
    → (c == space) ≡ false
    → (c == 0) ≡ false
    → (xtrim base (spaces n ++ (c ∷ s)) ≡ done (c ∷ c_str s))
      × (xtrim base (spaces n) ≡ done (spaces n))
unfolding xtrim
xtrim_lem base n c s pos word here = (
  cut_end-whole base
        (or_else (c_str (spaces n ++ (c ∷ s))) (from_word (c_str (spaces n ++ (c ∷ s))))) pos
      ∙ ap (λ t. done (or_else t (from_word t)))
          (c_str-spaces n (c ∷ s) ∙ ap (λ t. spaces n ++ t) (c_str-word c s here))
      ∙ ap (λ o. done (or_else (spaces n ++ (c ∷ c_str s)) o))
          (from_word-spaces n (c ∷ c_str s) ∙ from_word-word c (c_str s) word),
  cut_end-whole base (or_else (c_str (spaces n)) (from_word (c_str (spaces n)))) pos
      ∙ ap (λ t. done (or_else t (from_word t))) (spaces-c_str n)
      ∙ ap (λ o. done (or_else (spaces n) o)) (no_word n),
)
