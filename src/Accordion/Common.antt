-- ===== src/Accordion/Common.antt =====
-- accordion_V10.X/common.cpp: the text functions.
pub mod Encoding
pub mod Trimming
pub mod Directory
mod Examples
use cproject.Base.{
  ℕ, zero, suc, ◌+◌, ◌-◌, ◌/◌, ◌%◌, Bool, true, false, not, ◌&&◌, ◌||◌, ◌==◌, ltb, leb,
  if◌then◌else◌, Option, none, some, List, [], ◌∷◌, ◌++◌, length, take, Outcome, done, crash,
}
use cproject.Base.Text.{Text, is_digit, c_str}

-- `isalnum` of the C locale, and the four bytes beside.
abbrev pub is_alnum : ℕ → Bool
is_alnum c = is_digit c || leb 65 c && leb c 90 || leb 97 c && leb c 122

abbrev pub is_plain : ℕ → Bool
is_plain c = is_alnum c || c == 45 || c == 95 || c == 46 || c == 126

-- One digit of `%02X`.
abbrev pub hex_digit : ℕ → ℕ
hex_digit n = if ltb n 10 then 48 + n else 55 + n

abbrev pub percent : ℕ
percent = 37

-- The bytes for one byte.
abbrev pub encode_byte : ℕ → Text
encode_byte c =
    if is_plain c then c ∷ [] else percent ∷ hex_digit (c / 16) ∷ hex_digit (c % 16) ∷ []

-- `urlEncode`: the loop runs to the first byte 0.
unfoldable pub url_encode : Text → Text
url_encode [] = []
url_encode (c ∷ s) = let rest = encode_byte c ++ url_encode s in if c == 0 then [] else rest

abbrev pub space : ℕ
space = 32

-- The text from its first byte on that is not a space, if there is one: the loop of `xtrim`.
unfoldable pub from_word : Text → Option Text
from_word [] = none
from_word (c ∷ s) = let rest = from_word s in if not (c == space) then some (c ∷ s) else rest

abbrev pub or_else : Text → Option Text → Text
or_else s none = s
or_else s (some t) = t

-- `strrchr(str, ' ')`: the index of the last space; none is the null pointer.
abbrev pub or_here : ℕ → Option ℕ → Option ℕ
or_here c none = if c == space then some 0 else none
or_here c (some i) = some (suc i)

unfoldable pub last_space : Text → Option ℕ
last_space [] = none
last_space (c ∷ s) = or_here c (last_space s)

-- A pointer as a number, for a text that stands at the address `base`.
abbrev pub address : ℕ → Option ℕ → ℕ
address base none = 0
address base (some i) = base + i

-- The byte at an index; behind the text is its NUL.
unfoldable pub char_at : ℕ → Text → ℕ
char_at i [] = 0
char_at zero (c ∷ s) = c
char_at (suc i) (c ∷ s) = char_at i s

-- The spaces from an index on downwards are overwritten by NUL; the loop reads in front of the text where
-- they reach to its beginning.
unfoldable pub cut_back : ℕ → Text → Outcome Text
unfolding char_at
cut_back zero t = if char_at 0 t == space then crash else done t
cut_back (suc i) t =
    let rest = cut_back i (take (suc i) t) in if char_at (suc i) t == space then rest else done t

abbrev pub cut_from : Option ℕ → Text → Outcome Text
cut_from none t = crash
cut_from (some i) t = cut_back i t

-- The end of `xtrim`, behind the last `strlen`.
abbrev pub cut_end : ℕ → Text → Outcome Text
cut_end base t =
    if ltb (address base (last_space t)) (base + length t)
    then done t
    else cut_from (last_space t) t

-- `xtrim` of a text at the address `base`.
unfoldable pub xtrim : ℕ → Text → Outcome Text
unfolding from_word last_space cut_back
xtrim base s = cut_end base (or_else (c_str s) (from_word (c_str s)))
