-- ===== src/MusicgoAlias/Memory.antt =====
-- The calls of <cstring> and <cstdlib> on the text that musicgo_alias/Parameters.cpp receives: a pointer is the
-- list of the bytes from it on to the end of what is allocated, the NUL bytes included.
use cproject.Base.{
  ℕ, suc, ◌+◌, Bool, false, not, ◌&&◌, ◌||◌, ◌==◌, if◌then◌else◌, Option, none, some, List, [], ◌∷◌,
  ◌++◌, length, take, drop,
}
use cproject.Base.Text.{Text, text_eq, is_digit, is_space}

abbrev pub Memory : Type 0
Memory = List ℕ

-- Whether a byte is one of `seps`.
unfoldable pub among : Text → ℕ → Bool
among [] c = false
among (s ∷ seps) c = s == c || among seps c

-- How many bytes in front pass the test.
unfoldable pub count_while : (ℕ → Bool) → Memory → ℕ
count_while test [] = 0
count_while test (c ∷ m) = let rest = count_while test m in if test c then suc rest else 0

-- The bytes up to a separator or a NUL.
unfoldable pub until : Text → Memory → Text
unfolding among
until seps [] = []
until seps (c ∷ m) = let rest = until seps m in if c == 0 || among seps c then [] else c ∷ rest

-- What `strtok` hands out at the first byte of a token: its end is made a NUL.
unfoldable pub token_at : Text → Memory → Memory
unfolding until
token_at seps m = let token = until seps m in token ++ (0 ∷ drop (suc (length token)) m)

-- The tokens that `strtok(v, seps)` and the calls behind it hand out, each when it is handed out. The flag tells
-- that a token has begun.
unfoldable pub tokens : Text → Bool → Memory → List Memory
unfolding among token_at
tokens seps begun [] = []
tokens seps begun (c ∷ m) =
    let rest = tokens seps (not (among seps c)) m in
    if c == 0 then [] else if among seps c || begun then rest else token_at seps (c ∷ m) ∷ rest

-- The memory behind all those calls.
unfoldable pub cut : Text → Bool → Memory → Memory
unfolding among
cut seps begun [] = []
cut seps begun (c ∷ m) =
    let rest = cut seps (not (among seps c)) m in
    if c == 0 then c ∷ m else if among seps c && begun then 0 ∷ rest else c ∷ rest

-- `strstr(m, key)`, for a key that is not empty; none is NULL.
unfoldable pub strstr : Memory → Text → Option Memory
unfolding text_eq
strstr [] key = none
strstr (c ∷ m) key =
    let rest = strstr m key in
    if text_eq (take (length key) (c ∷ m)) key then some (c ∷ m) else if c == 0 then none else rest

abbrev pub sign_length : Memory → ℕ
sign_length [] = 0
sign_length (c ∷ m) = if c == b'-' || c == b'+' then 1 else 0

-- `pEnd - m` behind `strtol(m, &pEnd, 10)`; its value is that of `atoi`.
unfoldable pub strtol_end : Memory → ℕ
unfolding count_while
strtol_end m =
    let spaces = count_while is_space m in
    let sign = sign_length (drop spaces m) in
    let digits = count_while is_digit (drop (spaces + sign) m) in
    if digits == 0 then 0 else spaces + sign + digits
