-- ===== src/MusicgoAlias/Parse/Termination.antt =====
-- musicgo_alias/Parameters.cpp: the loop of `sparse` ends.
use cproject.Base.{
  ◌||◌, ℕ, zero, suc, ◌+◌, ◌-◌, ◌≤◌, ◌<◌, ◌≡◌, ◌≢◌, refl, subst, Bool, false, not, ◌==◌, if-both,
  if-known, Option, none, some, List, [], ◌∷◌, ◌++◌, length, take, drop, length-append, length-take,
  length-drop, arith, Outcome, done, stuck, >>=-ne-stuck, >>=-eq-done, done-ne-stuck,
  crash-ne-stuck,
}
use cproject.Base.Text.{atoi, Text, codes, c_str}
use cproject.MusicgoAlias.Memory.{
  Memory, among, count_while, until, token_at, cut, strstr, tokens, strtol_end,
}
use cproject.MusicgoAlias.Request.{
  abs, to_int, Request, Field, new_request, marks, get_file_data, set_range, set_field, set_found,
  set_all, fields, field_of,
}
use cproject.MusicgoAlias.Parse.{
  LineRead, read_data, read_range, read_get, read_line, line_ends, next_line, parse_lines, sparse,
}

set_range-ne-stuck : (v : Memory) (r : Request) → set_range v r ≢ stuck
unfolding set_range
set_range-ne-stuck v r =
    let behind : Memory = drop (strtol_end v + 1) v in
    if-both (λ (o : Outcome Request). o ≢ stuck)
      (length behind == 0 || abs (to_int (atoi behind)) == 2147483648) crash-ne-stuck
      (done-ne-stuck _)

set_field-ne-stuck : (f : Field) (v : Memory) (r : Request) → set_field f v r ≢ stuck
unfolding set_field
set_field-ne-stuck Field.bytes v r = set_range-ne-stuck v r
set_field-ne-stuck _ v r = done-ne-stuck _

set_found-ne-stuck : (o : Option (Field × Memory)) (r : Request) → set_found o r ≢ stuck
unfolding set_found
set_found-ne-stuck none r = done-ne-stuck r
set_found-ne-stuck (some (f, v)) r = set_field-ne-stuck f v r

set_all-ne-stuck : (ps : List Memory) (r : Request) → set_all ps r ≢ stuck
unfolding set_all
set_all-ne-stuck [] r = done-ne-stuck r
set_all-ne-stuck (p ∷ ps) r =
    >>=-ne-stuck (set_found (field_of fields p) r) (set_all ps)
      (set_found-ne-stuck (field_of fields p) r) (λ r' e. set_all-ne-stuck ps r')

read_data-ne-stuck : (m v : Memory) (r : Request) → read_data m v r ≢ stuck
unfolding read_data get_file_data
read_data-ne-stuck m v r =
    >>=-ne-stuck (get_file_data v r) _ (set_all-ne-stuck (tokens marks false v) r)
      (λ r' e. done-ne-stuck _)

read_range-ne-stuck : (m : Memory) (r : Request) (o : Option Memory) → read_range m r o ≢ stuck
unfolding read_range
read_range-ne-stuck m r none = done-ne-stuck _
read_range-ne-stuck m r (some v) = read_data-ne-stuck m v r

read_get-ne-stuck : (m : Memory) (r : Request) (o : Option Memory) → read_get m r o ≢ stuck
unfolding read_get
read_get-ne-stuck m r none = read_range-ne-stuck m r (strstr m (codes "Range:"))
read_get-ne-stuck m r (some v) = read_data-ne-stuck m v _

read_line-ne-stuck : (m : Memory) (r : Request) → read_line m r ≢ stuck
unfolding read_line
read_line-ne-stuck m r = read_get-ne-stuck m r (strstr m (codes "GET /"))

-- The calls of `strtok` change the memory of a line in place.
length-cut : (seps : Text) (begun : Bool) (m : Memory) → length (cut seps begun m) ≡ length m
unfolding cut
length-cut seps begun [] = refl
length-cut seps begun (c ∷ m) = ground (arith, length-cut seps (not (among seps c)) m)

strstr_le : (m v : Memory) (key : Text) → strstr m key ≡ some v → length v ≤ length m
unfolding strstr
strstr_le [] v key e = cc
strstr_le (c ∷ m) v key e = ground (arith, strstr_le m v key)

until_le : (seps : Text) (m : Memory) → length (until seps m) ≤ length m
unfolding until
until_le seps [] = omega arith
until_le seps (c ∷ m) = ground (arith, until_le seps m)

token_at_le : (seps : Text) (m : Memory) → length (token_at seps m) ≤ suc (length m)
unfolding token_at
token_at_le seps m = omega (
  arith,
  until_le seps m,
  length-append (until seps m) (0 ∷ drop (suc (length (until seps m))) m),
  length-drop (suc (length (until seps m))) m,
)

read_data-length :
    (m v : Memory) (r : Request) (x : LineRead)
    → length v ≤ length m
    → read_data m v r ≡ done x
    → length x.memory ≤ length m
unfolding read_data
read_data-length m v r x le e =
    let (r', read, out) = >>=-eq-done (get_file_data v r) _ e in
    let same : take (length m - length v) m ++ cut marks false v ≡ x.memory = cc in
    subst (λ (k : Memory). length k ≤ length m) same
      (omega (
        arith,
        le,
        length-append (take (length m - length v) m) (cut marks false v),
        length-take (length m - length v) m,
        length-cut marks false v,
      ))

read_range-length :
    (m : Memory) (r : Request) (x : LineRead) (o : Option Memory)
    → strstr m (codes "Range:") ≡ o
    → read_range m r o ≡ done x
    → length x.memory ≤ length m
unfolding read_range
read_range-length m r x none found e =
    let same : m ≡ x.memory = cc in subst (λ (k : Memory). length k ≤ length m) same (omega arith)
read_range-length m r x (some v) found e =
    read_data-length m v r x (strstr_le m v (codes "Range:") found) e

read_get-length :
    (m : Memory) (r : Request) (x : LineRead) (o : Option Memory)
    → strstr m (codes "GET /") ≡ o
    → read_get m r o ≡ done x
    → length x.memory ≤ length m
unfolding read_get
read_get-length m r x none found e = read_range-length m r x (strstr m (codes "Range:")) refl e
read_get-length m r x (some v) found e =
    read_data-length m v _ x (strstr_le m v (codes "GET /") found) e

read_line-length :
    (m : Memory) (r : Request) (x : LineRead) → read_line m r ≡ done x → length x.memory ≤ length m
unfolding read_line
read_line-length m r x e = read_get-length m r x (strstr m (codes "GET /")) refl e

-- What is left behind a line that is not empty is shorter than what there was.
behind_lt :
    (m : Memory) (x : LineRead) (skipped len : ℕ)
    → (len == 0) ≡ false
    → length x.memory ≤ suc (length (drop skipped m))
    → skipped ≤ length m
    → len ≤ length (drop skipped m)
    → suc (length (drop (len + 2) (take skipped m ++ x.memory))) ≤ length m
behind_lt m x skipped len some_line le inside fits =
    let pos_len : 1 ≤ len = ground arith in
    omega (
      arith,
      pos_len,
      le,
      inside,
      fits,
      length-drop (len + 2) (take skipped m ++ x.memory),
      length-append (take skipped m) x.memory,
      length-take skipped m,
      length-drop skipped m,
    )

count_while_le : (test : ℕ → Bool) (m : Memory) → count_while test m ≤ length m
unfolding count_while
count_while_le test [] = omega arith
count_while_le test (c ∷ m) = ground (arith, count_while_le test m)

next_line-ne-stuck :
    (loop : Memory → Request → Outcome Request) (m : Memory) (r : Request)
    → loop m r ≢ stuck
    → next_line loop m r ≢ stuck
next_line-ne-stuck loop [] r h = crash-ne-stuck
next_line-ne-stuck loop (c ∷ m) r h = h

parse_lines-ne-stuck :
    (fuel : ℕ) (m : Memory) (r : Request) → length m < fuel → parse_lines fuel m r ≢ stuck
unfolding parse_lines
parse_lines-ne-stuck zero m r lt = absurd (omega arith)
parse_lines-ne-stuck (suc fuel) m r lt =
    let skipped : ℕ = count_while (among line_ends) m in
    let at : Memory = drop skipped m in
    let len : ℕ = length (until line_ends at) in
    if-known (λ o. o ≢ stuck) (len == 0) (λ e. done-ne-stuck r)
      λ some_line.
        >>=-ne-stuck (read_line (token_at line_ends at) r) _
          (read_line-ne-stuck (token_at line_ends at) r)
          λ x e.
            let rest : Memory = drop (len + 2) (take skipped m ++ x.memory) in
            let read : length x.memory ≤ suc (length at) =
              omega
                (arith, token_at_le line_ends at, read_line-length (token_at line_ends at) r x e) in
            let less : suc (length rest) ≤ length m =
              behind_lt m x skipped len some_line read (count_while_le (among line_ends) m)
                (until_le line_ends at) in
            next_line-ne-stuck (parse_lines fuel) rest x.request
              (parse_lines-ne-stuck fuel rest x.request (omega arith))

-- The reading of a request ends, whatever was received: it names a file or refuses the request, or it reads
-- behind the memory that was received.
pub sparse-ne-stuck :
    (aliases : List (Text × Text)) (received : Text) → sparse aliases received ≢ stuck
unfolding sparse
sparse-ne-stuck aliases received =
    let m : Memory = c_str received ++ (0 ∷ []) in
    >>=-ne-stuck (parse_lines (suc (length m)) m new_request) _
      (parse_lines-ne-stuck (suc (length m)) m new_request (omega arith)) (λ r e. done-ne-stuck _)
