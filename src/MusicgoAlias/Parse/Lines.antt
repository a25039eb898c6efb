-- ===== src/MusicgoAlias/Parse/Lines.antt =====
-- musicgo_alias/Parameters.cpp: one line in the loop of `sparse`.
use cproject.Base.{
  ℕ, suc, ◌+◌, ◌-◌, ◌≡◌, refl, sym, ap, ◌∙◌, Bool, true, false, ◌==◌, if◌then◌else◌, none, some, [],
  ◌∷◌, ◌++◌, length, take, drop, drop-drop, arith, Outcome, done, ◌>>=◌,
}
use cproject.Base.Text.{Text, codes, c_str, text_eq}
use cproject.MusicgoAlias.Memory.{Memory, among, count_while, until, token_at, cut, strstr}
use cproject.MusicgoAlias.Request.{Request, marks, get_file_data}
use cproject.MusicgoAlias.Parse.{
  LineRead, read_data, read_range, read_get, read_line, line_ends, next_line, parse_lines,
}
use cproject.MusicgoAlias.Parse.Pieces.{Free, until-Free, token_at-Free}

suc_ne : (n : ℕ) → (suc n == 0) ≡ false
suc_ne n = ground arith

-- A round of the loop, where `skipped` bytes are skipped and the line has `len`.
abbrev round_of : ℕ → Memory → Request → ℕ → ℕ → Outcome Request
round_of fuel m r skipped len =
    if len == 0
    then done r
    else (read_line (token_at line_ends (drop skipped m)) r >>= λ x.
        next_line (parse_lines fuel) (drop (len + 2) (take skipped m ++ x.memory)) x.request)

parse_lines-round :
    (fuel : ℕ) (m : Memory) (r : Request) (skipped len : ℕ)
    → count_while (among line_ends) m ≡ skipped
    → length (until line_ends (drop skipped m)) ≡ len
    → parse_lines (suc fuel) m r ≡ round_of fuel m r skipped len
unfolding parse_lines
parse_lines-round fuel m r skipped len first line_length =
    ap (λ k. round_of fuel m r k (length (until line_ends (drop k m)))) first
    ∙ ap (round_of fuel m r skipped) line_length

-- On a line that begins where the memory does.
parse_lines-step :
    (fuel : ℕ) (m : Memory) (r : Request) (x : LineRead) (len : ℕ)
    → count_while (among line_ends) m ≡ 0
    → length (until line_ends m) ≡ suc len
    → read_line (token_at line_ends m) r ≡ done x
    → parse_lines (suc fuel) m r
      ≡ next_line (parse_lines fuel) (drop (suc len + 2) x.memory) x.request
parse_lines-step fuel m r x len none_skipped line_length read =
    parse_lines-round fuel m r 0 (suc len) none_skipped line_length ∙ rw (suc_ne len, read) refl

pub parse_lines-line :
    (fuel c : ℕ) (s : Text) (d : ℕ) (rest : Memory) (r : Request) (x : LineRead)
    → Free line_ends (c ∷ s)
    → read_line (c ∷ (s ++ (0 ∷ 10 ∷ d ∷ rest))) r ≡ done x
    → drop (suc (suc (length s))) x.memory ≡ 10 ∷ d ∷ rest
    → parse_lines (suc fuel) (c ∷ (s ++ (13 ∷ 10 ∷ d ∷ rest))) r
      ≡ parse_lines fuel (d ∷ rest) x.request
unfolding count_while among
parse_lines-line fuel c s d rest r x free read left =
    parse_lines-step fuel m r x (length s) (no_ends (among line_ends c) no_end)
      (ap length (until-Free line_ends (c ∷ s) (10 ∷ d ∷ rest) 13 free refl))
      (ap (λ t. read_line t r) (token_at-Free line_ends (c ∷ s) (10 ∷ d ∷ rest) 13 free refl)
        ∙ read)
    ∙ ap (λ t. next_line (parse_lines fuel) t x.request) behind
  where
    m : Memory
    m = c ∷ (s ++ (13 ∷ 10 ∷ d ∷ rest))

    no_end : among line_ends c ≡ false
    no_end = ground (arith, free.0)

    no_ends :
        (b : Bool)
        → b ≡ false
        → (if b then suc (count_while (among line_ends) (s ++ (13 ∷ 10 ∷ d ∷ rest))) else 0) ≡ 0
    no_ends true e = cc
    no_ends false e = refl

    behind : drop (suc (length s) + 2) x.memory ≡ d ∷ rest
    behind =
        let count : suc (suc (length s)) + 1 ≡ suc (length s) + 2 = omega arith in
        ap (λ k. drop k x.memory) (sym count)
        ∙ sym (drop-drop (suc (suc (length s))) 1 x.memory)
        ∙ ap (drop 1) left

take_none : (n : ℕ) (m : Memory) → take (n - n) m ≡ []
take_none n m = let e : n - n ≡ 0 = omega arith in rw e refl

-- `get_file_data` on the whole of a line.
read_data-whole :
    (m : Memory) (r r' : Request)
    → get_file_data m r ≡ done r'
    → read_data m m r ≡ done (record { request = r'; memory = cut marks false m })
unfolding read_data
read_data-whole m r r' e =
    ap
      (λ o. o >>= λ q.
        done (record { request = q; memory = take (length m - length m) m ++ cut marks false m }))
      e
    ∙ ap (λ t. done (record { request = r'; memory = t ++ cut marks false m }))
        (take_none (length m) m)

pub read_line-get :
    (t : Memory) (r r' : Request)
    → let m = codes "GET /" ++ t in
      get_file_data m (record r { request = some (c_str m) }) ≡ done r'
      → read_line m r ≡ done (record { request = r'; memory = cut marks false m })
unfolding read_line read_get strstr text_eq
read_line-get t r r' e = read_data-whole (codes "GET /" ++ t) _ r' e

range_first :
    (t : Memory) (r r' : Request) {o : Outcome LineRead}
    → read_data (codes "Range:" ++ t) (codes "Range:" ++ t) r ≡ o
    → read_get (codes "Range:" ++ t) r none ≡ o
unfolding read_get read_range strstr text_eq
range_first t r r' e = e

pub read_line-range :
    (t : Memory) (r r' : Request)
    → let m = codes "Range:" ++ t in
      strstr m (codes "GET /") ≡ none
      → get_file_data m r ≡ done r'
      → read_line m r ≡ done (record { request = r'; memory = cut marks false m })
unfolding read_line
read_line-range t r r' no_get e = ap (read_get m r) no_get ∙ range_found
  where
    m : Memory
    m = codes "Range:" ++ t

    range_found : read_get m r none ≡ done (record { request = r'; memory = cut marks false m })
    range_found = range_first t r r' (read_data-whole m r r' e)
