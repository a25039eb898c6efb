-- ===== src/MusicgoAlias/Parse/RoundTrip.antt =====
-- musicgo_alias/Parameters.cpp: a request that is written out is read by `sparse`.
use cproject.Base.{
  ℕ, suc, ◌<◌, ◌≡◌, refl, ap, ◌∙◌, false, ◌||◌, ◌==◌, none, some, List, [], ◌∷◌, ◌++◌, length, drop,
  All, All-append, append_assoc, arith, done, ◌>>=◌,
}
use cproject.Base.Int.{pos}
use cproject.Base.Map.{insert}
use cproject.Base.Text.{Text, codes, c_str, text_eq}
use cproject.MusicgoAlias.Memory.{Memory, among, count_while, until, token_at, tokens, cut, strstr}
use cproject.MusicgoAlias.Request.{
  Request, new_request, field_of, compare_ℤ, set_found, set_all, marks, get_file_data,
}
use cproject.MusicgoAlias.Parse.{line_ends, parse_lines, check_request, sparse}
use cproject.MusicgoAlias.Parse.Pieces.{Free, c_str-Free, drop-cut, strstr-none}
use cproject.MusicgoAlias.Parse.Range.{IsNumeral, range_line, numbers-All, get_file_data-range}
use cproject.MusicgoAlias.Parse.Lines.{parse_lines-line, read_line-get, read_line-range}
use cproject.MusicgoAlias.Parse.Params.{Param, Clean}
use cproject.MusicgoAlias.Parse.Reading.{
  print_all, all_mean, set_all-print_all, print_all-Free, all_mean-ranges,
}

get_file_data-get :
    (ps : List Param) (b : Memory) (r : Request)
    → All Clean ps
    → get_file_data (codes "GET /?" ++ (print_all ps ++ (0 ∷ b))) r ≡ done (all_mean ps r)
unfolding get_file_data tokens set_all field_of strstr text_eq token_at until among set_found
get_file_data-get ps b r h = set_all-print_all ps b r h

-- "GET /?..." and the whole request.
abbrev pub get_line : List Param → Text
get_line ps = codes "GET /?" ++ print_all ps

abbrev pub request_text : List Param → ℕ → ℕ → Text
request_text ps a b = get_line ps ++ (13 ∷ 10 ∷ (range_line a b ++ (13 ∷ 10 ∷ 13 ∷ 10 ∷ [])))

-- What is left to read behind the first line.
abbrev second : ℕ → ℕ → Memory
second a b = range_line a b ++ (13 ∷ 10 ∷ 13 ∷ 10 ∷ 0 ∷ [])

-- What the request says.
abbrev pub after_get : List Param → Request
after_get ps = all_mean ps (record new_request { request = some (get_line ps) })

abbrev pub described : List Param → ℕ → ℕ → Request
described ps a b = record (after_get ps) { ranges = (pos a, b) ∷ [] }

some_bytes : (seps s : Text) → Free seps s → All (λ c. (c == 0) ≡ false) s
some_bytes seps [] h = tt
some_bytes seps (c ∷ s) h = (ground (arith, h.0), some_bytes seps s h.1)

get_line-Free : (ps : List Param) → All Clean ps → Free line_ends (get_line ps)
unfolding among
get_line-Free ps h = (refl, (refl, (refl, (refl, (refl, (refl, print_all-Free ps h))))))

parse_lines-get :
    (fuel : ℕ) (ps : List Param) (a b : ℕ)
    → All Clean ps
    → parse_lines (suc fuel) (get_line ps ++ (13 ∷ 10 ∷ second a b)) new_request
      ≡ parse_lines fuel (second a b) (after_get ps)
parse_lines-get fuel ps a b h =
    let free : Free line_ends (get_line ps) = get_line-Free ps h in
    let behind : Memory = 10 ∷ second a b in
    let t : Memory = 63 ∷ (print_all ps ++ (0 ∷ behind)) in
    let own : c_str (get_line ps ++ (0 ∷ behind)) ≡ get_line ps =
      c_str-Free line_ends (get_line ps) behind free in
    let data_read =
      get_file_data-get ps behind
        (record new_request { request = some (c_str (get_line ps ++ (0 ∷ behind))) }) h
      ∙ ap (λ s. done (all_mean ps (record new_request { request = some s }))) own in
    parse_lines-line fuel 71 (drop 1 (get_line ps)) 82 (drop 1 (second a b)) new_request
      (record { request = after_get ps; memory = cut marks false (get_line ps ++ (0 ∷ behind)) })
      free (read_line-get t new_request (after_get ps) data_read)
      (drop-cut false (get_line ps) behind (some_bytes line_ends (get_line ps) free))

numeral_facts :
    (c : ℕ) → IsNumeral c → ((c == 71) ≡ false) × ((c == 0 || among line_ends c) ≡ false)
unfolding among
numeral_facts c h = (ground arith, ground arith)

range_line-Free : (a b : ℕ) → Free line_ends (range_line a b)
unfolding among
range_line-Free a b =
    let free =
      numbers-All (λ c. (c == 0 || among line_ends c) ≡ false) (λ c k. (numeral_facts c k).1) a b in
    (
      refl,
      (
        refl,
        (
          refl,
          (refl, (refl, (refl, (refl, (refl, (refl, (refl, (refl, (refl, (refl, free)))))))))),
        ),
      ),
    )

no_get : (a b : ℕ) (t : Memory) → strstr (range_line a b ++ (0 ∷ t)) (codes "GET /") ≡ none
no_get a b t =
    let lacks = numbers-All (λ c. (c == 71) ≡ false) (λ c k. (numeral_facts c k).0) a b in
    strstr-none 71 (codes "GET /") (range_line a b) t refl
      (
        refl,
        (
          refl,
          (
            refl,
            (refl, (refl, (refl, (refl, (refl, (refl, (refl, (refl, (refl, (refl, lacks)))))))))),
          ),
        ),
      )
      refl

parse_lines-range :
    (fuel a b : ℕ) (r : Request)
    → a < 2147483648
    → b < 2147483648
    → r.ranges ≡ []
    → parse_lines (suc fuel) (second a b) r
      ≡ parse_lines fuel (13 ∷ 10 ∷ 0 ∷ []) (record r { ranges = (pos a, b) ∷ [] })
unfolding insert
parse_lines-range fuel a b r fits_a fits_b no_ranges =
    let behind : Memory = 10 ∷ 13 ∷ 10 ∷ 0 ∷ [] in
    let free : Free line_ends (range_line a b) = range_line-Free a b in
    let inserted =
      ap (λ rs. done (record r { ranges = insert compare_ℤ (pos a) b rs })) no_ranges in
    parse_lines-line fuel 82 (drop 1 (range_line a b)) 13 (10 ∷ 0 ∷ []) r
      (record {
        request = record r { ranges = (pos a, b) ∷ [] };
        memory = cut marks false (range_line a b ++ (0 ∷ behind));
      })
      free
      (read_line-range (drop 6 (range_line a b) ++ (0 ∷ behind)) r
        (record r { ranges = (pos a, b) ∷ [] }) (no_get a b behind)
        (get_file_data-range a b behind r fits_a fits_b ∙ inserted))
      (drop-cut false (range_line a b) behind (some_bytes line_ends (range_line a b) free))

parse_lines-end : (fuel : ℕ) (r : Request) → parse_lines (suc fuel) (13 ∷ 10 ∷ 0 ∷ []) r ≡ done r
unfolding parse_lines count_while among until
parse_lines-end fuel r = refl

c_str-whole : (s : Text) → All (λ c. (c == 0) ≡ false) s → c_str s ≡ s
unfolding c_str
c_str-whole [] h = refl
c_str-whole (c ∷ s) h = rw h.0 (ap (λ r. c ∷ r) (c_str-whole s h.1))

request_text-bytes :
    (ps : List Param) (a b : ℕ) → All Clean ps → All (λ c. (c == 0) ≡ false) (request_text ps a b)
request_text-bytes ps a b h =
    let NotNul : ℕ → Type 0 = λ c. (c == 0) ≡ false in
    All-append NotNul (get_line ps) (13 ∷ 10 ∷ (range_line a b ++ (13 ∷ 10 ∷ 13 ∷ 10 ∷ [])))
      (some_bytes line_ends (get_line ps) (get_line-Free ps h))
      (
        refl,
        (
          refl,
          All-append NotNul (range_line a b) (13 ∷ 10 ∷ 13 ∷ 10 ∷ [])
              (some_bytes line_ends (range_line a b) (range_line-Free a b))
              (refl, (refl, (refl, (refl, tt)))),
        ),
      )

request_text-memory :
    (ps : List Param) (a b : ℕ)
    → request_text ps a b ++ (0 ∷ []) ≡ get_line ps ++ (13 ∷ 10 ∷ second a b)
request_text-memory ps a b =
    append_assoc (get_line ps) (13 ∷ 10 ∷ (range_line a b ++ (13 ∷ 10 ∷ 13 ∷ 10 ∷ []))) (0 ∷ [])
    ∙ ap (λ t. get_line ps ++ (13 ∷ 10 ∷ t))
        (append_assoc (range_line a b) (13 ∷ 10 ∷ 13 ∷ 10 ∷ []) (0 ∷ []))

parse_lines-request :
    (fuel : ℕ) (ps : List Param) (a b : ℕ)
    → All Clean ps
    → a < 2147483648
    → b < 2147483648
    → parse_lines (suc (suc (suc fuel))) (request_text ps a b ++ (0 ∷ [])) new_request
      ≡ done (described ps a b)
parse_lines-request fuel ps a b h fits_a fits_b =
    ap (λ m. parse_lines (suc (suc (suc fuel))) m new_request) (request_text-memory ps a b)
    ∙ parse_lines-get (suc (suc fuel)) ps a b h
    ∙ parse_lines-range (suc fuel) a b (after_get ps) fits_a fits_b (all_mean-ranges ps _)
    ∙ parse_lines-end fuel (described ps a b)

-- A request of one line with parameters, whose values have none of the separators of pieces and lines
-- and no equals sign, and a line with a range, where an `int` holds the identifier and both ends of the
-- range: it is read as what its parameters mean, one after the other, and the range, and then checked.
pub sparse-request_text :
    (aliases : List (Text × Text)) (ps : List Param) (a b : ℕ)
    → All Clean ps
    → a < 2147483648
    → b < 2147483648
    → sparse aliases (request_text ps a b) ≡ done (check_request aliases (described ps a b))
unfolding sparse
sparse-request_text aliases ps a b h fits_a fits_b =
    let s : Text = request_text ps a b in
    ap
      (λ t. parse_lines (suc (length (t ++ (0 ∷ [])))) (t ++ (0 ∷ [])) new_request >>= λ r.
        done (check_request aliases r))
      (c_str-whole s (request_text-bytes ps a b h))
    ∙ ap (λ o. o >>= λ r. done (check_request aliases r))
        (parse_lines-request (length (drop 2 (s ++ (0 ∷ [])))) ps a b h fits_a fits_b)
