-- ===== src/MusicgoAlias/Parse.antt =====
-- musicgo_alias/Parameters.cpp: `sparse`, which reads the lines of a request and names the file that it asks for.
pub mod Termination
pub mod Pieces
pub mod Params
pub mod Reading
pub mod Lines
pub mod Range
pub mod RoundTrip
mod Examples
use Prim.Native.Nat.{Ordering}
use cproject.Base.{
  ℕ, zero, suc, ◌+◌, ◌-◌, Bool, true, false, not, ◌&&◌, ◌||◌, ◌==◌, if◌then◌else◌, Option, none,
  some, List, [], ◌∷◌, ◌++◌, length, take, drop, Outcome, done, crash, stuck, ◌>>=◌,
}
use cproject.Base.Int.{ℤ, pos, negsuc}
use cproject.Base.Text.{Text, codes, c_str, text_compare}
use cproject.Base.Map.{lookup, is_some}
use cproject.Rotator.Timer.{decimal}
use cproject.Accordion.Parameters.{sub_path}
use cproject.MusicgoAlias.Memory.{Memory, among, count_while, until, token_at, cut, strstr}
use cproject.MusicgoAlias.Request.{
  Alias, unset, literal, copied, Request, new_request, marks, get_file_data,
}

-- A line behind its tests: the request, and the memory from the line's start on.
pub record LineRead : Type 0 where
  pub request : Request
  pub memory : Memory

-- `get_file_data(pdata)`, with `pdata` inside the line.
unfoldable pub read_data : Memory → Memory → Request → Outcome LineRead
unfolding get_file_data cut
read_data m v r = get_file_data v r >>= λ r'.
    done (record { request = r'; memory = take (length m - length v) m ++ cut marks false v })

unfoldable pub read_names : Memory → Request → Request
unfolding strstr c_str
read_names m r = elim (strstr m (codes "User-Agent:")) [
  | some v ↦ record r { user_agent = some (c_str v) }
  | none ↦ elim (strstr m (codes "Referer:")) [
    | some v ↦ record r { referer = some (c_str v) }
    | none ↦ r
  ]
]

-- What is done where "Range:" is found, or not.
unfoldable pub read_range : Memory → Request → Option Memory → Outcome LineRead
unfolding read_data read_names
read_range m r none = done (record { request = read_names m r; memory = m })
read_range m r (some v) = read_data m v r

-- What is done where "GET /" is found, or not.
unfoldable pub read_get : Memory → Request → Option Memory → Outcome LineRead
unfolding strstr c_str read_data read_range
read_get m r none = read_range m r (strstr m (codes "Range:"))
read_get m r (some v) = read_data m v (record r { request = some (c_str v) })

-- The tests on one line.
unfoldable pub read_line : Memory → Request → Outcome LineRead
unfolding strstr read_get
read_line m r = read_get m r (strstr m (codes "GET /"))

-- "\r\n"
abbrev pub line_ends : Text
line_ends = 13 ∷ 10 ∷ []

-- `pshift` moves by the length of the line and two; behind the allocated bytes nothing may be read.
abbrev pub next_line : (Memory → Request → Outcome Request) → Memory → Request → Outcome Request
next_line loop [] r = crash
next_line loop (c ∷ m) r = loop (c ∷ m) r

-- The loop over the lines, on fuel. `m` is the memory from `pshift` on.
unfoldable pub parse_lines : ℕ → Memory → Request → Outcome Request
unfolding among count_while until token_at read_line
parse_lines zero m r = stuck
parse_lines (suc fuel) m r =
    let skipped = count_while (among line_ends) m in
    let at = drop skipped m in
    let len = length (until line_ends at) in
    if len == 0
    then done r
    else (read_line (token_at line_ends at) r >>= λ x.
        next_line (parse_lines fuel) (drop (len + 2) (take skipped m ++ x.memory)) x.request)

abbrev pub text_of : Option Text → Text
text_of none = []
text_of (some s) = s

abbrev pub or_default : Option Text → Text → Option Text
or_default none s = some s
or_default (some t) s = some t

abbrev pub print_int : ℤ → Text
print_int (pos n) = decimal (suc n) n
print_int (negsuc n) = 45 ∷ decimal (suc (suc n)) (suc n)

-- `STATUS_EMPTY`, and `STATUS_ID | STATUS_MODULE`
abbrev pub status_empty : ℕ
status_empty = 0x01

abbrev pub status_id_module : ℕ
status_id_module = 0x06

-- What `sparse` leaves: the request, `pid_status`, and the name of the file, or "".
pub record Parsed : Type 0 where
  pub request : Request
  pub status : ℕ
  pub file : Text

-- The alias whose folder is taken: "101.ru" where there is none.
abbrev pub alias_text : Alias → Text
alias_text unset = codes "101.ru"
alias_text literal = codes "101.ru"
alias_text (copied s) = s

abbrev pub or_literal : Alias → Alias
or_literal unset = literal
or_literal literal = literal
or_literal (copied s) = copied s

-- `mRange[0] = 0` where no range was read.
abbrev pub or_whole : List (ℤ × ℕ) → List (ℤ × ℕ)
or_whole [] = (pos 0, 0) ∷ []
or_whole (x ∷ xs) = x ∷ xs

abbrev pub is_zero_int : ℤ → Bool
is_zero_int (pos n) = n == 0
is_zero_int (negsuc n) = false

-- `std::map<std::string, std::string>`: a key that is missing has the empty text.
module _ (aliases : List (Text × Text)) where
  unfoldable pub file_name_of : Request → Text
  unfolding lookup text_compare
  file_name_of r =
      let folder = text_of (lookup text_compare (alias_text r.alias) aliases) in
      if r.is_aac
      then folder
        ++ (text_of r.module_name
            ++ (47 ∷ (sub_path r.id ++ (47 ∷ (print_int r.id ++ codes ".aac")))))
      else folder ++ (text_of r.date ++ (47 ∷ (text_of r.hash ++ codes ".mp3")))

  -- The checks of `sparse` behind its loop.
  unfoldable pub check_request : Request → Parsed
  unfolding file_name_of
  check_request r0 =
      let r1 = record r0 { http = or_default r0.http (codes "1.1") } in
      let r = record r1 { ranges = if r1.is_aac then or_whole r1.ranges else r1.ranges } in
      let named = record r { alias = or_literal r.alias } in
      if not r.is_aac && not r.is_mp3
      then record { request = r; status = status_empty; file = [] }
      else if r.is_aac && (is_zero_int r.id || not (is_some r.module_name))
      then record { request = r1; status = status_id_module; file = [] }
      else if r.is_mp3 && (not (is_some r.date) || not (is_some r.hash))
      then record { request = r; status = status_id_module; file = [] }
      else record { request = named; status = 0; file = file_name_of named }

  -- `sparse`, on what was received up to a NUL. One more round than there are bytes is enough.
  unfoldable pub sparse : Text → Outcome Parsed
  unfolding c_str parse_lines check_request
  sparse received =
      let m = c_str received ++ (0 ∷ []) in
      parse_lines (suc (length m)) m new_request >>= λ r. done (check_request r)
