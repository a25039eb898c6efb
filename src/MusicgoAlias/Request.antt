-- ===== src/MusicgoAlias/Request.antt =====
-- musicgo_alias/Parameters.cpp: a request, and what `get_file_data` reads in it. Numbers are those that an int
-- holds.
use Prim.Native.Nat.{compare, Ordering}
use cproject.Base.{
  ℕ, ◌+◌, ◌-◌, ◌%◌, ◌^◌, Bool, true, false, ◌||◌, ◌==◌, ltb, if◌then◌else◌, Option, none, some,
  List, [], ◌∷◌, length, take, drop, Outcome, done, crash, ◌>>=◌,
}
use cproject.Base.Int.{ℤ, pos, negsuc, pos_part, neg_part}
use cproject.Base.Text.{Text, codes, c_str, text_eq, atoi}
use cproject.Base.Map.{insert}
use cproject.MusicgoAlias.Memory.{Memory, tokens, strstr, strtol_end}

-- `mData.alias`: null, a copy of what was received, or the literal of the default.
pub data Alias : Type 0 where
  unset literal : Alias
  copied : Text → Alias

-- `mData`, `mRange` and the texts of `msg_log`; a null pointer is none.
pub record Request : Type 0 where
  pub is_aac : Bool
  pub is_mp3 : Bool
  pub http : Option Text
  pub id : ℤ
  pub module_name : Option Text
  pub date : Option Text
  pub hash : Option Text
  pub start_position : ℤ
  pub token : Option Text
  pub alias : Alias
  pub ranges : List (ℤ × ℕ)
  pub username : Option Text
  pub userpass : Option Text
  pub request : Option Text
  pub user_agent : Option Text
  pub referer : Option Text

-- What the constructor sets; it leaves `start_position` as it is, and nothing reads it.
abbrev pub new_request : Request
new_request = record {
  is_aac = false;
  is_mp3 = false;
  http = none;
  id = pos 0;
  module_name = none;
  date = none;
  hash = none;
  start_position = pos 0;
  token = none;
  alias = unset;
  ranges = [];
  username = none;
  userpass = none;
  request = none;
  user_agent = none;
  referer = none;
}

-- What a piece of the request can set, in the order in which `get_file_data` looks for it.
pub data Field : Type 0 where
  token start id module_name date hash bytes alias login password http : Field

abbrev pub fields : List (Text × Field)
fields =
    (codes "token=", Field.token)
    ∷ (codes "start=", Field.start)
    ∷ (codes "id=", Field.id)
    ∷ (codes "module=", Field.module_name)
    ∷ (codes "date=", Field.date)
    ∷ (codes "hash=", Field.hash)
    ∷ (codes "bytes=", Field.bytes)
    ∷ (codes "alias=", Field.alias)
    ∷ (codes "login=", Field.login)
    ∷ (codes "password=", Field.password)
    ∷ (codes "HTTP/", Field.http)
    ∷ []

-- The first of the keys that stands anywhere in the piece, and the memory behind it.
unfoldable pub field_of : List (Text × Field) → Memory → Option (Field × Memory)
unfolding strstr
field_of [] m = none
field_of ((key, field) ∷ fs) m =
    let rest = field_of fs m in
    elim (strstr m key) [ some v ↦ some (field, drop (length key) v) | none ↦ rest ]

-- `TOKEN_SIZE`
abbrev pub token_size : ℕ
token_size = 32

-- The first "%2F" is replaced by a slash.
unfoldable pub unescape_slash : Text → Text
unfolding text_eq
unescape_slash [] = []
unescape_slash (c ∷ s) =
    let rest = unescape_slash s in
    if text_eq (take 3 (c ∷ s)) (codes "%2F") then 47 ∷ drop 2 s else c ∷ rest

abbrev pub compare_ℤ : ℤ → ℤ → Ordering
compare_ℤ a b = compare (pos_part a + neg_part b) (pos_part b + neg_part a)

-- What `strtol` makes of a number, a `long`, and an `int` of that.
abbrev pub long_max : ℕ
long_max = 9223372036854775807

unfoldable pub to_int : ℤ → ℤ
to_int (pos n) =
    let k = (if ltb long_max n then long_max else n) % 2 ^ 32 in
    if ltb k 2147483648 then pos k else negsuc (4294967295 - k)
to_int (negsuc n) =
    let k = (if ltb long_max n then long_max else n) % 2 ^ 32 in
    if ltb k 2147483648 then negsuc k else pos (4294967295 - k)

abbrev pub abs : ℤ → ℕ
abs a = pos_part a + neg_part a

-- "bytes=": the second number is read one byte behind the end of the first, wherever that is. Both are
-- kept as an `int`; `abs` is that of C, and has no meaning for the least `int`.
unfoldable pub set_range : Memory → Request → Outcome Request
unfolding strtol_end atoi insert to_int
set_range v r =
    let behind = drop (strtol_end v + 1) v in
    let last = to_int (atoi behind) in
    if length behind == 0 || abs last == 2147483648
    then crash
    else done (record r { ranges = insert compare_ℤ (to_int (atoi v)) (abs last) r.ranges })

-- What a key in a piece sets.
unfoldable pub set_field : Field → Memory → Request → Outcome Request
unfolding c_str atoi unescape_slash set_range
set_field Field.token v r =
    done (record r { token = if ltb (length (c_str v)) token_size then none else some (c_str v) })
set_field Field.start v r = done (record r { start_position = atoi v })
set_field Field.id v r = done (record r { id = atoi v; is_aac = true })
set_field Field.module_name v r = done (record r { module_name = some (c_str v) })
set_field Field.date v r = done (record r { date = some (unescape_slash (c_str v)); is_mp3 = true })
set_field Field.hash v r = done (record r { hash = some (c_str v) })
set_field Field.bytes v r = set_range v r
set_field Field.alias v r = done (record r { alias = copied (c_str v) })
set_field Field.login v r = done (record r { username = some (c_str v) })
set_field Field.password v r = done (record r { userpass = some (c_str v) })
set_field Field.http v r = done (record r { http = some (c_str v) })

unfoldable pub set_found : Option (Field × Memory) → Request → Outcome Request
unfolding set_field
set_found none r = done r
set_found (some (field, v)) r = set_field field v r

unfoldable pub set_all : List Memory → Request → Outcome Request
unfolding field_of set_found
set_all [] r = done r
set_all (piece ∷ ps) r = set_found (field_of fields piece) r >>= set_all ps

-- " ?&"
abbrev pub marks : Text
marks = codes " ?&"

-- `get_file_data`
unfoldable pub get_file_data : Memory → Request → Outcome Request
unfolding tokens set_all
get_file_data v r = set_all (tokens marks false v) r
