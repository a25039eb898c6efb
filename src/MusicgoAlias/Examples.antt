-- ===== src/MusicgoAlias/Examples.antt =====
-- A request for a range of a file of ten bytes, and requests that go wrong.
use cproject.Base.{
  ℕ, suc, ◌<◌, ◌≡◌, ◌≢◌, ◌⊎◌, inl, inr, refl, sym, ap, subst, ◌∙◌, Bool, Bool-cases, true, false,
  not, ltb, none, some, List, [], ◌∷◌, ◌++◌, length, take, drop, drop_all, arith, done, crash,
  stuck,
}
use cproject.Base.Int.{pos}
use cproject.Base.Text.{Text, codes, c_str, text_eq, text_compare, atoi, digits_value}
use cproject.Base.Map.{lookup}
use cproject.Rotator.Timer.{decimal}
use cproject.MusicgoAlias.Memory.{among, count_while, until, token_at, tokens, cut, strstr}
use cproject.MusicgoAlias.Request.{
  Request, literal, copied, new_request, field_of, set_field, set_found, set_all, get_file_data,
}
use cproject.MusicgoAlias.Parse.{
  Parsed, sparse, parse_lines, read_line, read_get, read_range, read_data, read_names,
  check_request, file_name_of,
}
use cproject.MusicgoAlias.Answer.Termination.{AllLong, create_answer-ne-stuck}
use cproject.MusicgoAlias.Segment.Termination.{Long}
use cproject.MusicgoAlias.Segment.Aac.{is_valid_header}
use cproject.Accordion.Aac.Header.{aac_starts, syncword, length_of}
use cproject.Base.Below.{passes_below, passes_at}
use cproject.MusicgoAlias.Sending.{Attempt, again, failed, takes, bsend}
use cproject.MusicgoAlias.Segment.{Segment}
use cproject.MusicgoAlias.Reply.{Reply, System, ConfigInfo, refusal_line, refuse}
use cproject.MusicgoAlias.Answer.{answer_parsed, create_answer, query_parameters}
use cproject.MusicgoAlias.Answer.Promise.{bytes_of_range}
use cproject.MusicgoAlias.Answer.Delete.{query_parameters-crash}

abbrev sys : System
sys = record {
  exists = λ file. true;
  opened = λ file. some (10 ∷ 11 ∷ 12 ∷ 13 ∷ 14 ∷ 15 ∷ 16 ∷ 17 ∷ 18 ∷ 19 ∷ []);
  str_time = codes "now";
  play_seconds = λ frames frequency. 1;
  unreadable = λ i. false;
}

abbrev config : ConfigInfo
config = record { aliases = (codes "a", codes "/m/") ∷ []; start_position = 10; duration = 40 }

abbrev key : Text
key = codes "0123456789abcdef0123456789abcdef"

abbrev crlf : Text
crlf = 13 ∷ 10 ∷ []

abbrev get : Text
get = codes "GET /?id=20007&module=m&token=" ++ (key ++ codes "&alias=a HTTP/1.1")

abbrev received : Text
received = get ++ (crlf ++ (codes "Range: bytes=2-3" ++ (crlf ++ crlf)))

abbrev ranged : Request
ranged = record {
  is_aac = true;
  is_mp3 = false;
  http = some (codes "1.1");
  id = pos 20007;
  module_name = some (codes "m");
  date = none;
  hash = none;
  start_position = pos 0;
  token = some key;
  alias = copied (codes "a");
  ranges = (pos 2, 3) ∷ [];
  username = none;
  userpass = none;
  request = some get;
  user_agent = none;
  referer = none;
}

abbrev parsed : Parsed
parsed = record { request = ranged; status = 0; file = codes "/m/m/2/20007.aac" }

abbrev file_bytes : List ℕ
file_bytes = 10 ∷ 11 ∷ 12 ∷ 13 ∷ 14 ∷ 15 ∷ 16 ∷ 17 ∷ 18 ∷ 19 ∷ []

abbrev segment : Segment
segment = record {
  found = false;
  start = 0;
  stop = 0;
  file = record { bytes = file_bytes; pos = 0 };
}

abbrev attempts : List Attempt
attempts = takes 99 ∷ again ∷ takes 3 ∷ []

-- Four bytes are sent.
body_received : bytes_of_range 2 3 file_bytes segment ≡ 12 ∷ 13 ∷ 14 ∷ 15 ∷ []
body_received = refl

-- The client goes away behind its first bytes.
abbrev cut_off : List Attempt
cut_off = takes 99 ∷ again ∷ failed ∷ []

-- No header of an aac file stands in it.
no_header : passes_below (λ i. not (is_valid_header (take 7 (drop i file_bytes)))) 10 ≡ true
unfolding passes_below is_valid_header aac_starts syncword
no_header = refl

past_the_end : is_valid_header [] ≡ false
unfolding is_valid_header aac_starts syncword
past_the_end = refl

contrary : (b : Bool) → b ≡ true → not b ≡ true → ⊥
contrary true e f = cc
contrary false e f = cc

true-false : true ≡ false → ⊥
true-false e = cc

file_bytes-Long : Long file_bytes
file_bytes-Long i valid = by_place (Bool-cases (ltb i 10))
  where
    by_place : (ltb i 10 ≡ true) ⊎ (ltb i 10 ≡ false) → 0 < length_of (take 7 (drop i file_bytes))
    by_place (inl lt) = absurd (
        contrary (is_valid_header (take 7 (drop i file_bytes))) valid (
          passes_at (λ k. not (is_valid_header (take 7 (drop k file_bytes)))) 10 i (ground arith)
            no_header))
    by_place (inr ge) =
        let nothing : drop i file_bytes ≡ [] = drop_all i file_bytes (ground arith) in
        absurd
          (true-false (sym valid ∙ ap (λ m. is_valid_header (take 7 m)) nothing ∙ past_the_end))

sys-AllLong : AllLong sys
sys-AllLong name bytes e = let same : file_bytes ≡ bytes = cc in subst Long same file_bytes-Long

create_answer-ne-stuck_example : create_answer sys config received cut_off ≢ stuck
create_answer-ne-stuck_example =
    create_answer-ne-stuck sys config received cut_off sys-AllLong
      (λ e. cc, (λ e. cc, (λ e. cc, tt)))

-- A request that names no file.
abbrev empty : Text
empty = codes "GET / HTTP/1.0" ++ (crlf ++ crlf)

abbrev refused : Parsed
refused = record {
  request = record new_request {
    http = some (codes "1.0");
    request = some (codes "GET / HTTP/1.0");
  };
  status = 1;
  file = [];
}

sparse-empty : sparse config.aliases empty ≡ done refused
unfolding sparse c_str parse_lines among count_while until token_at read_line read_get read_range
    read_data read_names strstr text_eq get_file_data tokens set_all field_of set_found set_field
    cut check_request
sparse-empty = refl

-- A request without an alias, for a file that is not there.
abbrev no_alias : Text
no_alias = codes "GET /?id=7&module=m HTTP/1.1" ++ (crlf ++ crlf)

abbrev no_files : System
no_files = record sys { exists = λ file. false }

abbrev plain : Request
plain = record new_request {
  is_aac = true;
  http = some (codes "1.1");
  id = pos 7;
  module_name = some (codes "m");
  request = some (codes "GET /?id=7&module=m HTTP/1.1");
}

read_plain :
    let m = c_str no_alias ++ (0 ∷ []) in parse_lines (suc (length m)) m new_request ≡ done plain
unfolding c_str parse_lines among count_while until token_at read_line read_get read_range read_data
    read_names strstr text_eq get_file_data tokens set_all field_of set_found set_field atoi
    digits_value cut
read_plain = refl

plain_accepted : (check_request config.aliases plain).status ≡ 0
unfolding check_request
plain_accepted = refl

abbrev not_found : Reply
not_found = record {
  ok = false;
  received = refusal_line (some (codes "1.1")) (codes "404 Not Found");
  request = record plain { ranges = (pos 0, 0) ∷ []; alias = literal };
  response = 404;
  response_size = 24;
  header_size = 0;
  file_size = 0;
  range_start = pos 0;
  range_stop = 0;
}

answered_plain : create_answer no_files config no_alias [] ≡ done not_found
unfolding create_answer sparse answer_parsed refuse bsend check_request file_name_of lookup
    text_compare c_str parse_lines among count_while until token_at read_line read_get read_range
    read_data read_names strstr text_eq get_file_data tokens set_all field_of set_found set_field
    atoi digits_value cut decimal
answered_plain = refl

query_parameters-crash_example :
    query_parameters no_files config (codes "::1") (codes "now") (codes "0") no_alias [] ≡ crash
query_parameters-crash_example =
    query_parameters-crash no_files config (codes "::1") (codes "now") (codes "0") no_alias [] plain
      not_found read_plain refl plain_accepted answered_plain
