-- ===== src/MusicgoAlias/Reply.antt =====
-- musicgo_alias/Parameters.cpp: what an answer consists of: its lines, its numbers, and the line of the log.
use cproject.Base.{
  ℕ, ◌+◌, Bool, false, ltb, if◌then◌else◌, Option, none, some, List, [], ◌∷◌, ◌++◌, length, Outcome,
  done, crash, stuck,
}
use cproject.Base.Int.{ℤ, pos, ◌-ℤ◌}
use cproject.Base.Text.{Text, codes}
use cproject.MusicgoAlias.Request.{Request}
use cproject.MusicgoAlias.Parse.{text_of, print_int}
use cproject.MusicgoAlias.Sending.{Attempt, bsend}

-- What `create_answer` leaves: its answer, the bytes that the client got, the request, and the numbers of
-- `msg_log`.
pub record Reply : Type 0 where
  pub ok : Bool
  pub received : List ℕ
  pub request : Request
  pub response : ℕ
  pub response_size : ℕ
  pub header_size : ℕ
  pub file_size : ℕ
  pub range_start : ℤ
  pub range_stop : ℕ

-- The system that the server runs on: which files are there, what can be read of those that can be
-- opened, the text of the time, the division in floating point, and at which places of the file that is
-- sent `read` fails, each time it is called there.
pub record System : Type 0 where
  pub exists : Text → Bool
  pub opened : Text → Option (List ℕ)
  pub str_time : Text
  pub play_seconds : ℕ → ℕ → ℕ
  pub unreadable : ℕ → Bool

-- The part of the configuration that an answer depends on.
pub record ConfigInfo : Type 0 where
  pub aliases : List (Text × Text)
  pub start_position : ℕ
  pub duration : ℕ

-- "HTTP/%s ..."
abbrev pub refusal_line : Option Text → Text → Text
refusal_line http what = codes "HTTP/" ++ (text_of http ++ (32 ∷ (what ++ (10 ∷ 10 ∷ []))))

-- An answer without a file: the line is printed into 1024 bytes, the last one for its end.
unfoldable pub refuse : ℕ → Text → Request → List Attempt → Outcome Reply
unfolding bsend
refuse code what r attempts =
    let line = refusal_line r.http what in
    if ltb 1023 (length line)
    then crash
    else if (bsend attempts line).waits
    then stuck
    else done (record {
      ok = false;
      received = (bsend attempts line).bytes;
      request = r;
      response = code;
      response_size = length line;
      header_size = 0;
      file_size = 0;
      range_start = pos 0;
      range_stop = 0;
    })

-- `(data_end-data_begin)+1`
abbrev pub content_length : ℕ → ℤ → ℤ
content_length end begin = pos end -ℤ begin

-- The texts one behind the other.
abbrev pub joined : List Text → Text
joined [] = []
joined (s ∷ ss) = s ++ joined ss

-- `RESPONSE206`, of `data_begin`, `data_end + 1` and `m_len`.
abbrev pub header_line : Text → Text → ℤ → ℕ → ℕ → Text → Text
header_line http time begin end len kind = joined (
    codes "HTTP/"
    ∷ http
    ∷ codes " 206 Partial Content\nDate: "
    ∷ time
    ∷ codes " GMT\nContent-Range: bytes "
    ∷ print_int begin
    ∷ codes "-"
    ∷ print_int (pos end -ℤ pos 1)
    ∷ codes "/"
    ∷ print_int (pos len)
    ∷ codes "\nContent-Length: "
    ∷ print_int (content_length end begin)
    ∷ codes "\nConnection: keep-alive\nContent-Type: audio/"
    ∷ kind
    ∷ codes ";q=0.9,audio/mpeg,*/*;q=0.8\nAccess-Control-Allow-Origin: *\n"
    ∷ codes
        "Cache-Control: no-cache, no-store, max-age=0\nPragma: no-cache\nKeep-Alive: timeout=3\n\n"
    ∷ [])

-- `MARKER_EMPTY`
abbrev pub or_dash : Option Text → Text
or_dash none = codes "-"
or_dash (some s) = s

-- The part of the log line behind the request.
unfoldable pub log_numbers : Text → Reply → Text
log_numbers response_time a =
    let num : ℕ → Text = λ n. print_int (pos n) in
    joined (
      codes " "
      ∷ num a.response
      ∷ codes " "
      ∷ num (a.header_size + a.response_size)
      ∷ codes " "
      ∷ or_dash a.request.referer
      ∷ codes " "
      ∷ or_dash a.request.user_agent
      ∷ codes " "
      ∷ response_time
      ∷ codes " ( "
      ∷ num a.header_size
      ∷ codes " "
      ∷ num a.response_size
      ∷ codes " "
      ∷ num a.file_size
      ∷ codes " "
      ∷ print_int a.range_start
      ∷ codes " "
      ∷ num a.range_stop
      ∷ codes ")\n"
      ∷ [])

-- Nothing is written behind a null pointer.
abbrev pub log_request : Option Text → Text → Text
log_request none rest = []
log_request (some s) rest = s ++ rest

-- `get_log_str`, of the address, the time of the request and the time taken.
unfoldable pub get_log_str : Text → Text → Text → Reply → Text
unfolding log_numbers
get_log_str ip request_time response_time a = joined (
    ip
    ∷ codes " "
    ∷ or_dash a.request.username
    ∷ codes " "
    ∷ or_dash a.request.userpass
    ∷ codes " ["
    ∷ request_time
    ∷ codes "] "
    ∷ log_request a.request.request (log_numbers response_time a)
    ∷ [])
