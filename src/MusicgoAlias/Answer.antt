-- ===== src/MusicgoAlias/Answer.antt =====
-- musicgo_alias/Parameters.cpp: `create_answer` and what is written of it.
pub mod Whole
pub mod Begun
pub mod Range
pub mod Promise
pub mod Sends
pub mod Excess
pub mod Refusal
pub mod Delete
pub mod Termination
use cproject.Base.{
  ℕ, zero, suc, ◌+◌, ◌-◌, Bool, true, false, not, ◌&&◌, ◌||◌, ◌==◌, ltb, if◌then◌else◌, Option,
  none, some, List, [], ◌∷◌, ◌++◌, length, take, Outcome, done, crash, stuck, ◌>>=◌,
}
use cproject.Base.Int.{ℤ, pos, negsuc, ◌+ℤ◌, ◌-ℤ◌, fits_int}
use cproject.Base.Text.{Text, codes}
use cproject.Accordion.File.{File, read, after_read, seek_set}
use cproject.MusicgoAlias.Request.{Request, Alias, unset, literal, copied}
use cproject.MusicgoAlias.Parse.{Parsed, sparse, text_of, print_int}
use cproject.MusicgoAlias.Sending.{Attempt, Delivered, bsend}
use cproject.MusicgoAlias.Segment.{Segment}
use cproject.MusicgoAlias.Reply.{
  Reply, System, ConfigInfo, refusal_line, refuse, content_length, header_line, get_log_str,
}
use cproject.MusicgoAlias.Segment.Aac
use cproject.MusicgoAlias.Segment.Mp3

-- `BUFFER_SIZE`
abbrev pub chunk_size : ℕ
chunk_size = 1024

-- What the loop of `create_answer` sends and counts.
pub record Body : Type 0 where
  pub bytes : List ℕ
  pub size : ℕ

abbrev pub min_of : ℕ → ℕ → ℕ
min_of a b = if ltb b a then b else a

-- What a round does behind its sending: `size` bytes were to be sent, and `rest` are still to come.
unfoldable pub behind_round : Delivered → ℕ → ℕ → Outcome Body → Outcome Body
behind_round s size rest more =
    if s.waits
    then stuck
    else if not s.ok
    then done (record { bytes = s.bytes; size = 0 })
    else if rest == 0
    then done (record { bytes = s.bytes; size = size })
    else (more >>= λ b. done (record { bytes = s.bytes ++ b.bytes; size = size + b.size }))

-- The loop, on fuel: `end` is `data_end` behind its increment. Where `read` fails, -1 is less than
-- `data_end`, nothing is sent, and one is added to `data_end`, round after round, until it overflows.
unfoldable pub send_file : (ℕ → Bool) → ℕ → List Attempt → ℕ → File → Outcome Body
unfolding read after_read bsend behind_round
send_file unreadable zero attempts end f = stuck
send_file unreadable (suc fuel) attempts end f =
    let chunk = read chunk_size f in
    let len = min_of (length chunk) end in
    let s = bsend attempts (take len chunk) in
    let more = send_file unreadable fuel s.left (end - len) (after_read chunk_size f) in
    if unreadable f.pos
    then crash
    else if length chunk == 0
    then done (record { bytes = []; size = 0 })
    else behind_round s len (end - len) more

-- `lseek(mf, start_pos + data_begin, SEEK_SET)`: a place before the file is refused.
abbrev pub seek_range : ℤ → File → File
seek_range (pos n) f = seek_set n f
seek_range (negsuc n) f = f

-- `m_len` behind the choice of the segment.
abbrev pub segment_length : ℕ → Segment → ℕ
segment_length size s = if s.found then min_of size s.stop else size

-- `data_end + 1`: a range without an end goes to the last byte of the length.
abbrev pub end_of : ℕ → ℕ → ℕ
end_of range_stop len = if range_stop == 0 then len else range_stop + 1

-- Whether an `int` holds what is computed for `lseek` and the header.
unfoldable pub sums_hold : ℕ → ℤ → ℕ → Bool
unfolding ◌+ℤ◌ ◌-ℤ◌
sums_hold start begin end =
    fits_int (pos start +ℤ begin)
    && fits_int (pos end -ℤ pos 1 -ℤ begin)
    && fits_int (content_length end begin)

abbrev pub kind_of : Request → Text
kind_of r = if r.is_aac then codes "aac" else codes "mpeg"

module _ (sys : System) (config : ConfigInfo) where
  -- The segment of a file: all of it with a token.
  unfoldable pub segment_with : Option Text → Bool → File → Outcome Segment
  unfolding Aac.get_file_segment Mp3.get_file_segment
  segment_with (some t) is_aac f = done (record { found = false; start = 0; stop = 0; file = f })
  segment_with none is_aac f =
      if is_aac
      then Aac.get_file_segment sys.play_seconds (suc (length f.bytes)) f config.start_position
          config.duration
      else Mp3.get_file_segment f config.start_position config.duration

  unfoldable pub segment_of : Request → List ℕ → Outcome Segment
  unfolding segment_with
  segment_of r bytes = segment_with r.token r.is_aac (record { bytes = bytes; pos = 0 })

  -- The header, and the file behind it if the header could be sent; `data_end++` comes between them.
  unfoldable pub send_range : Request → ℤ → ℕ → List ℕ → Segment → List Attempt → Outcome Reply
  unfolding bsend send_file sums_hold
  send_range r begin range_stop bytes segment attempts =
      let len = segment_length (length bytes) segment in
      let end = end_of range_stop len in
      let header = header_line (text_of r.http) sys.str_time begin end len (kind_of r) in
      let head = bsend attempts header in
      let there = seek_range (pos segment.start +ℤ begin) segment.file in
      let answer : Reply = record {
        ok = head.ok;
        received = head.bytes;
        request = r;
        response = 206;
        response_size = 0;
        header_size = if head.ok then length header else 0;
        file_size = length bytes;
        range_start = begin;
        range_stop = range_stop;
      } in
      if not (sums_hold segment.start begin end) || ltb chunk_size (length header)
      then crash
      else if head.waits
      then stuck
      else if not head.ok
      then done answer
      else if ltb 2147483647 end
      then crash
      else (send_file sys.unreadable (suc (length bytes)) head.left end there >>= λ body.
          done (record answer { received = head.bytes ++ body.bytes; response_size = body.size }))

  -- The first range: behind the end of an empty map nothing may be read.
  unfoldable pub send_first : Request → List (ℤ × ℕ) → List ℕ → List Attempt → Outcome Reply
  unfolding segment_of send_range
  send_first r [] bytes attempts = crash
  send_first r ((begin, range_stop) ∷ ranges) bytes attempts =
      segment_of r bytes >>= λ segment. send_range r begin range_stop bytes segment attempts

  unfoldable pub send_opened : Request → Option (List ℕ) → List Attempt → Outcome Reply
  unfolding refuse send_first
  send_opened r none attempts = refuse 403 (codes "403 Forbidden") r attempts
  send_opened r (some bytes) attempts = send_first r r.ranges bytes attempts

  -- `create_answer`, behind `sparse`.
  unfoldable pub answer_parsed : Parsed → List Attempt → Outcome Reply
  unfolding refuse send_opened
  answer_parsed p attempts =
      if not (p.status == 0) || length p.file == 0
      then refuse 405 (codes "405 Method Not Allowed") p.request attempts
      else if not (sys.exists p.file)
      then refuse 404 (codes "404 Not Found") p.request attempts
      else send_opened p.request (sys.opened p.file) attempts

  unfoldable pub create_answer : Text → List Attempt → Outcome Reply
  unfolding sparse answer_parsed
  create_answer received attempts = sparse config.aliases received >>= λ p. answer_parsed p attempts

  -- The destructor frees `mData.alias`, which a literal must not be.
  abbrev pub delete_with : Alias → Text → Outcome Text
  delete_with unset s = done s
  delete_with literal s = crash
  delete_with (copied t) s = done s

  -- `query_parameters`: the log line of a request.
  unfoldable pub query_parameters : Text → Text → Text → Text → List Attempt → Outcome Text
  unfolding create_answer get_log_str
  query_parameters ip request_time response_time received attempts =
      create_answer received attempts >>= λ a.
      delete_with a.request.alias (get_log_str ip request_time response_time a)
