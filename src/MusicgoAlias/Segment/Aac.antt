-- ===== src/MusicgoAlias/Segment/Aac.antt =====
-- musicgo_alias/aacbitrate.cpp: `Taacbitrate`. The parts of a header are those of the streamer's reader.
use cproject.Base.{
  ℕ, zero, suc, ◌+◌, ◌*◌, ◌/◌, Bool, true, false, not, ◌&&◌, ◌==◌, ltb, if◌then◌else◌, Option, none,
  some, List, length, drop, get_or, Outcome, done, crash, stuck, ◌>>=◌,
}
use cproject.Accordion.File.{File, read, after_read, seek_set}
use cproject.Accordion.Aac.Header.{aac_header_size, sf_table, sampling_index, length_of, aac_starts}
use cproject.Accordion.Aac.Seek.{starts_at}
use cproject.MusicgoAlias.Segment.{Segment}

-- `aac_IsValidFrameHeader`
unfoldable pub is_valid_header : List ℕ → Bool
unfolding aac_starts length_of
is_valid_header h = aac_starts h && not (ltb 5000 (length_of h))

-- `m_sampling_frequency` behind the check: 0 where the header does not come so far.
abbrev pub frequency_of : List ℕ → ℕ
frequency_of h = if aac_starts h then get_or sf_table (sampling_index h) 0 else 0

-- The loop of `get_start_pos`, with `rounds` positions to go.
unfoldable pub search_header : ℕ → List ℕ → ℕ → ℕ
unfolding starts_at is_valid_header
search_header zero buf i = 0
search_header (suc rounds) buf i =
    let rest = search_header rounds buf (suc i) in
    if starts_at buf i && is_valid_header (drop i buf) then i else rest

-- `get_start_pos`, from where the file stands.
unfoldable pub start_pos_from : File → ℕ
unfolding read search_header
start_pos_from f = let buf = read 50000 f in search_header (length buf) buf 0

-- What the walk over the frames leaves: `m_frame`, `m_sampling_frequency`, and the file.
pub record Walked : Type 0 where
  pub frames : ℕ
  pub frequency : ℕ
  pub file : File

-- The loop of `aac_SeekForFirstFrame`, on fuel; none is the answer false at the end of the file.
unfoldable pub walk_frames : ℕ → ℕ → ℕ → File → Outcome (Option Walked)
unfolding read after_read is_valid_header aac_starts length_of
walk_frames zero frames next f = stuck
walk_frames (suc fuel) frames next f =
    let h = read aac_header_size f in
    let behind = after_read aac_header_size f in
    let after = next + length_of h in
    let rest = walk_frames fuel (suc frames) after (seek_set (f.pos + length_of h) f) in
    if ltb (length h) aac_header_size
    then done none
    else if not (is_valid_header h)
    then done (some (record { frames = frames; frequency = frequency_of h; file = behind }))
    else if ltb after (length f.bytes)
    then rest
    else done (some (record { frames = suc frames; frequency = frequency_of h; file = behind }))

-- `play_seconds` is the whole part of `(float)(1024*m_frame)/m_sampling_frequency`, in floating point.
module _ (play_seconds : ℕ → ℕ → ℕ) where
  -- `bitrate` behind the walk: infinitely many seconds, of the frequency 0, are no int, and none divide by zero.
  unfoldable pub bitrate_of_walk : ℕ → Walked → Outcome ℕ
  bitrate_of_walk size w =
      let seconds = play_seconds w.frames w.frequency in
      if w.frames == 0
      then done 0
      else if w.frequency == 0
      then crash
      else if seconds == 0
      then crash
      else done (size / seconds)

  -- `get_start_frame` and the end of `get_file_segment`.
  abbrev pub segment_at : ℕ → ℕ → ℕ → ℕ → File → Segment
  segment_at start stop from bitrate f =
      let there = seek_set (start * bitrate + from) f in
      record {
        found = true;
        start = start * bitrate + from + start_pos_from there;
        stop = stop * bitrate;
        file = after_read 50000 there;
      }

  unfoldable pub segment_behind : ℕ → ℕ → ℕ → File → Option Walked → Outcome Segment
  unfolding bitrate_of_walk start_pos_from after_read
  segment_behind start stop from f none =
      done
        (record { found = false; start = start; stop = stop; file = seek_set (length f.bytes) f })
  segment_behind start stop from f (some w) = bitrate_of_walk (length f.bytes) w >>= λ bitrate.
      done (
        if bitrate == 0
        then record { found = false; start = start; stop = stop; file = w.file }
        else segment_at start stop from bitrate f)

  -- `get_file_segment`, on fuel for the walk.
  unfoldable pub get_file_segment : ℕ → File → ℕ → ℕ → Outcome Segment
  unfolding start_pos_from walk_frames segment_behind
  get_file_segment fuel f start stop =
      let from = start_pos_from f in
      walk_frames fuel 0 0 (seek_set from f) >>= segment_behind start stop from f
