-- ===== src/MusicgoAlias/Segment/Mp3.antt =====
-- musicgo_alias/mp3bitrate.cpp: `Tmp3_bitrate`. The tests on a header are those of the streamer's reader.
use Prim.Native.Nat.{bit_and}
use cproject.Base.{
  ℕ, zero, suc, ◌+◌, ◌-◌, ◌*◌, ◌/◌, true, false, ◌==◌, ltb, if◌then◌else◌, Option, none, some, List,
  length, drop, get_or, Outcome, done, crash, ◌>>=◌,
}
use cproject.Accordion.File.{File, read, after_read, seek_set}
use cproject.Accordion.Mpx.Frame.{
  Header, header_of, version, layer, bitrate_index, rate_index, padding, is_valid_frame_header,
  bitrate_of, rate_of, size_of,
}
use cproject.Accordion.Mpx.Seek.{buffer_size, Look, found, over, onward, get_start_pos}
use cproject.MusicgoAlias.Segment.{Segment}

-- `calc_bitrate`, in bit/s.
unfoldable pub calc_bitrate : ℕ → ℕ → ℕ → ℕ
unfolding bitrate_of
calc_bitrate ver br lay = bitrate_of ver lay br * 1000

abbrev pub header_bitrate : Header → ℕ
header_bitrate h = calc_bitrate (version h) (bitrate_index h) (layer h)

-- `get_frame_size`
unfoldable pub frame_size_of : Header → ℕ
unfolding is_valid_frame_header calc_bitrate rate_of size_of
frame_size_of h =
    if is_valid_frame_header h
    then size_of (version h) (layer h) (header_bitrate h) (rate_of (version h) (rate_index h))
        (padding h)
    else 0

-- The body of the loop at two bytes that look like the start of a frame.
unfoldable pub look_for : List ℕ → ℕ → Look
unfolding frame_size_of
look_for buf pos =
    let len = frame_size_of (header_of (drop pos buf)) in
    if ltb (length buf - pos) 10
    then over
    else if len == 0
    then onward
    else if ltb (length buf) (pos + len + 4)
    then over
    else if frame_size_of (header_of (drop (pos + len) buf)) == 0
    then onward
    else found

-- The buffer has 50000 bytes, zeros behind what was read.
unfoldable pub look_for_at : List ℕ → ℕ → Outcome Look
unfolding look_for
look_for_at buf pos =
    if get_or buf pos 0 == 0xFF
    then (if ltb (pos + 1) buffer_size
        then done
            (if bit_and (get_or buf (pos + 1) 0) 0xE0 == 0xE0 then look_for buf pos else onward)
        else crash)
    else done onward

abbrev pub look_next : (ℕ → Outcome (Option ℕ)) → ℕ → Look → Outcome (Option ℕ)
look_next loop pos found = done (some pos)
look_next loop pos over = done none
look_next loop pos onward = loop (suc pos)

-- The loop, with `rounds` positions to go.
unfoldable pub search_frame : ℕ → List ℕ → ℕ → Outcome (Option ℕ)
unfolding look_for_at
search_frame zero buf pos = done none
search_frame (suc rounds) buf pos = look_for_at buf pos >>= look_next (search_frame rounds buf) pos

-- What `mp3_SeekForFirstFrame` finds: how far on the frame is, and `bitrate`, of the frame behind it.
pub record FirstFrame : Type 0 where
  pub offset : ℕ
  pub bitrate : ℕ

abbrev pub first_frame : List ℕ → Option ℕ → Option FirstFrame
first_frame buf none = none
first_frame buf (some pos) =
    let len = frame_size_of (header_of (drop pos buf)) in
    some (record { offset = pos; bitrate = header_bitrate (header_of (drop (pos + len) buf)) })

-- `mp3_SeekForFirstFrame`, from where the file stands.
unfoldable pub seek_for_first_frame : File → Outcome (Option FirstFrame)
unfolding read search_frame frame_size_of calc_bitrate
seek_for_first_frame f =
    let buf = read buffer_size f in
    search_frame (length buf) buf 0 >>= λ at. done (first_frame buf at)

-- `get_bitrate`, in bytes a second.
abbrev pub get_bitrate : FirstFrame → ℕ
get_bitrate x = x.bitrate / 8

-- The answer of `get_file_segment` behind the second search, from `at` on: 0 where it finds no frame.
abbrev pub segment_from : ℕ → ℕ → File → FirstFrame → Option FirstFrame → Segment
segment_from at stop f first none = record {
  found = true;
  start = 0;
  stop = stop * get_bitrate first;
  file = f;
}
segment_from at stop f first (some next) = record {
  found = true;
  start = at + next.offset;
  stop = stop * get_bitrate next;
  file = f;
}

-- `get_start_frame` and the end of `get_file_segment`.
unfoldable pub segment_behind : ℕ → ℕ → ℕ → File → Option FirstFrame → Outcome Segment
unfolding seek_for_first_frame
segment_behind start stop from f none =
    done (record { found = false; start = start; stop = stop; file = f })
segment_behind start stop from f (some first) =
    let at = start * get_bitrate first + (from + first.offset) in
    let there = seek_set at f in
    seek_for_first_frame there >>= λ next.
    done (segment_from at stop (after_read buffer_size there) first next)

-- `get_file_segment`. A file of fewer than ten bytes has no start: the file is left at its end, where no frame
-- is found.
unfoldable pub get_file_segment : File → ℕ → ℕ → Outcome Segment
unfolding read get_start_pos seek_for_first_frame after_read segment_behind
get_file_segment f start stop =
    let there = seek_set (get_start_pos f) f in
    if ltb (length (read 10 (seek_set 0 f))) 10
    then segment_behind start stop 0 (seek_set (length f.bytes) f) none
    else (seek_for_first_frame there >>= λ first.
        segment_behind start stop (get_start_pos f) (after_read buffer_size there) first)
