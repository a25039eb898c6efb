-- ===== src/Accordion/Stream.antt =====
-- The frames that are sent in one second: `mpx_GetFrames` of accordion_V10.X/mpx.cpp and
-- `aac_GetFrames` of accordion_V10.X/aac.cpp, which do the same over another header.
pub mod Copy
pub mod Returns
use cproject.Base.{
  ℕ, zero, suc, ◌+◌, ◌-◌, ◌≤◌, ◌==◌, ltb, leb, if◌then◌else◌, List, [], ◌++◌, length, Outcome, done,
  crash, stuck, ◌>>=◌,
}
use cproject.Accordion.File.{File, read, after_read}

-- A file format: the size of a frame's header (`c_header_size`), and the length of the frame behind a
-- header, 0 where the loop is to end.
pub record Format : Type 0 where
  pub header_size : ℕ
  pub frame_length : List ℕ → ℕ
  pub frame_length_le : (h : List ℕ) → frame_length h ≤ 5000

-- The locals of `mpx_GetFrames` and `aac_GetFrames`: the file, the whole frames in the buffer, and how many.
pub record Sent : Type 0 where
  pub file : File
  pub buf : List ℕ
  pub frames : ℕ

-- `Buf_size` of playlist.cpp: what the caller gives for the frames.
abbrev pub buf_size : ℕ
buf_size = 100000

-- One round: a frame more, or the end of the loop with what was read of the file by then.
pub data Round : Type 0 where
  frame : Sent → Round
  last : File → Round

-- The part behind the header `h` of a frame of `len` bytes. A frame shorter than its header makes the
-- count of bytes to read negative: as a `size_t` it reads past every buffer. The header and what can be
-- read of the frame are copied to the buffer of the caller, wherever that ends.
body : Format → List ℕ → ℕ → Sent → Outcome Round
body fmt h len s =
    if ltb len fmt.header_size
    then crash
    else (let rest = len - fmt.header_size in
        let f = after_read fmt.header_size s.file in
        let data' = read rest f in
        if ltb buf_size (length s.buf + fmt.header_size + length data')
        then crash
        else if ltb (length data') rest
        then done (last (after_read rest f))
        else done (
            frame (record {
              file = after_read rest f;
              buf = s.buf ++ (h ++ data');
              frames = s.frames + 1;
            })))

pub round : Format → Sent → Outcome Round
unfolding body
round fmt s =
    let h = read fmt.header_size s.file in
    let len = fmt.frame_length h in
    let end = done (last (after_read fmt.header_size s.file)) in
    if ltb (length h) fmt.header_size then end else if len == 0 then end else body fmt h len s

go_on : (Sent → Outcome Sent) → Sent → Round → Outcome Sent
go_on loop s (frame s') = loop s'
go_on loop s (last f) = done (record s { file = f })

-- The loop with `rounds` frames to go.
pub frames_loop : Format → ℕ → Sent → Outcome Sent
unfolding round go_on
frames_loop fmt zero s = done s
frames_loop fmt (suc rounds) s = round fmt s >>= go_on (frames_loop fmt rounds) s

-- The fields of `tmpx` and `taac` that these use: the open file, how many frames were sent of how many,
-- and how many are sent in one call.
pub record Player : Type 0 where
  pub file : File
  pub send_frame_number : ℕ
  pub total_frames : ℕ
  pub frames_to_read : ℕ

-- `mpx_GetFrames`, `aac_GetFrames`: the part of the buffer that counts, and the fields behind the call.
-- The loop leaves `send_frame_number` alone, so its test against `total_frames` is the same in every
-- round.
unfoldable pub get_frames : Format → Player → Outcome (List ℕ × Player)
unfolding frames_loop
get_frames fmt p =
    let start : Sent = record { file = p.file; buf = []; frames = 0 } in
    (if leb p.total_frames p.send_frame_number
      then done start
      else frames_loop fmt p.frames_to_read start)
    >>= λ s.
        done (s.buf, record p { file = s.file; send_frame_number = p.send_frame_number + s.frames })
