-- ===== src/Accordion/Mpx/Stream.antt =====
-- accordion_V10.X/mpx.cpp: the frames that are sent in one second.
pub mod Copy
use cproject.Base.{ℕ, ◌≤◌, ltb, if◌then◌else◌, List, Outcome, arith}
use cproject.Accordion.Mpx.Frame.{header_of, is_valid_frame_header, get_frame_size}
use cproject.Accordion.Stream.{Format, Player, get_frames}

-- `c_header_size`
abbrev pub header_size : ℕ
header_size = 4

-- The checks of a header in the loop of `mpx_GetFrames`; 0 where they break the loop.
unfoldable pub mpx_frame_length : List ℕ → ℕ
mpx_frame_length bs =
    let len = get_frame_size (header_of bs) in
    if is_valid_frame_header (header_of bs) then (if ltb 5000 len then 0 else len) else 0

pub mpx_frame_length_le : (bs : List ℕ) → mpx_frame_length bs ≤ 5000
unfolding mpx_frame_length
mpx_frame_length_le bs = ground arith

abbrev pub mpx_format : Format
mpx_format = record {
  header_size = header_size;
  frame_length = mpx_frame_length;
  frame_length_le = mpx_frame_length_le;
}

-- `mpx_GetFrames`
unfoldable pub mpx_get_frames : Player → Outcome (List ℕ × Player)
mpx_get_frames p = get_frames mpx_format p
