-- ===== src/Accordion/Aac/Stream.antt =====
-- accordion_V10.X/aac.cpp: the frames that are sent in one second.
use cproject.Base.{ℕ, List, Outcome}
use cproject.Accordion.File.{File}
use cproject.Accordion.Aac.Header.{aac_header_size, aac_frame_length, aac_frame_length_le}
use cproject.Accordion.Stream.{Format, Player, get_frames}

abbrev pub aac_format : Format
aac_format = record {
  header_size = aac_header_size;
  frame_length = aac_frame_length;
  frame_length_le = aac_frame_length_le;
}

-- `aac_GetFrames`
unfoldable pub aac_get_frames : Player → Outcome (List ℕ × Player)
aac_get_frames p = get_frames aac_format p
