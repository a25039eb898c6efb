-- ===== src/MusicgoAlias/Segment.antt =====
-- musicgo_alias/mp3bitrate.cpp and musicgo_alias/aacbitrate.cpp: the part of a file that is sent.
pub mod Mp3
pub mod Aac
pub mod Kept
pub mod Termination
use cproject.Base.{ℕ, Bool}
use cproject.Accordion.File.{File}

-- What `get_file_segment` leaves: its answer, `m_start` and `m_stop`, and the file.
pub record Segment : Type 0 where
  pub found : Bool
  pub start : ℕ
  pub stop : ℕ
  pub file : File
