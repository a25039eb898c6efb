-- ===== src/Accordion/Aac/Info.antt =====
-- accordion_V10.X/aac.cpp: the walk of `aac_GetFileInfo` over the frames of a file.
pub mod Walk
use cproject.Base.{
  ℕ, zero, suc, ◌+◌, ltb, if◌then◌else◌, Option, none, some, List, length, Outcome, done, stuck,
}
use cproject.Accordion.File.{File, read, seek_set}
use cproject.Accordion.Aac.Header.{aac_header_size, Fields, aac_fields}
use cproject.Accordion.Aac.Seek.{aac_seek_to_1_frame}

-- The frames counted, and the fields of the last header.
pub record Counted : Type 0 where
  pub frames : ℕ
  pub fields : Fields

-- What a round does behind the check of a header: none is -1. The seek by the length less the header's
-- size, from behind the header, goes to the length from the header on.
walk_on :
    (ℕ → ℕ → File → Outcome (Option Counted))
    → ℕ
    → ℕ
    → File
    → Option Fields
    → Outcome (Option Counted)
walk_on loop next n f none = done none
walk_on loop next n f (some x) =
    if ltb (next + x.length) (length f.bytes)
    then loop (next + x.length) (n + 1) (seek_set (f.pos + x.length) f)
    else done (some (record { frames = n + 1; fields = x }))

-- The loop, on fuel; `next` is `m_next_file_pos`, and `n` frames are counted.
unfoldable pub aac_count_frames : ℕ → ℕ → ℕ → File → Outcome (Option Counted)
unfolding walk_on
aac_count_frames zero next n f = stuck
aac_count_frames (suc fuel) next n f =
    let h = read aac_header_size f in
    if ltb (length h) aac_header_size
    then done none
    else walk_on (aac_count_frames fuel) next n f (aac_fields h)

-- The search leaves the file at its start.
walk_from : ℕ → File → Option ℕ → Outcome (Option Counted)
unfolding aac_count_frames
walk_from fuel f none = done none
walk_from fuel f (some index) = aac_count_frames fuel index 0 (seek_set 0 f)

-- The search and the walk of `aac_GetFileInfo`, on an open file.
unfoldable pub aac_walk : ℕ → File → Outcome (Option Counted)
unfolding walk_from
aac_walk fuel f = walk_from fuel f (aac_seek_to_1_frame f)
