-- ===== src/Accordion/Mpx/Stream/Copy.antt =====
-- accordion_V10.X/mpx.cpp: what `mpx_GetFrames` sends is the text of the file.
use cproject.Base.{ℕ, ◌≡◌, ◌≢◌, true, take, drop}
use cproject.Accordion.File.{File}
use cproject.Accordion.Mpx.Frame.{header_of, bitrate_index, is_valid_frame_header}
use cproject.Accordion.Mpx.Stream.{header_size}

-- The header that a read at `i` finds is not one of the free format.
abbrev pub NotFree : File → ℕ → Type 0
NotFree f i =
    let h = header_of (take header_size (drop i f.bytes)) in
    is_valid_frame_header h ≡ true → bitrate_index h ≢ 0
