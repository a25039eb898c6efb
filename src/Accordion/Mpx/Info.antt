-- ===== src/Accordion/Mpx/Info.antt =====
-- accordion_V10.X/mpx.cpp: what `mpx_GetFileInfo` finds out about a file.
pub mod Termination
use cproject.Base.{
  ℕ, zero, suc, ◌+◌, ◌-◌, ◌*◌, ◌/◌, Bool, true, false, ◌||◌, ◌==◌, ltb, leb, if◌then◌else◌, Option,
  none, some, List, length, Outcome, done, crash, stuck, ◌>>=◌,
}
use cproject.Accordion.File.{File, read, after_read, seek_set, seek_cur}
use cproject.Accordion.Mpx.Frame.{
  Header, header_of, bad_sync, version, layer, bitrate_index, rate_index, channels, rate_of,
  get_frame_size,
}
use cproject.Accordion.Mpx.Seek.{seek_to_1_frame}
use cproject.Accordion.Mpx.Stream.{header_size}

-- What the reference arguments get: the bitrate in bytes a second, before it is made a float.
pub record Info : Type 0 where
  pub bytes_per_second : ℕ
  pub spf : ℕ
  pub sr : ℕ
  pub frames : ℕ
  pub ch : ℕ
  pub frames_to_read : ℕ

-- The checks of the first header.
unfoldable pub accepts : Header → Bool
accepts h =
    if bad_sync h
    then false
    else if version h == 1 || ltb 3 (version h)
    then false
    else if ltb (layer h) 1 || ltb 3 (layer h)
    then false
    else if ltb (bitrate_index h) 1 || ltb 0x0E (bitrate_index h)
    then false
    else if leb 3 (rate_index h)
    then false
    else true

-- The walk from frame to frame, behind a header `h`; on fuel.
unfoldable pub count_frames : ℕ → Header → File → ℕ → Outcome ℕ
count_frames zero h f n = stuck
count_frames (suc fuel) h f n =
    let len = get_frame_size h in
    let g = seek_cur (len - header_size) f in
    let next = read header_size g in
    let more = count_frames fuel (header_of next) (after_read header_size g) (n + 1) in
    if len == 0 || ltb 50000 len
    then done n
    else if leb len header_size
    then done (n + 1)
    else if ltb (length next) header_size
    then done (n + 1)
    else more

-- Samples a frame.
unfoldable pub samples : Header → ℕ
samples h =
    if version h == 3
    then (if layer h == 3 then 384 else 1152)
    else if layer h == 3
    then 384
    else if layer h == 2
    then 1152
    else 576

-- The figures; a file that plays for less than a second divides by zero.
pub figures : Header → ℕ → ℕ → Outcome Info
figures h size n =
    let sr = rate_of (version h) (rate_index h) in
    let play_time = samples h * n / sr in
    if play_time == 0
    then crash
    else done (record {
      bytes_per_second = size / play_time;
      spf = samples h;
      sr = sr;
      frames = n;
      ch = if leb (channels h) 2 then 2 else 1;
      frames_to_read = sr / samples h;
    })

pub info_at : ℕ → File → Outcome (Option Info)
unfolding figures accepts count_frames
info_at pos f =
    let at = seek_set pos f in
    let h = header_of (read header_size at) in
    if ltb (length (read header_size at)) header_size
    then done none
    else if accepts h
    then (count_frames (suc (length f.bytes)) h (after_read header_size at) 0 >>= λ n.
        figures h (length f.bytes) n >>= λ i. done (some i))
    else done none

-- `mpx_GetFileInfo` on an open file; none is -1.
unfoldable pub get_file_info : File → Outcome (Option Info)
unfolding info_at
get_file_info f =
    seek_to_1_frame f >>= λ found. elim found [ none ↦ done none | some pos ↦ info_at pos f ]
