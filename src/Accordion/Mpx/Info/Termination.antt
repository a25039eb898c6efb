-- ===== src/Accordion/Mpx/Info/Termination.antt =====
-- accordion_V10.X/mpx.cpp: the walk over the frames of a file ends.
use cproject.Base.{
  ℕ, zero, suc, ◌+◌, ◌-◌, ◌≤◌, ◌<◌, ◌≢◌, ltb, if-both, Option, none, some, List, length,
  length-take, length-drop, drop, arith, Outcome, done, stuck, ◌>>=◌, done-ne-stuck, >>=-ne-stuck,
}
use cproject.Accordion.File.{File, read, after_read, seek_set, seek_cur}
use cproject.Accordion.Mpx.Frame.{Header, header_of, get_frame_size}
use cproject.Accordion.Mpx.Seek.{seek_to_1_frame}
use cproject.Accordion.Mpx.Seek.Found.{seek_to_1_frame-ne-stuck}
use cproject.Accordion.Mpx.Info.{count_frames, figures, info_at, get_file_info, accepts, Info}

length-read :
    (n : ℕ) (f : File) → (length (read n f) ≤ n) × (length (read n f) ≤ length f.bytes - f.pos)
unfolding read
length-read n f = ground (arith, length-take n (drop f.pos f.bytes), length-drop f.pos f.bytes)

-- The bytes of the file are fuel enough for the walk from any header on: each round goes further.
pub count_frames-ne-stuck :
    (fuel : ℕ) (h : Header) (f : File) (n : ℕ)
    → 0 < fuel
    → length f.bytes < fuel + f.pos
    → count_frames fuel h f n ≢ stuck
unfolding count_frames after_read
count_frames-ne-stuck zero h f n some_fuel enough = absurd (omega arith)
count_frames-ne-stuck (suc fuel) h f n some_fuel enough =
    let len : ℕ = get_frame_size h in
    let g : File = seek_cur (len - 4) f in
    let next : List ℕ = read 4 g in
    ground
      (arith, length-read 4 g, count_frames-ne-stuck fuel (header_of next) (after_read 4 g) (n + 1))

figures-ne-stuck : (h : Header) (size n : ℕ) → figures h size n ≢ stuck
unfolding figures
figures-ne-stuck h size n = ground arith

info_at-ne-stuck : (pos : ℕ) (f : File) → info_at pos f ≢ stuck
unfolding info_at after_read
info_at-ne-stuck pos f =
    let at : File = seek_set pos f in
    let h : Header = header_of (read 4 at) in
    let answer : ℕ → Outcome (Option Info) =
      λ n. figures h (length f.bytes) n >>= λ i. done (some i) in
    let counted : (count_frames (suc (length f.bytes)) h (after_read 4 at) 0 >>= answer) ≢ stuck =
      >>=-ne-stuck (count_frames (suc (length f.bytes)) h (after_read 4 at) 0) answer
        (count_frames-ne-stuck (suc (length f.bytes)) h (after_read 4 at) 0 (omega arith)
          (omega arith))
        (λ n _.
          >>=-ne-stuck (figures h (length f.bytes) n) (λ i. done (some i))
            (figures-ne-stuck h (length f.bytes) n) (λ i _. done-ne-stuck (some i))) in
    if-both (λ o. o ≢ stuck) (ltb (length (read 4 at)) 4) (done-ne-stuck none)
      (if-both (λ o. o ≢ stuck) (accepts h) counted (done-ne-stuck none))

-- `mpx_GetFileInfo` comes to an end on every file: it answers, or it divides by zero or reads past its
-- buffer. The bytes of the file are fuel enough for the walk over its frames.
pub get_file_info-ne-stuck : (f : File) → get_file_info f ≢ stuck
unfolding get_file_info
get_file_info-ne-stuck f =
    >>=-ne-stuck (seek_to_1_frame f)
      (λ found. elim found [ none ↦ done none | some pos ↦ info_at pos f ])
      (seek_to_1_frame-ne-stuck f)
      (elim [ none ↦ λ _. done-ne-stuck none | some pos ↦ λ _. info_at-ne-stuck pos f ])
