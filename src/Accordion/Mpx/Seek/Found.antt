-- ===== src/Accordion/Mpx/Seek/Found.antt =====
-- accordion_V10.X/mpx.cpp: what the search for the first frame finds.
use cproject.Base.{
  ℕ, zero, suc, ◌+◌, ◌≤◌, ◌<◌, ◌≡◌, ◌≢◌, refl, ap, ◌∙◌, true, Option, none, some, List, length,
  drop, get_or, arith, Outcome, done, crash, stuck, ◌>>=◌, done-cases, done-ne-stuck, >>=-ne-stuck,
}
use cproject.Accordion.Mpx.Frame.{header_of, is_valid_frame_header, get_frame_size}
use cproject.Accordion.Mpx.Seek.{
  buffer_size, byte_at, Look, found, over, onward, look, look_at, settle, seek_loop, in_file,
  get_start_pos, seek_to_1_frame,
}
use cproject.Accordion.File.{File, read, seek_set}

-- At `pos` stands a valid header, of a frame of some bytes, and behind that frame, inside the buffer,
-- a second valid header.
abbrev pub TwoFrames : List ℕ → ℕ → Type 0
TwoFrames buf pos =
    let h = header_of (drop pos buf) in
    (is_valid_frame_header h ≡ true)
    × (0 < get_frame_size h)
    × (pos + get_frame_size h + 4 ≤ length buf)
    × (is_valid_frame_header (header_of (drop (pos + get_frame_size h) buf)) ≡ true)

look-found : (buf : List ℕ) (pos : ℕ) → look buf pos ≡ found → TwoFrames buf pos
unfolding look
look-found buf pos e = ground arith

look_at-found :
    (buf : List ℕ) (pos : ℕ)
    → look_at buf pos ≡ done found
    → (get_or buf pos 0 ≡ 0xFF) × TwoFrames buf pos
unfolding look_at byte_at
look_at-found buf pos e = ground (arith, look-found buf pos)

-- Where the buffer is not full, the loop does not read past its end.
look_at-ne-crash : (buf : List ℕ) (pos : ℕ) → pos + 1 < buffer_size → look_at buf pos ≢ crash
unfolding look_at byte_at
look_at-ne-crash buf pos room = ground arith

look_at-ne-stuck : (buf : List ℕ) (pos : ℕ) → look_at buf pos ≢ stuck
unfolding look_at byte_at
look_at-ne-stuck buf pos = ground arith

-- What the loop, from `pos` on, promises of its answer: two frames stand where it says.
abbrev Answers : List ℕ → ℕ → Option ℕ → Type 0
Answers buf pos none = Unit {0}
Answers buf pos (some p) = (pos ≤ p) × (get_or buf p 0 ≡ 0xFF) × TwoFrames buf p

later : (buf : List ℕ) (pos : ℕ) (y : Option ℕ) → Answers buf (suc pos) y → Answers buf pos y
later buf pos none a = tt
later buf pos (some p) (le, byte, two) = (omega arith, byte, two)

-- What a position answers: itself, with two frames at it, or what the later ones do.
settle-Answers :
    (loop : ℕ → Outcome (Option ℕ)) (buf : List ℕ) (pos : ℕ) (l : Look)
    → (y : Option ℕ) × (loop (suc pos) ≡ done y) × Answers buf (suc pos) y
    → look_at buf pos ≡ done l
    → (y : Option ℕ) × (settle loop pos l ≡ done y) × Answers buf pos y
unfolding settle
settle-Answers loop buf pos found rest e =
    let (byte, two) = look_at-found buf pos e in (some pos, refl, (omega arith, byte, two))
settle-Answers loop buf pos over rest e = (none, refl, tt)
settle-Answers loop buf pos onward (y, e', a) e = (y, e', later buf pos y a)

-- The loop returns where its positions stay below the last one of the buffer.
seek_loop-Answers :
    (rounds : ℕ) (buf : List ℕ) (pos : ℕ)
    → rounds + pos < buffer_size
    → (y : Option ℕ) × (seek_loop rounds buf pos ≡ done y) × Answers buf pos y
unfolding seek_loop
seek_loop-Answers zero buf pos room = (none, refl, tt)
seek_loop-Answers (suc rounds) buf pos room =
    let (l, e) =
      done-cases (look_at buf pos) (look_at-ne-crash buf pos (omega arith))
        (look_at-ne-stuck buf pos) in
    let (y, e', a) =
      settle-Answers (seek_loop rounds buf) buf pos l
        (seek_loop-Answers rounds buf (suc pos) (omega arith)) e in
    (y, ap (λ o. o >>= settle (seek_loop rounds buf) pos) e ∙ e', a)

settle-ne-stuck :
    (loop : ℕ → Outcome (Option ℕ)) (pos : ℕ) (l : Look)
    → loop (suc pos) ≢ stuck
    → settle loop pos l ≢ stuck
unfolding settle
settle-ne-stuck loop pos found rest = done-ne-stuck (some pos)
settle-ne-stuck loop pos over rest = done-ne-stuck none
settle-ne-stuck loop pos onward rest = rest

seek_loop-ne-stuck : (rounds : ℕ) (buf : List ℕ) (pos : ℕ) → seek_loop rounds buf pos ≢ stuck
unfolding seek_loop
seek_loop-ne-stuck zero buf pos = done-ne-stuck none
seek_loop-ne-stuck (suc rounds) buf pos =
    >>=-ne-stuck (look_at buf pos) (settle (seek_loop rounds buf) pos) (look_at-ne-stuck buf pos)
      (λ l _.
        settle-ne-stuck (seek_loop rounds buf) pos l (seek_loop-ne-stuck rounds buf (suc pos)))

-- What `mpx_SeekTo1Frame` promises of its answer: -1, or an offset not before the end that the ID3v2 tag
-- states, with the byte 0xFF and two frames at that place of what is read from that end.
pub FirstFrame : File → Option ℕ → Type 0
FirstFrame f none = Unit {0}
FirstFrame f (some p) =
    let start = get_start_pos f in
    let buf = read buffer_size (seek_set start f) in
    (q : ℕ) × (p ≡ q + start) × (get_or buf q 0 ≡ 0xFF) × TwoFrames buf q

moved :
    (f : File) (y : Option ℕ)
    → Answers (read buffer_size (seek_set (get_start_pos f) f)) 0 y
    → FirstFrame f (in_file (get_start_pos f) y)
unfolding FirstFrame
moved f none a = tt
moved f (some q) (le, byte, two) = (q, refl, byte, two)

-- On a file that has less than 50000 bytes behind its ID3v2 tag `mpx_SeekTo1Frame` returns: -1, or an
-- offset that is not before the end that the tag states. There the byte 0xFF stands and a valid header,
-- of a frame of some bytes, and a second valid header behind that frame, inside the file.
pub seek_to_1_frame-FirstFrame :
    (f : File)
    → length (read buffer_size (seek_set (get_start_pos f) f)) < buffer_size
    → (y : Option ℕ) × (seek_to_1_frame f ≡ done y) × FirstFrame f y
unfolding seek_to_1_frame
seek_to_1_frame-FirstFrame f room =
    let start : ℕ = get_start_pos f in
    let buf : List ℕ = read buffer_size (seek_set start f) in
    let (y, e, a) = seek_loop-Answers (length buf) buf 0 (omega arith) in
    (in_file start y, ap (λ o. o >>= λ y. done (in_file start y)) e, moved f y a)

pub seek_to_1_frame-ne-stuck : (f : File) → seek_to_1_frame f ≢ stuck
unfolding seek_to_1_frame
seek_to_1_frame-ne-stuck f =
    let start : ℕ = get_start_pos f in
    let buf : List ℕ = read buffer_size (seek_set start f) in
    >>=-ne-stuck (seek_loop (length buf) buf 0) (λ y. done (in_file start y))
      (seek_loop-ne-stuck (length buf) buf 0) (λ y _. done-ne-stuck (in_file start y))
