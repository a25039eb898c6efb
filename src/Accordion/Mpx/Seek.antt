-- ===== src/Accordion/Mpx/Seek.antt =====
-- accordion_V10.X/mpx.cpp: the search for the first frame.
pub mod Found
use Prim.Native.Nat.{bit_and, bit_or}
use cproject.Base.{
  ℕ, zero, suc, ◌+◌, ◌-◌, ◌*◌, ◌^◌, Bool, true, false, ◌&&◌, ◌==◌, ltb, leb, if◌then◌else◌, Option,
  none, some, List, [], ◌∷◌, length, drop, take, get_or, Outcome, done, crash, ◌>>=◌,
}
use cproject.Base.Text.{codes, text_eq}
use cproject.Accordion.File.{File, read, seek_set}
use cproject.Accordion.Mpx.Frame.{Header, header_of, is_valid_frame_header, get_frame_size}

-- The size of the buffer that `mpx_SeekTo1Frame` allocates.
abbrev pub buffer_size : ℕ
buffer_size = 50000

-- `GetStartPos`: the size that an ID3v2 tag states, of four bytes with seven bits each.
unfoldable pub get_start_pos : File → ℕ
unfolding read
get_start_pos f =
    let info = read 10 (seek_set 0 f) in
    if text_eq (take 3 info) (codes "ID3")
    then bit_or
        (bit_or (bit_or (get_or info 9 0) (get_or info 8 0 * 2 ^ 7)) (get_or info 7 0 * 2 ^ 14))
        (get_or info 6 0 * 2 ^ 21)
    else 0

-- A byte of the buffer: 0 behind what was read (`calloc`), and no byte of it past its end.
byte_at : List ℕ → ℕ → Outcome ℕ
byte_at buf i = if ltb i buffer_size then done (get_or buf i 0) else crash

-- What one position of the loop decides: the answer, the end of the loop, or to go on.
pub data Look : Type 0 where
  found over onward : Look

-- The body of the loop at two bytes that look like the start of a frame.
look : List ℕ → ℕ → Look
look buf pos =
    let h = header_of (drop pos buf) in
    let len = get_frame_size h in
    if ltb (length buf - pos) 10
    then over
    else if is_valid_frame_header h
    then (if len == 0
        then onward
        else if ltb (length buf) (pos + len + 4)
        then over
        else if is_valid_frame_header (header_of (drop (pos + len) buf))
        then found
        else onward)
    else onward

look_at : List ℕ → ℕ → Outcome Look
unfolding byte_at look
look_at buf pos =
    if get_or buf pos 0 == 0xFF
    then (byte_at buf (pos + 1) >>= λ b.
        done (if bit_and b 0xE0 == 0xE0 then look buf pos else onward))
    else done onward

settle : (ℕ → Outcome (Option ℕ)) → ℕ → Look → Outcome (Option ℕ)
settle loop pos found = done (some pos)
settle loop pos over = done none
settle loop pos onward = loop (suc pos)

-- The loop, with `rounds` positions to go; none is -1.
pub seek_loop : ℕ → List ℕ → ℕ → Outcome (Option ℕ)
unfolding look_at settle
seek_loop zero buf pos = done none
seek_loop (suc rounds) buf pos = look_at buf pos >>= settle (seek_loop rounds buf) pos

-- `ret_value = pos + m_start_pos`
abbrev pub in_file : ℕ → Option ℕ → Option ℕ
in_file start none = none
in_file start (some pos) = some (pos + start)

-- `mpx_SeekTo1Frame`: the offset of the first frame that another valid one follows.
unfoldable pub seek_to_1_frame : File → Outcome (Option ℕ)
unfolding seek_loop
seek_to_1_frame f =
    let start = get_start_pos f in
    let buf = read buffer_size (seek_set start f) in
    seek_loop (length buf) buf 0 >>= λ found. done (in_file start found)
