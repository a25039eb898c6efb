-- ===== src/Accordion/Mpx/Frame.antt =====
-- accordion_V10.X/mpx.cpp: the header of an MPEG frame. `char` is signed, as on the x86 targets.
pub mod Bounds
use Prim.Native.Nat.{bit_and}
use cproject.Base.{
  ℕ, ◌+◌, ◌-◌, ◌*◌, ◌/◌, ◌≤◌, Bool, true, false, not, ◌&&◌, ◌||◌, ◌==◌, ltb, leb, if◌then◌else◌,
  List, [], ◌∷◌, get_or,
}

-- The four bytes, as unsigned numbers.
pub record Header : Type 0 where
  pub b0 : ℕ
  pub b1 : ℕ
  pub b2 : ℕ
  pub b3 : ℕ

abbrev pub header_of : List ℕ → Header
header_of bs = record {
  b0 = get_or bs 0 0;
  b1 = get_or bs 1 0;
  b2 = get_or bs 2 0;
  b3 = get_or bs 3 0;
}

abbrev pub br_table : List ℕ
br_table =
    0 ∷ 32 ∷ 64 ∷ 96 ∷ 128 ∷ 160 ∷ 192 ∷ 224 ∷ 256 ∷ 288 ∷ 320 ∷ 352 ∷ 384 ∷ 416 ∷ 448 ∷ 0 ∷ 0 ∷ 32
    ∷ 48 ∷ 56 ∷ 64 ∷ 80 ∷ 96 ∷ 112 ∷ 128 ∷ 160 ∷ 192 ∷ 224 ∷ 256 ∷ 320 ∷ 384 ∷ 0 ∷ 0 ∷ 32 ∷ 40 ∷ 48
    ∷ 56 ∷ 64 ∷ 80 ∷ 96 ∷ 112 ∷ 128 ∷ 160 ∷ 192 ∷ 224 ∷ 256 ∷ 320 ∷ 0 ∷ 0 ∷ 32 ∷ 48 ∷ 56 ∷ 64 ∷ 80
    ∷ 96 ∷ 112 ∷ 128 ∷ 144 ∷ 160 ∷ 176 ∷ 192 ∷ 224 ∷ 256 ∷ 0 ∷ 0 ∷ 8 ∷ 16 ∷ 24 ∷ 32 ∷ 40 ∷ 48 ∷ 56
    ∷ 64 ∷ 80 ∷ 96 ∷ 112 ∷ 128 ∷ 144 ∷ 160 ∷ 0 ∷ []

abbrev pub sr_table : List ℕ
sr_table = 44100 ∷ 48000 ∷ 32000 ∷ 0 ∷ 22050 ∷ 24000 ∷ 16000 ∷ 0 ∷ 11025 ∷ 12000 ∷ 8000 ∷ 0 ∷ []

-- `mpx_header[0] == 0xFF`: a signed char is never 255.
abbrev char_eq_255 : ℕ → Bool
char_eq_255 b = if ltb b 128 then b == 255 else false

-- `(mpx_header[0] != 0xFF) && ((mpx_header[1]& 0xE0) != 0xE0)`
unfoldable pub bad_sync : Header → Bool
bad_sync h = not (char_eq_255 h.b0) && not (bit_and h.b1 0xE0 == 0xE0)

abbrev pub version : Header → ℕ
version h = bit_and h.b1 0x18 / 8

abbrev pub layer : Header → ℕ
layer h = bit_and h.b1 0x06 / 2

abbrev pub bitrate_index : Header → ℕ
bitrate_index h = bit_and h.b2 0xF0 / 16

abbrev pub rate_index : Header → ℕ
rate_index h = bit_and h.b2 0x0C / 4

abbrev pub padding : Header → ℕ
padding h = bit_and h.b2 0x02 / 2

abbrev pub channels : Header → ℕ
channels h = bit_and h.b3 0xC0 / 64

-- `mpx_IsValidFrameHeader`; a bitrate index of 0 passes.
unfoldable pub is_valid_frame_header : Header → Bool
unfolding bad_sync
is_valid_frame_header h =
    if bad_sync h
    then false
    else if version h == 1 || ltb 3 (version h)
    then false
    else if ltb 3 (layer h)
    then false
    else if ltb 0x0E (bitrate_index h)
    then false
    else not (leb 3 (rate_index h))

-- kbit/s by version, layer and index.
unfoldable pub bitrate_of : ℕ → ℕ → ℕ → ℕ
bitrate_of ver lay br =
    if ver == 3
    then (if lay == 3
        then get_or br_table br 0
        else if lay == 2
        then get_or br_table (br + 16) 0
        else if lay == 1
        then get_or br_table (br + 32) 0
        else 0)
    else if ver == 2 || ver == 0
    then (if lay == 3
        then get_or br_table (br + 48) 0
        else if lay == 2 || lay == 1
        then get_or br_table (br + 64) 0
        else 0)
    else 0

unfoldable pub rate_of : ℕ → ℕ → ℕ
rate_of ver sr = get_or sr_table (sr + (if ver == 0 then 8 else if ver == 2 then 4 else 0)) 0

-- The `switch` of `mpx_GetFrameSize` on a bitrate in bit/s.
unfoldable pub size_of : ℕ → ℕ → ℕ → ℕ → ℕ → ℕ
size_of ver lay bitrate sr pad =
    if ver == 3
    then (if lay == 3
        then 12 * bitrate / sr * 4 + pad * 4
        else if lay == 2 || lay == 1
        then 144 * bitrate / sr + pad
        else 0)
    else if ver == 2 || ver == 0
    then (if lay == 3
        then 12 * bitrate / sr * 4 + pad * 4
        else if lay == 2
        then 144 * bitrate / sr + pad
        else if lay == 1
        then 72 * bitrate / sr + pad
        else 0)
    else 0

-- `mpx_GetFrameSize` behind the test of the sync bits.
unfoldable pub frame_size : ℕ → ℕ → ℕ → ℕ → ℕ → ℕ
unfolding bitrate_of rate_of size_of
frame_size ver lay sr br pad =
    if ver == 1 || ltb 3 ver
    then 0
    else if lay == 0 || ltb 3 lay
    then 0
    else if leb 3 sr
    then 0
    else size_of ver lay (bitrate_of ver lay br * 1000) (rate_of ver sr) pad

-- `mpx_GetFrameSize`
unfoldable pub get_frame_size : Header → ℕ
unfolding bad_sync frame_size
get_frame_size h =
    if bad_sync h
    then 0
    else frame_size (version h) (layer h) (rate_index h) (bitrate_index h) (padding h)
