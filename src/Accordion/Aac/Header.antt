-- ===== src/Accordion/Aac/Header.antt =====
-- accordion_V10.X/aac.cpp: the ADTS header of a frame. The masks leave the same bits of a signed `char`
-- as of the byte.
use Prim.Native.Nat.{bit_and, bit_or}
use cproject.Base.{
  ℕ, ◌*◌, ◌/◌, ◌^◌, ◌≤◌, Bool, false, not, ◌||◌, ◌==◌, ltb, leb, if◌then◌else◌, Option, none, some,
  List, [], ◌∷◌, get_or, arith,
}

abbrev pub sf_table : List ℕ
sf_table =
    96000 ∷ 88200 ∷ 64000 ∷ 48000 ∷ 44100 ∷ 32000 ∷ 24000 ∷ 22050 ∷ 16000 ∷ 12000 ∷ 11025 ∷ 8000
    ∷ 7350 ∷ 0 ∷ 0 ∷ 0 ∷ []

-- `c_header_size`
abbrev pub aac_header_size : ℕ
aac_header_size = 7

-- `((header[0] << 4) & 0xFF0) | ((header[1] >> 4) & 0x0F)`
unfoldable pub syncword : ℕ → ℕ → ℕ
syncword b0 b1 = bit_or (bit_and (b0 * 16) 0xFF0) (bit_and (b1 / 16) 0x0F)

-- `get_frame_length`
unfoldable pub get_frame_length : ℕ → ℕ → ℕ → ℕ
get_frame_length h3 h4 h5 =
    bit_or (bit_or (bit_and h3 0x03 * 2 ^ 11) (h4 * 2 ^ 3)) (bit_and h5 0xE0 / 2 ^ 5)

abbrev pub profile : List ℕ → ℕ
profile h = bit_and (get_or h 2 0) 0xC0 / 64

abbrev pub sampling_index : List ℕ → ℕ
sampling_index h = bit_and (bit_and (get_or h 2 0) 0x3C / 4) 0x0F

unfoldable pub length_of : List ℕ → ℕ
unfolding get_frame_length
length_of h = get_frame_length (get_or h 3 0) (get_or h 4 0) (get_or h 5 0)

-- What the check with five arguments hands back.
pub record Fields : Type 0 where
  pub protection_absent : ℕ
  pub length : ℕ
  pub sampling_frequency : ℕ
  pub channel_config : Bool

-- The tests that both checks start with.
unfoldable pub aac_starts : List ℕ → Bool
unfolding syncword
aac_starts h =
    if not (syncword (get_or h 0 0) (get_or h 1 0) == 0xFFF)
    then false
    else if profile h == 3
    then false
    else not (get_or sf_table (sampling_index h) 0 == 0)

-- `aac_IsValidFrameHeader(header, ...)`. The channels are joined by `||`, so they are 0 or 1.
unfoldable pub aac_fields : List ℕ → Option Fields
unfolding aac_starts length_of
aac_fields h =
    if not (aac_starts h)
    then none
    else if ltb 5000 (length_of h)
    then none
    else some (record {
      protection_absent = bit_and (get_or h 1 0) 0x01;
      length = length_of h;
      sampling_frequency = sampling_index h;
      channel_config =
          not (bit_and (get_or h 2 0) 0x01 * 4 == 0) || not (bit_and (get_or h 3 0) 0xC0 / 64 == 0);
    })

-- `aac_IsValidFrameHeader(header)`: the length of the frame, or 0.
unfoldable pub aac_frame_length : List ℕ → ℕ
unfolding aac_starts length_of
aac_frame_length h =
    if not (aac_starts h)
    then 0
    else if leb (length_of h) aac_header_size || ltb 5000 (length_of h)
    then 0
    else length_of h

pub aac_frame_length_le : (h : List ℕ) → aac_frame_length h ≤ 5000
unfolding aac_frame_length
aac_frame_length_le h = ground arith
