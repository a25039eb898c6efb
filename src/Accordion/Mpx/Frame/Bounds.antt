-- ===== src/Accordion/Mpx/Frame/Bounds.antt =====
-- accordion_V10.X/mpx.cpp: how long a frame can be.
use Prim.Native.Nat.{bit_and}
use cproject.Base.{
  ℕ, ◌+◌, ◌-◌, ◌/◌, ◌≤◌, ◌<◌, ◌≡◌, ◌≢◌, ◌⊎◌, refl, Bool, true, false, ◌&&◌, ◌||◌, ◌==◌, ltb, leb,
  arith,
}
use cproject.Base.Below.{passes_below, passes_at}
use cproject.Accordion.Mpx.Frame.{
  Header, bad_sync, version, layer, bitrate_index, rate_index, padding, is_valid_frame_header,
  frame_size, get_frame_size,
}

abbrev in_bounds : ℕ → ℕ → ℕ → ℕ → ℕ → Bool
in_bounds ver lay sr br pad =
    let size = frame_size ver lay sr (br + 1) pad in
    ver == 1 || lay == 0 || leb 24 size && leb size 2881

sizes_table :
    passes_below
      (λ ver.
        passes_below
          (λ lay.
            passes_below (λ sr. passes_below (λ br. passes_below (in_bounds ver lay sr br) 2) 14) 3)
          4)
      4
    ≡ true
unfolding passes_below frame_size
sizes_table = refl

padding_table : passes_below (λ b. ltb (bit_and b 0x02 / 2) 2) 256 ≡ true
unfolding passes_below
padding_table = refl

sizes :
    (ver lay sr br pad : ℕ)
    → ver < 4
    → lay < 4
    → sr < 3
    → br < 14
    → pad < 2
    → in_bounds ver lay sr br pad ≡ true
sizes ver lay sr br pad a b c d e = passes_at _ 2 pad e (
    passes_at _ 14 br d
      (passes_at _ 3 sr c (passes_at _ 4 lay b (passes_at _ 4 ver a sizes_table))))

pub valid_fields :
    (h : Header)
    → is_valid_frame_header h ≡ true
    → (bad_sync h ≡ false)
      × (version h ≢ 1)
      × (version h < 4)
      × (layer h < 4)
      × (bitrate_index h < 15)
      × (rate_index h < 3)
unfolding is_valid_frame_header
valid_fields h v = ground arith

pub get_frame_size_fields :
    (h : Header)
    → bad_sync h ≡ false
    → get_frame_size h
      ≡ frame_size (version h) (layer h) (rate_index h) (bitrate_index h) (padding h)
unfolding get_frame_size
get_frame_size_fields h good = ground arith

pub padding_lt : (h : Header) → h.b2 < 256 → padding h < 2
padding_lt h byte =
    let checked = passes_at (λ b. ltb (bit_and b 0x02 / 2) 2) 256 h.b2 byte padding_table in
    ground arith

-- The size that `mpx_GetFrameSize` states for a header that passes, with a layer other than 0 and a
-- bitrate index other than 0, is 24 to 2881 bytes: more than the header has, and below the limit of 5000
-- bytes of the reader.
pub get_frame_size_bounds :
    (h : Header)
    → h.b2 < 256
    → is_valid_frame_header h ≡ true
    → layer h ≢ 0
    → bitrate_index h ≢ 0
    → (24 ≤ get_frame_size h) × (get_frame_size h ≤ 2881)
get_frame_size_bounds h byte v lay br =
    let (good, not_one, ver_lt, lay_lt, br_lt, sr_lt) = valid_fields h v in
    let less : ℕ = bitrate_index h - 1 in
    let back : less + 1 ≡ bitrate_index h = omega arith in
    let table =
      sizes (version h) (layer h) (rate_index h) less (padding h) ver_lt lay_lt sr_lt (omega arith)
        (padding_lt h byte) in
    let table' = rw back at table in rw (get_frame_size_fields h good) (ground arith)

-- A header that passes has no size at all, or room for itself, but for the free format.
pub get_frame_size_cases :
    (h : Header)
    → h.b2 < 256
    → is_valid_frame_header h ≡ true
    → bitrate_index h ≢ 0
    → (get_frame_size h ≡ 0) ⊎ (4 ≤ get_frame_size h)
unfolding get_frame_size frame_size
get_frame_size_cases h byte v br = ground (arith, get_frame_size_bounds h byte v)
