-- ===== src/Accordion/Examples.antt =====
-- A short mp3 file of two frames, MPEG 2.5 layer III of 8 kbit/s at 12 kHz: what the code of
-- accordion_V10.X/mpx.cpp does with it, and the theorems at it; and short aac files.
use cproject.Base.{
  ℕ, zero, suc, ◌≤◌, ◌<◌, ◌≡◌, ◌≢◌, refl, Bool, true, false, not, ◌||◌, ◌==◌, ltb, List, [], ◌∷◌,
  ◌++◌, length, drop_all, Bool-cases, subst, sym, ◌∙◌, ◌⊎◌, inl, inr, take, drop, arith, done,
  stuck, Option, none, some,
}
use cproject.Base.Text.{text_eq}
use cproject.Base.Below.{passes_below, passes_at}
use cproject.Accordion.File.{File, read, after_read, seek_set}
use cproject.Accordion.Mpx.Frame.{
  Header, header_of, bitrate_index, is_valid_frame_header, get_frame_size,
}
use cproject.Accordion.Mpx.Frame.Bounds.{get_frame_size_bounds}
use cproject.Accordion.Mpx.Seek.{buffer_size, get_start_pos, seek_to_1_frame}
use cproject.Accordion.Mpx.Seek.Found.{FirstFrame, seek_to_1_frame-FirstFrame}
use cproject.Accordion.Stream.{Player, get_frames}
use cproject.Accordion.Aac.Header.{Fields, aac_fields, aac_frame_length}
use cproject.Accordion.Aac.Seek.{aac_seek_to_1_frame}
use cproject.Accordion.Aac.Stream.{aac_get_frames}
use cproject.Accordion.Aac.Info.{aac_walk}
use cproject.Accordion.Aac.Info.Walk.{Long, aac_walk-ne-stuck, aac_walk-rejects, aac_walk-hangs}
use cproject.Accordion.Mpx.Info.{get_file_info}
use cproject.Accordion.Mpx.Info.Termination.{get_file_info-ne-stuck}

abbrev header : Header
header = record { b0 = 255; b1 = 0xE3; b2 = 0x14; b3 = 0 }

silence : ℕ → List ℕ
silence zero = []
silence (suc n) = 0 ∷ silence n

abbrev a_frame : List ℕ
unfolding silence
a_frame = 255 ∷ 0xE3 ∷ 0x14 ∷ 0 ∷ silence 44

abbrev mp3 : File
mp3 = record { bytes = a_frame ++ a_frame; pos = 0 }

get_frame_size_bounds_example : (24 ≤ get_frame_size header) × (get_frame_size header ≤ 2881)
unfolding is_valid_frame_header
get_frame_size_bounds_example =
    get_frame_size_bounds header (omega arith) refl (λ e. omega arith) (λ e. omega arith)

header_size_is_48 : get_frame_size header ≡ 48
unfolding get_frame_size
header_size_is_48 = refl

read_96 : length (read buffer_size (seek_set (get_start_pos mp3) mp3)) ≡ 96
unfolding read get_start_pos silence text_eq
read_96 = refl

seek_to_1_frame-FirstFrame_example :
    (y : Option ℕ) × (seek_to_1_frame mp3 ≡ done y) × FirstFrame mp3 y
seek_to_1_frame-FirstFrame_example = seek_to_1_frame-FirstFrame mp3 (omega (arith, read_96))

found_at_0 : seek_to_1_frame mp3 ≡ done (some 0)
unfolding seek_to_1_frame read get_start_pos is_valid_frame_header get_frame_size silence text_eq
found_at_0 = refl

get_file_info-ne-stuck_example : get_file_info mp3 ≢ stuck
get_file_info-ne-stuck_example = get_file_info-ne-stuck mp3

abbrev player : Player
player = record { file = mp3; send_frame_number = 0; total_frames = 2; frames_to_read = 20 }

-- No byte of the file starts a header of the free format: every place of it is tried.
plain_at : ℕ → Bool
plain_at i =
    let h = header_of (take 4 (drop i mp3.bytes)) in
    not (is_valid_frame_header h) || not (bitrate_index h == 0)

-- An aac file of one frame of eleven bytes, and a header of the length 0.
abbrev aac : File
aac = record { bytes = 0xFF ∷ 0xF1 ∷ 0x50 ∷ 0x80 ∷ 1 ∷ 0x60 ∷ 0xFC ∷ 1 ∷ 2 ∷ 3 ∷ 4 ∷ []; pos = 0 }

abbrev junk : File
junk = record { bytes = 0 ∷ 0 ∷ aac.bytes; pos = 0 }

abbrev endless : File
endless = record { bytes = 0xFF ∷ 0xF1 ∷ 0x50 ∷ 0x80 ∷ 0 ∷ 0 ∷ 0xFC ∷ 1 ∷ 2 ∷ 3 ∷ 4 ∷ []; pos = 0 }

aac_whole :
    aac_get_frames
      (record { file = aac; send_frame_number = 0; total_frames = 1; frames_to_read = 20 })
    ≡ done (
      aac.bytes,
      record {
        file = record { bytes = aac.bytes; pos = 11 };
        send_frame_number = 1;
        total_frames = 1;
        frames_to_read = 20;
      },
    )
unfolding aac_get_frames get_frames aac_frame_length read after_read
aac_whole = refl

junk_at_2 : aac_seek_to_1_frame junk ≡ some 2
unfolding aac_seek_to_1_frame read
junk_at_2 = refl

aac_walk-rejects_example : aac_walk 100 junk ≡ done none
aac_walk-rejects_example = aac_walk-rejects 99 1 junk junk_at_2

abbrev no_length : Fields
no_length = record {
  protection_absent = 1;
  length = 0;
  sampling_frequency = 4;
  channel_config = true;
}

aac_walk-hangs_example : aac_walk 1000 endless ≡ stuck
unfolding aac_fields
aac_walk-hangs_example = aac_walk-hangs 1000 endless no_length (omega arith) refl refl

-- No header of the file passes with the length 0: every place of it is tried.
positive : Option Fields → Bool
positive none = true
positive (some x) = ltb 0 x.length

long_at : ℕ → Bool
unfolding positive
long_at i = positive (aac_fields (take 7 (drop i aac.bytes)))

aac-long : passes_below long_at 11 ≡ true
unfolding passes_below long_at aac_fields
aac-long = refl

at_place : (i : ℕ) → i < 11 → positive (aac_fields (take 7 (drop i aac.bytes))) ≡ true
unfolding long_at
at_place i lt = passes_at long_at 11 i lt aac-long

positive_sound : (y : Option Fields) (x : Fields) → positive y ≡ true → y ≡ some x → 0 < x.length
unfolding positive
positive_sound y x h e = subst (λ z. positive z ≡ true → 0 < x.length) (sym e) (λ p. ground arith) h

no_header : aac_fields (take 7 []) ≡ none
unfolding aac_fields
no_header = refl

past_the_end-Long :
    (i : ℕ) (x : Fields) → 11 ≤ i → aac_fields (take 7 (drop i aac.bytes)) ≡ some x → 0 < x.length
past_the_end-Long i x le e =
    let clash : none ≡ some x =
      sym no_header ∙ subst (λ bs. aac_fields (take 7 bs) ≡ some x) (drop_all i aac.bytes le) e in
    cc

aac-Long : Long aac
aac-Long i x = by_place (Bool-cases (ltb i 11))
  where
    by_place :
        (ltb i 11 ≡ true) ⊎ (ltb i 11 ≡ false)
        → aac_fields (take 7 (drop i aac.bytes)) ≡ some x
        → 0 < x.length
    by_place (inl lt) =
        positive_sound (aac_fields (take 7 (drop i aac.bytes))) x (at_place i (ground arith))
    by_place (inr ge) = past_the_end-Long i x (ground arith)

aac_walk-ne-stuck_example : aac_walk 12 aac ≢ stuck
aac_walk-ne-stuck_example = aac_walk-ne-stuck aac aac-Long
