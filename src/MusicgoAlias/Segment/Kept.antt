-- ===== src/MusicgoAlias/Segment/Kept.antt =====
-- musicgo_alias/mp3bitrate.cpp and musicgo_alias/aacbitrate.cpp: the file is read and not changed.
use cproject.Base.{
  ℕ, zero, suc, ◌+◌, ◌*◌, ◌≡◌, refl, ap, ◌∙◌, not, ◌==◌, ltb, if-both, if-elim, Option, none, some,
  List, length, Outcome, done, crash, stuck, ◌>>=◌,
}
use cproject.Accordion.File.{File, read, after_read, seek_set}
use cproject.Accordion.Mpx.Seek.{get_start_pos}
use cproject.Accordion.Aac.Header.{length_of}
use cproject.MusicgoAlias.Segment.{Segment}
use cproject.MusicgoAlias.Segment.Mp3
use cproject.MusicgoAlias.Segment.Aac

-- An outcome whose file has the bytes `bs`.
abbrev pub Keeps : List ℕ → Outcome Segment → Type 0
Keeps bs (done s) = s.file.bytes ≡ bs
Keeps bs crash = Unit
Keeps bs stuck = Unit

>>=-Keeps :
    {A : Type 0} (bs : List ℕ) (m : Outcome A) (f : A → Outcome Segment)
    → ((a : A) → m ≡ done a → Keeps bs (f a))
    → Keeps bs (m >>= f)
>>=-Keeps bs (done a) f h = h a refl
>>=-Keeps bs crash f h = tt
>>=-Keeps bs stuck f h = tt

mp3_segment_from-Keeps :
    (at stop : ℕ) (f : File) (first : Mp3.FirstFrame) (next : Option Mp3.FirstFrame)
    → (Mp3.segment_from at stop f first next).file.bytes ≡ f.bytes
mp3_segment_from-Keeps at stop f first none = refl
mp3_segment_from-Keeps at stop f first (some next) = refl

mp3_segment_behind-Keeps :
    (start stop from : ℕ) (f : File) (o : Option Mp3.FirstFrame)
    → Keeps f.bytes (Mp3.segment_behind start stop from f o)
unfolding Mp3.segment_behind after_read
mp3_segment_behind-Keeps start stop from f none = refl
mp3_segment_behind-Keeps start stop from f (some first) =
    let at : ℕ = start * Mp3.get_bitrate first + (from + first.offset) in
    >>=-Keeps f.bytes (Mp3.seek_for_first_frame (seek_set at f)) _
      λ next e. mp3_segment_from-Keeps at stop (after_read 50000 (seek_set at f)) first next

pub mp3-Keeps : (f : File) (start stop : ℕ) → Keeps f.bytes (Mp3.get_file_segment f start stop)
unfolding Mp3.get_file_segment after_read
mp3-Keeps f start stop =
    let there : File = seek_set (get_start_pos f) f in
    if-both (Keeps f.bytes) (ltb (length (read 10 (seek_set 0 f))) 10)
      (mp3_segment_behind-Keeps start stop 0 (seek_set (length f.bytes) f) none)
      (>>=-Keeps f.bytes (Mp3.seek_for_first_frame there) _ λ first e.
        mp3_segment_behind-Keeps start stop (get_start_pos f) (after_read 50000 there) first)

walk_frames-Keeps :
    (fuel frames next : ℕ) (f : File) (w : Aac.Walked)
    → Aac.walk_frames fuel frames next f ≡ done (some w)
    → w.file.bytes ≡ f.bytes
unfolding Aac.walk_frames after_read
walk_frames-Keeps zero frames next f w e = cc
walk_frames-Keeps (suc fuel) frames next f w e =
    let h : List ℕ = read 7 f in
    let after : ℕ = next + length_of h in
    let Gives : Outcome (Option Aac.Walked) → Type 0 = λ o. o ≡ done (some w) in
    if-elim Gives (ltb (length h) 7) (λ g. cc)
      (if-elim Gives (not (Aac.is_valid_header h)) (λ g. cc)
        (if-elim Gives (ltb after (length f.bytes))
          (walk_frames-Keeps fuel (suc frames) after (seek_set (f.pos + length_of h) f) w)
          (λ g. cc)))
      e

module _ (play_seconds : ℕ → ℕ → ℕ) where
  aac_segment_behind-Keeps :
      (start stop from : ℕ) (f : File) (o : Option Aac.Walked)
      → ((w : Aac.Walked) → o ≡ some w → w.file.bytes ≡ f.bytes)
      → Keeps f.bytes (Aac.segment_behind play_seconds start stop from f o)
  unfolding Aac.segment_behind after_read
  aac_segment_behind-Keeps start stop from f none h = refl
  aac_segment_behind-Keeps start stop from f (some w) h =
      >>=-Keeps f.bytes (Aac.bitrate_of_walk play_seconds (length f.bytes) w) _ λ bitrate e.
        if-both (λ (s : Segment). s.file.bytes ≡ f.bytes) (bitrate == 0) (h w refl) refl

  pub aac-Keeps :
      (fuel : ℕ) (f : File) (start stop : ℕ)
      → Keeps f.bytes (Aac.get_file_segment play_seconds fuel f start stop)
  unfolding Aac.get_file_segment
  aac-Keeps fuel f start stop =
      let from : ℕ = Aac.start_pos_from f in
      >>=-Keeps f.bytes (Aac.walk_frames fuel 0 0 (seek_set from f)) _ λ o e.
        aac_segment_behind-Keeps start stop from f o
          λ w o_some. walk_frames-Keeps fuel 0 0 (seek_set from f) w (e ∙ ap (λ x. done x) o_some)
