-- ===== src/MusicgoAlias/Segment/Termination.antt =====
-- musicgo_alias/mp3bitrate.cpp and musicgo_alias/aacbitrate.cpp: where the searches end.
use cproject.Base.{
  ℕ, zero, suc, ◌+◌, ◌*◌, ◌<◌, ◌≡◌, ◌≢◌, refl, Bool, true, false, not, ◌==◌, ltb, if-both, if-known,
  Option, none, some, List, length, take, drop, get_or, arith, Outcome, stuck, >>=-ne-stuck,
  done-ne-stuck, crash-ne-stuck,
}
use cproject.Accordion.File.{File, read, after_read, seek_set}
use cproject.Accordion.Aac.Header.{length_of}
use cproject.Accordion.Mpx.Seek.{Look, found, over, onward, get_start_pos}
use cproject.MusicgoAlias.Segment.{Segment}
use cproject.MusicgoAlias.Segment.Mp3
use cproject.MusicgoAlias.Segment.Aac

look_for_at-ne-stuck : (buf : List ℕ) (pos : ℕ) → Mp3.look_for_at buf pos ≢ stuck
unfolding Mp3.look_for_at
look_for_at-ne-stuck buf pos =
    if-both (λ (o : Outcome Look). o ≢ stuck) (get_or buf pos 0 == 0xFF)
      (if-both (λ (o : Outcome Look). o ≢ stuck) (ltb (pos + 1) 50000) (done-ne-stuck _)
        crash-ne-stuck)
      (done-ne-stuck onward)

look_next-ne-stuck :
    (loop : ℕ → Outcome (Option ℕ)) (pos : ℕ) (l : Look)
    → loop (suc pos) ≢ stuck
    → Mp3.look_next loop pos l ≢ stuck
look_next-ne-stuck loop pos found h = done-ne-stuck (some pos)
look_next-ne-stuck loop pos over h = done-ne-stuck none
look_next-ne-stuck loop pos onward h = h

search_frame-ne-stuck :
    (rounds : ℕ) (buf : List ℕ) (pos : ℕ) → Mp3.search_frame rounds buf pos ≢ stuck
unfolding Mp3.search_frame
search_frame-ne-stuck zero buf pos = done-ne-stuck none
search_frame-ne-stuck (suc rounds) buf pos =
    >>=-ne-stuck (Mp3.look_for_at buf pos) _ (look_for_at-ne-stuck buf pos) λ l e.
      look_next-ne-stuck (Mp3.search_frame rounds buf) pos l
        (search_frame-ne-stuck rounds buf (suc pos))

seek_for_first_frame-ne-stuck : (f : File) → Mp3.seek_for_first_frame f ≢ stuck
unfolding Mp3.seek_for_first_frame
seek_for_first_frame-ne-stuck f =
    let buf : List ℕ = read 50000 f in
    >>=-ne-stuck (Mp3.search_frame (length buf) buf 0) _ (search_frame-ne-stuck (length buf) buf 0)
      λ at e. done-ne-stuck _

mp3_segment_behind-ne-stuck :
    (start stop from : ℕ) (f : File) (o : Option Mp3.FirstFrame)
    → Mp3.segment_behind start stop from f o ≢ stuck
unfolding Mp3.segment_behind
mp3_segment_behind-ne-stuck start stop from f none = done-ne-stuck _
mp3_segment_behind-ne-stuck start stop from f (some first) =
    let at : ℕ = start * Mp3.get_bitrate first + (from + first.offset) in
    >>=-ne-stuck (Mp3.seek_for_first_frame (seek_set at f)) _
      (seek_for_first_frame-ne-stuck (seek_set at f)) λ next e. done-ne-stuck _

pub mp3-ne-stuck : (f : File) (start stop : ℕ) → Mp3.get_file_segment f start stop ≢ stuck
unfolding Mp3.get_file_segment
mp3-ne-stuck f start stop =
    let there : File = seek_set (get_start_pos f) f in
    if-both (λ (o : Outcome Segment). o ≢ stuck) (ltb (length (read 10 (seek_set 0 f))) 10)
      (mp3_segment_behind-ne-stuck start stop 0 (seek_set (length f.bytes) f) none)
      (>>=-ne-stuck (Mp3.seek_for_first_frame there) _ (seek_for_first_frame-ne-stuck there)
        λ first e.
          mp3_segment_behind-ne-stuck start stop (get_start_pos f) (after_read 50000 there) first)

-- No header that passes states the length 0.
abbrev pub Long : List ℕ → Type 0
Long bytes =
    (i : ℕ)
    → Aac.is_valid_header (take 7 (drop i bytes)) ≡ true
    → 0 < length_of (take 7 (drop i bytes))

walk_frames-ne-stuck :
    (fuel frames next : ℕ) (f : File)
    → Long f.bytes
    → 0 < fuel
    → length f.bytes < fuel + next
    → Aac.walk_frames fuel frames next f ≢ stuck
unfolding Aac.walk_frames read
walk_frames-ne-stuck zero frames next f long some_fuel enough = absurd (omega arith)
walk_frames-ne-stuck (suc fuel) frames next f long some_fuel enough =
    let h : List ℕ = take 7 (drop f.pos f.bytes) in
    let Ends : Outcome (Option Aac.Walked) → Type 0 = λ o. o ≢ stuck in
    if-both Ends (ltb (length h) 7) (done-ne-stuck none) (
      if-known Ends (not (Aac.is_valid_header h)) (λ e. done-ne-stuck _)
        λ valid.
          let passes : Aac.is_valid_header h ≡ true = not_not (Aac.is_valid_header h) valid in
          let some_bytes : 0 < length_of h = long f.pos passes in
          if-known Ends (ltb (next + length_of h) (length f.bytes))
            (λ more.
              walk_frames-ne-stuck fuel (suc frames) (next + length_of h)
                (seek_set (f.pos + length_of h) f) long (ground arith) (omega arith))
            (λ e. done-ne-stuck _))
  where
    not_not : (b : Bool) → not b ≡ false → b ≡ true
    not_not true e = refl
    not_not false e = cc

module _ (play_seconds : ℕ → ℕ → ℕ) where
  bitrate_of_walk-ne-stuck :
      (size : ℕ) (w : Aac.Walked) → Aac.bitrate_of_walk play_seconds size w ≢ stuck
  unfolding Aac.bitrate_of_walk
  bitrate_of_walk-ne-stuck size w =
      let Ends : Outcome ℕ → Type 0 = λ o. o ≢ stuck in
      if-both Ends (w.frames == 0) (done-ne-stuck 0) (
        if-both Ends (w.frequency == 0) crash-ne-stuck
          (if-both Ends (play_seconds w.frames w.frequency == 0) crash-ne-stuck (done-ne-stuck _)))

  aac_segment_behind-ne-stuck :
      (start stop from : ℕ) (f : File) (o : Option Aac.Walked)
      → Aac.segment_behind play_seconds start stop from f o ≢ stuck
  unfolding Aac.segment_behind
  aac_segment_behind-ne-stuck start stop from f none = done-ne-stuck _
  aac_segment_behind-ne-stuck start stop from f (some w) =
      >>=-ne-stuck (Aac.bitrate_of_walk play_seconds (length f.bytes) w) _
        (bitrate_of_walk-ne-stuck (length f.bytes) w) λ bitrate e. done-ne-stuck _

  pub aac-ne-stuck :
      (f : File) (start stop : ℕ)
      → Long f.bytes
      → Aac.get_file_segment play_seconds (suc (length f.bytes)) f start stop ≢ stuck
  unfolding Aac.get_file_segment
  aac-ne-stuck f start stop long =
      let from : ℕ = Aac.start_pos_from f in
      >>=-ne-stuck (Aac.walk_frames (suc (length f.bytes)) 0 0 (seek_set from f)) _
        (walk_frames-ne-stuck (suc (length f.bytes)) 0 0 (seek_set from f) long (omega arith)
          (omega arith))
        λ o e. aac_segment_behind-ne-stuck start stop from f o
