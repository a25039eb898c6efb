-- ===== src/MusicgoAlias/Answer/Termination.antt =====
-- musicgo_alias/Parameters.cpp: every request is answered, or runs into undefined behaviour.
use cproject.Base.{
  ℕ, zero, suc, ◌-◌, ◌<◌, ◌≡◌, ◌≢◌, refl, ap, ◌∙◌, take, arith, if-known, Bool, false, not, ◌||◌,
  ◌==◌, ltb, if-both, Option, none, some, List, [], ◌∷◌, length, Outcome, stuck, >>=-ne-stuck,
  done-ne-stuck, crash-ne-stuck,
}
use cproject.Base.Int.{ℤ, pos, ◌+ℤ◌}
use cproject.Base.Text.{Text, codes}
use cproject.Accordion.File.{File, read, after_read}
use cproject.MusicgoAlias.Request.{Request}
use cproject.MusicgoAlias.Parse.{Parsed, sparse}
use cproject.MusicgoAlias.Parse.Termination.{sparse-ne-stuck}
use cproject.MusicgoAlias.Sending.{Attempt, Delivered, bsend}
use cproject.MusicgoAlias.Sending.Complete.{Answers, bsend-Answers}
use cproject.MusicgoAlias.Answer.Whole.{rest_of, shorter}
use cproject.MusicgoAlias.Segment.{Segment}
use cproject.MusicgoAlias.Segment.Termination.{Long, mp3-ne-stuck, aac-ne-stuck}
use cproject.MusicgoAlias.Reply.{Reply, System, ConfigInfo, refusal_line, refuse}
use cproject.MusicgoAlias.Answer.{
  Body, chunk_size, min_of, behind_round, send_file, sums_hold, seek_range, segment_with,
  segment_of, send_range, send_first, send_opened, answer_parsed, create_answer,
}
use cproject.MusicgoAlias.Answer.Range.{
  end_for, header_for, segment_of-bytes, seek_range-bytes, rest_of_le,
}

-- Some outcome that is not for ever in a loop.
abbrev Ends : Outcome Reply → Type 0
Ends o = o ≢ stuck

-- No file that can be opened has an aac header that passes and states the length 0.
abbrev pub AllLong : System → Type 0
AllLong sys = (name : Text) (bytes : List ℕ) → sys.opened name ≡ some bytes → Long bytes

refuse-ne-stuck :
    (code : ℕ) (what : Text) (r : Request) (attempts : List Attempt)
    → Answers attempts
    → refuse code what r attempts ≢ stuck
unfolding refuse
refuse-ne-stuck code what r attempts answers =
    let (goes, left) = bsend-Answers attempts (refusal_line r.http what) answers in
    if-both Ends (ltb 1023 (length (refusal_line r.http what))) crash-ne-stuck
      (rw goes (done-ne-stuck _))

behind_round-ne-stuck :
    (s : Delivered) (size rest : ℕ) (more : Outcome Body)
    → s.waits ≡ false
    → more ≢ stuck
    → behind_round s size rest more ≢ stuck
unfolding behind_round
behind_round-ne-stuck s size rest more goes ends =
    let Stops : Outcome Body → Type 0 = λ o. o ≢ stuck in
    rw goes (
      if-both Stops (not s.ok) (done-ne-stuck _) (
        if-both Stops (rest == 0) (done-ne-stuck _)
          (>>=-ne-stuck more _ ends (λ b e. done-ne-stuck _))))

-- The loop ends on every socket that answers, also where the file cannot be read.
send_file-ne-stuck :
    (unreadable : ℕ → Bool) (fuel : ℕ) (attempts : List Attempt) (end : ℕ) (f : File)
    → Answers attempts
    → length (rest_of f) < fuel
    → send_file unreadable fuel attempts end f ≢ stuck
unfolding send_file read
send_file-ne-stuck unreadable zero attempts end f answers lt = absurd (omega arith)
send_file-ne-stuck unreadable (suc fuel) attempts end f answers lt =
    let chunk : List ℕ = take chunk_size (rest_of f) in
    let len : ℕ = min_of (length chunk) end in
    let s : Delivered = bsend attempts (take len chunk) in
    let f' : File = after_read chunk_size f in
    let Stops : Outcome Body → Type 0 = λ o. o ≢ stuck in
    if-both Stops (unreadable f.pos) crash-ne-stuck (
      if-known Stops (length chunk == 0) (λ e. done-ne-stuck _)
        λ e.
          let (goes, left_answers) = bsend-Answers attempts (take len chunk) answers in
          behind_round-ne-stuck s len (end - len) (send_file unreadable fuel s.left (end - len) f')
            goes
            (send_file-ne-stuck unreadable fuel s.left (end - len) f' left_answers
              (shorter f fuel e lt)))

module _ (sys : System) (config : ConfigInfo) where
  segment_with-ne-stuck :
      (token : Option Text) (is_aac : Bool) (f : File)
      → Long f.bytes
      → segment_with sys config token is_aac f ≢ stuck
  unfolding segment_with
  segment_with-ne-stuck (some t) is_aac f long = done-ne-stuck _
  segment_with-ne-stuck none is_aac f long =
      if-both (λ (o : Outcome Segment). o ≢ stuck) is_aac
        (aac-ne-stuck sys.play_seconds f config.start_position config.duration long)
        (mp3-ne-stuck f config.start_position config.duration)

  segment_of-ne-stuck :
      (r : Request) (bytes : List ℕ) → Long bytes → segment_of sys config r bytes ≢ stuck
  unfolding segment_of
  segment_of-ne-stuck r bytes long =
      segment_with-ne-stuck r.token r.is_aac (record { bytes = bytes; pos = 0 }) long

  send_range-ne-stuck :
      (r : Request) (begin : ℤ) (range_stop : ℕ) (bytes : List ℕ) (segment : Segment)
      (attempts : List Attempt)
      → Answers attempts
      → segment.file.bytes ≡ bytes
      → send_range sys config r begin range_stop bytes segment attempts ≢ stuck
  unfolding send_range
  send_range-ne-stuck r begin range_stop bytes segment attempts answers kept =
      let end : ℕ = end_for range_stop bytes segment in
      let header : Text = header_for sys r begin range_stop bytes segment in
      let head : Delivered = bsend attempts header in
      let there : File = seek_range (pos segment.start +ℤ begin) segment.file in
      let (goes, left_answers) = bsend-Answers attempts header answers in
      let same_length : length there.bytes ≡ length bytes =
        ap length (seek_range-bytes (pos segment.start +ℤ begin) segment.file ∙ kept) in
      let body_ends =
        send_file-ne-stuck sys.unreadable (suc (length bytes)) head.left end there left_answers
          (omega (arith, rest_of_le there, same_length)) in
      if-both Ends (not (sums_hold segment.start begin end) || ltb chunk_size (length header))
        crash-ne-stuck
        (rw goes (
          if-both Ends (not head.ok) (done-ne-stuck _) (
            if-both Ends (ltb 2147483647 end) crash-ne-stuck (
              >>=-ne-stuck (send_file sys.unreadable (suc (length bytes)) head.left end there) _
                body_ends (λ b e. done-ne-stuck _)))))

  send_first-ne-stuck :
      (r : Request) (ranges : List (ℤ × ℕ)) (bytes : List ℕ) (attempts : List Attempt)
      → Answers attempts
      → Long bytes
      → send_first sys config r ranges bytes attempts ≢ stuck
  unfolding send_first
  send_first-ne-stuck r [] bytes attempts answers long = crash-ne-stuck
  send_first-ne-stuck r ((begin, range_stop) ∷ ranges) bytes attempts answers long =
      >>=-ne-stuck (segment_of sys config r bytes) _ (segment_of-ne-stuck r bytes long) λ segment e.
        send_range-ne-stuck r begin range_stop bytes segment attempts answers
          (segment_of-bytes sys config r bytes segment e)

  send_opened-ne-stuck :
      (r : Request) (o : Option (List ℕ)) (attempts : List Attempt)
      → Answers attempts
      → ((bytes : List ℕ) → o ≡ some bytes → Long bytes)
      → send_opened sys config r o attempts ≢ stuck
  unfolding send_opened
  send_opened-ne-stuck r none attempts answers long =
      refuse-ne-stuck 403 (codes "403 Forbidden") r attempts answers
  send_opened-ne-stuck r (some bytes) attempts answers long =
      send_first-ne-stuck r r.ranges bytes attempts answers (long bytes refl)

  answer_parsed-ne-stuck :
      (p : Parsed) (attempts : List Attempt)
      → Answers attempts
      → AllLong sys
      → answer_parsed sys config p attempts ≢ stuck
  unfolding answer_parsed
  answer_parsed-ne-stuck p attempts answers long =
      if-both Ends (not (p.status == 0) || length p.file == 0)
        (refuse-ne-stuck 405 (codes "405 Method Not Allowed") p.request attempts answers)
        (if-both Ends (not (sys.exists p.file))
          (refuse-ne-stuck 404 (codes "404 Not Found") p.request attempts answers)
          (send_opened-ne-stuck p.request (sys.opened p.file) attempts answers (long p.file)))

-- Where no file has an aac header that passes and states the length 0, and on a socket that does not answer
-- EAGAIN for ever: the server comes to an end with every request, whatever was received; it returns, or it
-- runs into undefined behaviour, as it does where the file that is sent cannot be read.
pub create_answer-ne-stuck :
    (sys : System) (config : ConfigInfo) (received : Text) (attempts : List Attempt)
    → AllLong sys
    → Answers attempts
    → create_answer sys config received attempts ≢ stuck
unfolding create_answer
create_answer-ne-stuck sys config received attempts long answers =
    >>=-ne-stuck (sparse config.aliases received) _ (sparse-ne-stuck config.aliases received)
      λ p e. answer_parsed-ne-stuck sys config p attempts answers long
