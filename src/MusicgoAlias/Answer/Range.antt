-- ===== src/MusicgoAlias/Answer/Range.antt =====
-- musicgo_alias/Parameters.cpp: the header of an answer, and the range behind it.
use cproject.Base.{
  ℕ, suc, ◌≤◌, ◌≡◌, refl, sym, ap, subst, ◌∙◌, Bool, true, false, not, ltb, if◌then◌else◌, if-both,
  Option, none, some, List, ◌++◌, length, take, length-drop, arith, Outcome, done, ◌>>=◌,
}
use cproject.Base.Int.{ℤ, pos, negsuc, ◌+ℤ◌}
use cproject.Base.Text.{Text}
use cproject.Accordion.File.{File}
use cproject.MusicgoAlias.Request.{Request}
use cproject.MusicgoAlias.Parse.{text_of}
use cproject.MusicgoAlias.Sending.{Attempt, Delivered, bsend}
use cproject.MusicgoAlias.Sending.Complete.{
  Answers, bsend-Answers, Smooth, Smooth-Answers, bsend-Smooth, Prefix, Prefix-append,
  append-Prefix, bsend-Prefix, bsend-whole,
}
use cproject.MusicgoAlias.Segment.{Segment}
use cproject.MusicgoAlias.Segment.Kept.{Keeps, mp3-Keeps, aac-Keeps}
use cproject.MusicgoAlias.Reply.{Reply, System, ConfigInfo, header_line}
use cproject.MusicgoAlias.Answer.{
  Body, send_file, chunk_size, segment_length, end_of, kind_of, seek_range, segment_with,
  segment_of, send_range, sums_hold,
}
use cproject.MusicgoAlias.Answer.Whole.{rest_of, send_file-Smooth}
use cproject.MusicgoAlias.Answer.Begun.{send_file-Prefix}

-- `data_end + 1` for a file, its segment, and the end of a range.
abbrev pub end_for : ℕ → List ℕ → Segment → ℕ
end_for range_stop bytes segment = end_of range_stop (segment_length (length bytes) segment)

-- The header of the answer.
abbrev pub header_for : System → Request → ℤ → ℕ → List ℕ → Segment → Text
header_for sys r begin range_stop bytes segment =
    header_line (text_of r.http) sys.str_time begin (end_for range_stop bytes segment)
      (segment_length (length bytes) segment) (kind_of r)

-- The bytes of the file that are sent.
abbrev pub body_for : ℤ → ℕ → List ℕ → Segment → List ℕ
body_for begin range_stop bytes segment =
    take (end_for range_stop bytes segment)
      (rest_of (seek_range (pos segment.start +ℤ begin) segment.file))

abbrev pub served : System → Request → ℤ → ℕ → List ℕ → Segment → Reply
served sys r begin range_stop bytes segment =
    let header = header_for sys r begin range_stop bytes segment in
    let body = body_for begin range_stop bytes segment in
    record {
      ok = true;
      received = header ++ body;
      request = r;
      response = 206;
      response_size = length body;
      header_size = length header;
      file_size = length bytes;
      range_start = begin;
      range_stop = range_stop;
    }

pub seek_range-bytes : (i : ℤ) (f : File) → (seek_range i f).bytes ≡ f.bytes
seek_range-bytes (pos n) f = refl
seek_range-bytes (negsuc n) f = refl

pub rest_of_le : (f : File) → length (rest_of f) ≤ length f.bytes
rest_of_le f = omega (arith, length-drop f.pos f.bytes)

-- A header, and what is sent behind it if all of it could be sent.
head_and_body :
    (header body : List ℕ) (head : Delivered) (more : Outcome Body) (reply : Reply) (b : Body)
    → Prefix head.bytes header
    → (head.ok ≡ true → head.bytes ≡ header)
    → reply.received ≡ head.bytes
    → more ≡ done b
    → Prefix b.bytes body
    → (a : Reply) × ((if not head.ok
          then done reply
          else (more >>= λ x.
              done (record reply { received = head.bytes ++ x.bytes; response_size = x.size })))
        ≡ done a)
      × Prefix a.received (header ++ body)
head_and_body header body head more reply b begun whole same sent begun_body = by_ok head.ok refl
  where
    Sends : Outcome Reply → Type 0
    Sends o = (a : Reply) × (o ≡ done a) × Prefix a.received (header ++ body)

    by_ok :
        (o : Bool)
        → head.ok ≡ o
        → Sends (
            if not o
            then done reply
            else (more >>= λ x.
                done (record reply { received = head.bytes ++ x.bytes; response_size = x.size })))
    by_ok false e = (
      reply,
      refl,
      subst (λ t. Prefix t (header ++ body)) (sym same)
          (Prefix-append head.bytes header body (header ++ body) begun refl),
    )
    by_ok true e = (
      record reply { received = head.bytes ++ b.bytes; response_size = b.size },
      rw sent refl,
      append-Prefix head.bytes b.bytes body (header ++ body) begun_body
          (ap (λ t. t ++ body) (whole e)),
    )

module _ (sys : System) (config : ConfigInfo) where
  segment_with-Keeps :
      (token : Option Text) (is_aac : Bool) (f : File)
      → Keeps f.bytes (segment_with sys config token is_aac f)
  unfolding segment_with
  segment_with-Keeps (some t) is_aac f = refl
  segment_with-Keeps none is_aac f =
      if-both (Keeps f.bytes) is_aac
        (aac-Keeps sys.play_seconds (suc (length f.bytes)) f config.start_position config.duration)
        (mp3-Keeps f config.start_position config.duration)

  pub segment_of-bytes :
      (r : Request) (bytes : List ℕ) (segment : Segment)
      → segment_of sys config r bytes ≡ done segment
      → segment.file.bytes ≡ bytes
  unfolding segment_of
  segment_of-bytes r bytes segment e =
      subst (Keeps bytes) e
        (segment_with-Keeps r.token r.is_aac (record { bytes = bytes; pos = 0 }))

  pub send_range-Smooth :
      (r : Request) (begin : ℤ) (range_stop : ℕ) (bytes : List ℕ) (segment : Segment)
      (attempts : List Attempt)
      → segment.file.bytes ≡ bytes
      → sums_hold segment.start begin (end_for range_stop bytes segment) ≡ true
      → ltb chunk_size (length (header_for sys r begin range_stop bytes segment)) ≡ false
      → ltb 2147483647 (end_for range_stop bytes segment) ≡ false
      → ((i : ℕ) → sys.unreadable i ≡ false)
      → Smooth attempts
      → send_range sys config r begin range_stop bytes segment attempts
        ≡ done (served sys r begin range_stop bytes segment)
  unfolding send_range
  send_range-Smooth r begin range_stop bytes segment attempts kept holds fits small readable
        smooth =
      let header : Text = header_for sys r begin range_stop bytes segment in
      let there : File = seek_range (pos segment.start +ℤ begin) segment.file in
      let (ok, sent, left_smooth) = bsend-Smooth attempts header smooth in
      let (waits, left_answers) = bsend-Answers attempts header (Smooth-Answers attempts smooth) in
      let whole : there.bytes ≡ bytes =
        seek_range-bytes (pos segment.start +ℤ begin) segment.file ∙ kept in
      let same_length : length there.bytes ≡ length bytes = ap length whole in
      rw
        (
          holds,
          fits,
          waits,
          ok,
          small,
          sent,
          send_file-Smooth sys.unreadable readable (suc (length bytes)) (bsend attempts header).left
              (end_for range_stop bytes segment) there left_smooth
              (omega (arith, rest_of_le there, same_length)),
        )
        refl

  pub send_range-Prefix :
      (r : Request) (begin : ℤ) (range_stop : ℕ) (bytes : List ℕ) (segment : Segment)
      (attempts : List Attempt)
      → segment.file.bytes ≡ bytes
      → sums_hold segment.start begin (end_for range_stop bytes segment) ≡ true
      → ltb chunk_size (length (header_for sys r begin range_stop bytes segment)) ≡ false
      → ltb 2147483647 (end_for range_stop bytes segment) ≡ false
      → ((i : ℕ) → sys.unreadable i ≡ false)
      → Answers attempts
      → (a : Reply) × (send_range sys config r begin range_stop bytes segment attempts ≡ done a)
        × Prefix a.received (
            header_for sys r begin range_stop bytes segment
            ++ body_for begin range_stop bytes segment)
  unfolding send_range
  send_range-Prefix r begin range_stop bytes segment attempts kept holds fits small readable
        answers =
      let header : Text = header_for sys r begin range_stop bytes segment in
      let head : Delivered = bsend attempts header in
      let there : File = seek_range (pos segment.start +ℤ begin) segment.file in
      let end : ℕ = end_for range_stop bytes segment in
      let whole : there.bytes ≡ bytes =
        seek_range-bytes (pos segment.start +ℤ begin) segment.file ∙ kept in
      let same_length : length there.bytes ≡ length bytes = ap length whole in
      let (waits, left_answers) = bsend-Answers attempts header answers in
      let (b, sent, begun) =
        send_file-Prefix sys.unreadable readable (suc (length bytes)) head.left end there
          left_answers (omega (arith, rest_of_le there, same_length)) in
      let reply : Reply = record {
        ok = head.ok;
        received = head.bytes;
        request = r;
        response = 206;
        response_size = 0;
        header_size = if head.ok then length header else 0;
        file_size = length bytes;
        range_start = begin;
        range_stop = range_stop;
      } in
      rw (holds, fits, waits, small)
        (head_and_body header (body_for begin range_stop bytes segment) head
          (send_file sys.unreadable (suc (length bytes)) head.left end there) reply b
          (bsend-Prefix attempts header) (bsend-whole attempts header) refl sent begun)
