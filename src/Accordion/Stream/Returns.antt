-- ===== src/Accordion/Stream/Returns.antt =====
-- accordion_V10.X/mpx.cpp and aac.cpp: what one call for frames owes, and that it returns.
use cproject.Base.{
  ℕ, zero, suc, ◌+◌, ◌-◌, ◌*◌, ◌≤◌, ◌≡◌, ◌≢◌, ◌⊎◌, refl, ap, ◌∙◌, sym, leb, List, [], length, take,
  drop, arith, done, crash, stuck, ◌>>=◌, done-cases, subst, ◌<◌, inl, inr, Bool-cases,
}
use cproject.Accordion.File.{File, read, after_read}
use cproject.Accordion.Stream.{
  Format, Sent, Round, frame, last, body, round, go_on, frames_loop, Player, get_frames, buf_size,
}
use cproject.Accordion.Stream.Copy.{
  Copied, Ready, NoFrame, length-read_le, round-Ready, frames_loop-Ended,
}

-- What one call of `mpx_GetFrames` or `aac_GetFrames` owes: the buffer holds what the file has from its
-- position on, without a gap or a change, in at most as many frames as are sent at a time, which it
-- counts, and fewer only where all frames are sent, or where no frame starts behind them; the other
-- fields stay.
pub record Sends (fmt : Format) (p : Player) (out : List ℕ) (q : Player) : Type 0 where
  pub bytes : q.file.bytes ≡ p.file.bytes
  pub text : out ≡ take (length out) (drop p.file.pos p.file.bytes)
  pub some_frames : p.send_frame_number ≤ q.send_frame_number
  pub no_more : q.send_frame_number ≤ p.send_frame_number + p.frames_to_read
  pub whole :
      (q.send_frame_number ≡ p.send_frame_number + p.frames_to_read)
      ⊎ (p.total_frames ≤ p.send_frame_number)
      ⊎ NoFrame fmt (drop (p.file.pos + length out) p.file.bytes)
  pub total : q.total_frames ≡ p.total_frames
  pub to_read : q.frames_to_read ≡ p.frames_to_read

-- The end of the call, behind the loop.
close : Player → Sent → List ℕ × Player
close p s = (s.buf, record p { file = s.file; send_frame_number = p.send_frame_number + s.frames })

close-Sends :
    (fmt : Format) (p : Player) (most : ℕ) (s : Sent)
    → Copied most p.file s
    → s.frames ≤ p.frames_to_read
    → (s.frames ≡ p.frames_to_read)
      ⊎ (p.total_frames ≤ p.send_frame_number)
      ⊎ NoFrame fmt (drop (p.file.pos + length s.buf) p.file.bytes)
    → Sends fmt p s.buf (close p s).1
unfolding close
close-Sends fmt p most s c le whole = record {
  bytes = c.bytes;
  text = c.buf;
  some_frames = omega arith;
  no_more = omega arith;
  whole = elim whole [
    | inl all ↦ inl (ap (λ n. p.send_frame_number + n) all)
    | inr (inl none_left) ↦ inr (inl none_left)
    | inr (inr behind) ↦ inr (inr behind)
  ];
  total = refl;
  to_read = refl;
}

module _ (fmt : Format) where
  -- At `i` of the file, a header whose frame is shorter than it does not stand.
  abbrev pub Room : File → ℕ → Type 0
  Room f i =
      let len = fmt.frame_length (take fmt.header_size (drop i f.bytes)) in
      (len ≡ 0) ⊎ (fmt.header_size ≤ len)

  body-ne :
      (h : List ℕ) (len : ℕ) (s : Sent)
      → fmt.header_size ≤ len
      → length s.buf + len ≤ buf_size
      → (body fmt h len s ≢ crash) × (body fmt h len s ≢ stuck)
  unfolding body
  body-ne h len s le fits =
      let read_le = length-read_le (len - fmt.header_size) (after_read fmt.header_size s.file) in
      (λ e. ground arith, λ e. ground arith)

  -- A round at such a place neither crashes nor hangs.
  round-returns :
      (s : Sent)
      → Room s.file s.file.pos
      → length s.buf + fmt.frame_length (take fmt.header_size (drop s.file.pos s.file.bytes))
        ≤ buf_size
      → (x : Round) × (round fmt s ≡ done x)
  unfolding round read
  round-returns s room fits =
      let bs : List ℕ = take fmt.header_size (drop s.file.pos s.file.bytes) in
      done-cases (round fmt s) (λ e. ground (arith, body-ne bs (fmt.frame_length bs) s))
        (λ e. ground (arith, body-ne bs (fmt.frame_length bs) s))

  module _ (f : File) (room : (i : ℕ) → Room f i) (most : ℕ)
      (small : (i : ℕ) → fmt.frame_length (take fmt.header_size (drop i f.bytes)) ≤ most)
      (to_read : ℕ) (fits : most * to_read ≤ buf_size) where
    start : (s : Sent) → Ready most f s → s.frames < to_read → (x : Round) × (round fmt s ≡ done x)
    start s r lt =
        let same : f.bytes ≡ s.file.bytes = sym r.copied.bytes in
        let le : fmt.frame_length (take fmt.header_size (drop s.file.pos s.file.bytes)) ≤ most =
          subst (λ bs. fmt.frame_length (take fmt.header_size (drop s.file.pos bs)) ≤ most) same
            (small s.file.pos) in
        let held : length s.buf ≤ most * s.frames = r.copied.size in
        let one_more : most * s.frames + most ≤ most * to_read = grind arith in
        round-returns s
          (subst (λ bs. Room (record { bytes = bs; pos = s.file.pos }) s.file.pos) same
            (room s.file.pos))
          (omega (arith, le, held, one_more, fits))

    -- A round and the rest of the loop.
    onwards :
        (rounds : ℕ) (s : Sent) (x : Round)
        → ((u : Sent)
            → Ready most f u
            → u.frames + rounds ≤ to_read
            → (t : Sent) × (frames_loop fmt rounds u ≡ done t))
        → Ready most f s
        → s.frames + suc rounds ≤ to_read
        → round fmt s ≡ done x
        → (t : Sent) × (go_on (frames_loop fmt rounds) s x ≡ done t)
    unfolding go_on
    onwards rounds s (frame u) loop r le e =
        let (ready, one) = round-Ready fmt f most small s u e r in loop u ready (omega arith)
    onwards rounds s (last g) loop r le e = (record s { file = g }, refl)

    frames_loop-returns :
        (rounds : ℕ) (s : Sent)
        → Ready most f s
        → s.frames + rounds ≤ to_read
        → (t : Sent) × (frames_loop fmt rounds s ≡ done t)
    unfolding frames_loop
    frames_loop-returns zero s r le = (s, refl)
    frames_loop-returns (suc rounds) s r le =
        let (x, e) = start s r (omega arith) in
        let (t, e') = onwards rounds s x (frames_loop-returns rounds) r le e in
        (t, ap (λ o. o >>= go_on (frames_loop fmt rounds) s) e ∙ e')

  -- On a file with room for the frames, and where the buffer has room for as many of the longest, the
  -- call returns, and sends what it owes.
  pub get_frames-Sends :
      (p : Player) (most : ℕ)
      → ((i : ℕ) → Room p.file i)
      → ((i : ℕ) → fmt.frame_length (take fmt.header_size (drop i p.file.bytes)) ≤ most)
      → most * p.frames_to_read ≤ buf_size
      → (buf : List ℕ) × (q : Player) × (get_frames fmt p ≡ done (buf, q)) × Sends fmt p buf q
  unfolding get_frames close
  get_frames-Sends p most room small fits =
      let start : Sent = record { file = p.file; buf = []; frames = 0 } in
      let ready : Ready most p.file start = record {
        copied = record { bytes = refl; buf = refl; size = omega arith };
        pos = omega arith;
      } in
      let (t, e) =
        frames_loop-returns p.file room most small p.frames_to_read fits p.frames_to_read start
          ready (omega arith) in
      let ended = frames_loop-Ended fmt p.file most small p.frames_to_read start t e ready in
      let le : t.frames ≤ p.frames_to_read = let le' = ended.no_more in omega arith in
      elim (Bool-cases (leb p.total_frames p.send_frame_number)) [
        | inl all ↦ (
          [],
          (close p start).1,
          rw all refl,
          close-Sends fmt p most start ready.copied (omega arith) (inr (inl (ground arith))),
        )
        | inr more ↦ (
          t.buf,
          (close p t).1,
          rw (more, e) refl,
          close-Sends fmt p most t ended.copied le
              (elim ended.whole [ inl n ↦ inl (omega arith) | inr behind ↦ inr (inr behind) ]),
        )
      ]
