-- ===== src/Accordion/Stream/Copy.antt =====
-- accordion_V10.X/mpx.cpp and aac.cpp: what the loop over the frames sends is the text of the file.
use cproject.Base.{
  ℕ, zero, suc, ◌+◌, ◌*◌, ◌≤◌, ◌≡◌, refl, ap, ap₂, ◌∙◌, sym, List, ◌++◌, length, length-append,
  length-take, length-drop, take, drop, drop-drop, take-append-take, arith, done, >>=-eq-done,
  done-injective, subst, ◌<◌, ◌-◌, ◌==◌, ◌⊎◌, inl, inr, ltb, Bool-cases,
}
use cproject.Accordion.File.{File, read, after_read}
use cproject.Accordion.Stream.{Format, Sent, Round, frame, last, body, round, go_on, frames_loop}

-- `s` holds what the file `f` has from its position on, no more than `most` bytes a frame.
pub record Copied (most : ℕ) (f : File) (s : Sent) : Type 0 where
  pub bytes : s.file.bytes ≡ f.bytes
  pub buf : s.buf ≡ take (length s.buf) (drop f.pos f.bytes)
  pub size : length s.buf ≤ most * s.frames

-- Between two rounds the position is behind what was copied.
pub record Ready (most : ℕ) (f : File) (s : Sent) : Type 0 where
  pub copied : Copied most f s
  pub pos : s.file.pos ≡ f.pos + length s.buf

pub length-read_le : (n : ℕ) (f : File) → length (read n f) ≤ n
unfolding read
length-read_le n f = ground (arith, length-take n (drop f.pos f.bytes))

-- Two reads, the first of which was not short, are one.
read-read :
    (n m : ℕ) (f : File)
    → length (read n f) ≡ n
    → read n f ++ read m (after_read n f) ≡ read (n + m) f
unfolding read after_read
read-read n m f full =
    rw (full, ← drop-drop f.pos n f.bytes) (take-append-take n m (drop f.pos f.bytes))

-- What is read next continues the copy.
read_next :
    (most : ℕ) (f : File) (s : Sent) (n : ℕ)
    → Ready most f s
    → s.buf ++ read n s.file ≡ take (length s.buf + n) (drop f.pos f.bytes)
unfolding read
read_next most f s n r =
    let split = take-append-take (length s.buf) n (drop f.pos f.bytes) in
    ap (λ b. b ++ take n (drop s.file.pos s.file.bytes)) r.copied.buf
    ∙ (ap₂ (λ p b. take (length s.buf) (drop f.pos f.bytes) ++ take n (drop p b)) r.pos
          r.copied.bytes
        ∙ (ap (λ x. take (length s.buf) (drop f.pos f.bytes) ++ take n x)
              (sym (drop-drop f.pos (length s.buf) f.bytes))
            ∙ split))

module _ (fmt : Format) where
  -- Reading leaves the bytes alone.
  body-bytes :
      (h : List ℕ) (len : ℕ) (s : Sent) (g : File)
      → body fmt h len s ≡ done (last g)
      → g.bytes ≡ s.file.bytes
  unfolding body after_read
  body-bytes h len s g e = ground arith

  round-bytes : (s : Sent) (g : File) → round fmt s ≡ done (last g) → g.bytes ≡ s.file.bytes
  unfolding round after_read
  round-bytes s g e = ground (
    arith,
    body-bytes (read fmt.header_size s.file) (fmt.frame_length (read fmt.header_size s.file)) s g,
  )

  -- No frame starts here: too little is left for a header, the header is none, or the frame is not whole.
  abbrev pub NoFrame : List ℕ → Type 0
  NoFrame rest =
      let len = fmt.frame_length (take fmt.header_size rest) in
      (length rest < fmt.header_size) ⊎ (len ≡ 0) ⊎ (length rest < len)

  body-short :
      (h : List ℕ) (len : ℕ) (s : Sent) (g : File)
      → body fmt h len s ≡ done (last g)
      → (fmt.header_size ≤ len)
        × (length (read (len - fmt.header_size) (after_read fmt.header_size s.file))
            < len - fmt.header_size)
  unfolding body
  body-short h len s g e = (ground arith, ground arith)

  -- A frame is short where less of the file is left.
  left_short :
      (s : Sent) (len : ℕ)
      → length (read fmt.header_size s.file) ≡ fmt.header_size
      → fmt.header_size ≤ len
      → length (read (len - fmt.header_size) (after_read fmt.header_size s.file))
        < len - fmt.header_size
      → length (drop s.file.pos s.file.bytes) < len
  unfolding read after_read
  left_short s len full room short =
      let hs : ℕ = fmt.header_size in
      let at : ℕ = s.file.pos + length (take hs (drop s.file.pos s.file.bytes)) in
      omega (
        arith,
        full,
        room,
        short,
        length-take (len - hs) (drop at s.file.bytes),
        length-drop at s.file.bytes,
        length-drop s.file.pos s.file.bytes,
      )

  round-NoFrame :
      (s : Sent) (g : File) → round fmt s ≡ done (last g) → NoFrame (drop s.file.pos s.file.bytes)
  unfolding round read
  round-NoFrame s g e =
      let hs : ℕ = fmt.header_size in
      let rest : List ℕ = drop s.file.pos s.file.bytes in
      let h : List ℕ = take hs rest in
      let len : ℕ = fmt.frame_length h in
      let size = length-take hs rest in
      elim (Bool-cases (ltb (length h) hs)) [
        | inl a ↦ inl (ground (arith, size))
        | inr a ↦ elim (Bool-cases (len == 0)) [
          | inl b ↦ inr (inl (ground arith))
          | inr b ↦
              let inside : body fmt h len s ≡ done (last g) = ground arith in
              let (room, short) = body-short h len s g inside in
              let full : length h ≡ hs = ground (arith, size) in
              inr (inr (left_short s len full room short))
        ]
      ]

  module _ (f : File) (most : ℕ)
      (small : (i : ℕ) → fmt.frame_length (take fmt.header_size (drop i f.bytes)) ≤ most) where
    body-Ready :
        (len : ℕ) (s t : Sent)
        → length (read fmt.header_size s.file) ≡ fmt.header_size
        → len ≤ most
        → body fmt (read fmt.header_size s.file) len s ≡ done (frame t)
        → Ready most f s
        → Ready most f t × (t.frames ≡ s.frames + 1)
    unfolding body after_read
    body-Ready len s t full small e r =
        let rest : ℕ = len - fmt.header_size in
        let h : List ℕ = read fmt.header_size s.file in
        let g : File = after_read fmt.header_size s.file in
        let data' : List ℕ = read rest g in
        let next : Sent = record {
          file = after_read rest g;
          buf = s.buf ++ (h ++ data');
          frames = s.frames + 1;
        } in
        let long : length data' ≡ rest = ground (arith, length-read_le rest g) in
        let same : next ≡ t = ground arith in
        let room : fmt.header_size ≤ len = ground arith in
        let n : ℕ = fmt.header_size + rest in
        let whole : h ++ data' ≡ read n s.file = read-read fmt.header_size rest s.file full in
        let size : length (h ++ data') ≡ n = length-append h data' ∙ ap₂ (λ x y. x + y) full long in
        let at : length next.buf ≡ length s.buf + n =
          length-append s.buf (h ++ data') ∙ ap (λ x. length s.buf + x) size in
        let buf : next.buf ≡ take (length next.buf) (drop f.pos f.bytes) =
          ap (λ x. s.buf ++ x) whole
          ∙ (read_next most f s n r ∙ ap (λ x. take x (drop f.pos f.bytes)) (sym at)) in
        let bound : length s.buf ≤ most * s.frames = r.copied.size in
        let one_more : most * (s.frames + 1) ≡ most * s.frames + most = grind arith in
        let start : s.file.pos ≡ f.pos + length s.buf = r.pos in
        let le : length next.buf ≤ most * (s.frames + 1) = omega arith in
        let pos : next.file.pos ≡ f.pos + length next.buf = omega arith in
        subst (λ t. Ready most f t × (t.frames ≡ s.frames + 1)) same
          (
            record { copied = record { bytes = r.copied.bytes; buf = buf; size = le }; pos = pos },
            refl,
          )

    small_next : (s : Sent) → Ready most f s → fmt.frame_length (read fmt.header_size s.file) ≤ most
    unfolding read
    small_next s r =
        subst (λ bs. fmt.frame_length (take fmt.header_size (drop s.file.pos bs)) ≤ most)
          (sym r.copied.bytes) (small s.file.pos)

    pub round-Ready :
        (s t : Sent)
        → round fmt s ≡ done (frame t)
        → Ready most f s
        → Ready most f t × (t.frames ≡ s.frames + 1)
    unfolding round
    round-Ready s t e r = ground (
      arith,
      body-Ready (fmt.frame_length (read fmt.header_size s.file)) s t,
      length-read_le fmt.header_size s.file,
      small_next s r,
    )

    -- What a run of the loop with `rounds` frames to go leaves: at most as many frames more, and fewer
    -- only where no frame starts behind them.
    pub record Ended (rounds : ℕ) (s t : Sent) : Type 0 where
      pub copied : Copied most f t
      pub more : s.frames ≤ t.frames
      pub no_more : t.frames ≤ s.frames + rounds
      pub whole : (t.frames ≡ s.frames + rounds) ⊎ NoFrame (drop (f.pos + length t.buf) f.bytes)

    -- One round, and the rest of the loop behind it.
    by_round :
        (rounds : ℕ) (s t : Sent) (x : Round)
        → ((u : Sent) → frames_loop fmt rounds u ≡ done t → Ready most f u → Ended rounds u t)
        → Ready most f s
        → round fmt s ≡ done x
        → go_on (frames_loop fmt rounds) s x ≡ done t
        → Ended (suc rounds) s t
    unfolding go_on
    by_round rounds s t (frame u) loop r e h =
        let (ready, one) = round-Ready s u e r in
        let ended = loop u h ready in
        record {
          copied = ended.copied;
          more = let le = ended.more in omega arith;
          no_more = let le = ended.no_more in omega arith;
          whole = elim ended.whole [ inl all ↦ inl (omega arith) | inr behind ↦ inr behind ];
        }
    by_round rounds s t (last g) loop r e h =
        let at_end : record s { file = g } ≡ t = done-injective h in
        subst (Ended (suc rounds) s) at_end (record {
          copied = record {
            bytes = round-bytes s g e ∙ r.copied.bytes;
            buf = r.copied.buf;
            size = r.copied.size;
          };
          more = omega arith;
          no_more = omega arith;
          whole = inr (
              subst (λ bs. NoFrame (drop (f.pos + length s.buf) bs)) r.copied.bytes
                (subst (λ i. NoFrame (drop i s.file.bytes)) r.pos (round-NoFrame s g e)));
        })

    pub frames_loop-Ended :
        (rounds : ℕ) (s t : Sent)
        → frames_loop fmt rounds s ≡ done t
        → Ready most f s
        → Ended rounds s t
    unfolding frames_loop
    frames_loop-Ended zero s t e r =
        let at_end : s ≡ t = done-injective e in
        subst (Ended 0 s) at_end (record {
          copied = r.copied;
          more = omega arith;
          no_more = omega arith;
          whole = inl (omega arith);
        })
    frames_loop-Ended (suc rounds) s t e r =
        let (x, e', h) = >>=-eq-done (round fmt s) (go_on (frames_loop fmt rounds) s) e in
        by_round rounds s t x (λ u. frames_loop-Ended rounds u t) r e' h
