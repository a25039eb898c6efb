-- ===== src/MusicgoAlias/Answer/Begun.antt =====
-- musicgo_alias/Parameters.cpp: what the loop of `create_answer` sends on a socket that may fail.
use cproject.Base.{
  ℕ, zero, suc, ◌+◌, ◌-◌, ◌<◌, ◌≡◌, refl, ap, ◌∙◌, inl, inr, Bool, Bool-cases, true, false, not,
  ◌==◌, if◌then◌else◌, if-known, List, [], ◌++◌, length, take, drop, append-nil, arith, Outcome,
  done, ◌>>=◌,
}
use cproject.Accordion.File.{File, read, after_read}
use cproject.MusicgoAlias.Sending.{Attempt, Delivered, bsend}
use cproject.MusicgoAlias.Sending.Complete.{
  Answers, bsend-Answers, Prefix, Prefix-append, append-Prefix, bsend-Prefix, bsend-whole,
}
use cproject.MusicgoAlias.Answer.{Body, chunk_size, min_of, behind_round, send_file}
use cproject.MusicgoAlias.Answer.Whole.{
  rest_of, rest_of-after_read, shorter, last_chunk, next_chunk,
}

-- A round on a socket that may fail.
behind_round-Prefix :
    (s : Delivered) (size rest : ℕ) (more : Outcome Body) (b : Body) (t u w x : List ℕ)
    → s.waits ≡ false
    → Prefix s.bytes t
    → (s.ok ≡ true → s.bytes ≡ t)
    → t ++ x ≡ w
    → more ≡ done b
    → Prefix b.bytes u
    → ((rest == 0) ≡ false → t ++ u ≡ w)
    → (b' : Body) × (behind_round s size rest more ≡ done b') × Prefix b'.bytes w
unfolding behind_round
behind_round-Prefix s size rest more b t u w x goes begun whole inside more_sent begun_more onward =
    rw goes (by_ok s.ok refl)
  where
    one : Prefix s.bytes w
    one = Prefix-append s.bytes t x w begun inside

    Sends : Outcome Body → Type 0
    Sends o = (b' : Body) × (o ≡ done b') × Prefix b'.bytes w

    by_rest :
        (z : Bool)
        → ((z ≡ false) → t ++ u ≡ w)
        → s.ok ≡ true
        → Sends (
            if z
            then done (record { bytes = s.bytes; size = size })
            else (more >>= λ b. done (record { bytes = s.bytes ++ b.bytes; size = size + b.size })))
    by_rest true next ok = (_, refl, one)
    by_rest false next ok = (
      record { bytes = s.bytes ++ b.bytes; size = size + b.size },
      rw more_sent refl,
      append-Prefix s.bytes b.bytes u w begun_more (ap (λ r. r ++ u) (whole ok) ∙ next refl),
    )

    by_ok :
        (o : Bool)
        → s.ok ≡ o
        → Sends (
            if not o
            then done (record { bytes = s.bytes; size = 0 })
            else if rest == 0
            then done (record { bytes = s.bytes; size = size })
            else (more >>= λ b. done (record { bytes = s.bytes ++ b.bytes; size = size + b.size })))
    by_ok false e = (_, refl, one)
    by_ok true e = by_rest (rest == 0) onward e

-- A chunk is a beginning of what is to be sent.
chunk_covered :
    (n end : ℕ) (xs : List ℕ)
    → let chunk = take (suc n) xs in Prefix (take (min_of (length chunk) end) chunk) (take end xs)
chunk_covered n end xs =
    let chunk : List ℕ = take (suc n) xs in
    let len : ℕ = min_of (length chunk) end in
    elim (Bool-cases (end - len == 0)) [
      | inl e ↦ ([], append-nil (take len chunk) ∙ last_chunk n end xs e)
      | inr e ↦ (take (end - len) (drop (length chunk) xs), next_chunk n end xs e)
    ]

-- On a socket that answers, whatever it is, and a file that can be read the loop ends, and sends a
-- beginning of what it may.
pub send_file-Prefix :
    (unreadable : ℕ → Bool) (readable : (i : ℕ) → unreadable i ≡ false) (fuel : ℕ)
    (attempts : List Attempt) (end : ℕ) (f : File)
    → Answers attempts
    → length (rest_of f) < fuel
    → (b : Body) × (send_file unreadable fuel attempts end f ≡ done b)
      × Prefix b.bytes (take end (rest_of f))
unfolding send_file read
send_file-Prefix unreadable readable zero attempts end f answers lt = absurd (omega arith)
send_file-Prefix unreadable readable (suc fuel) attempts end f answers lt =
    let xs : List ℕ = rest_of f in
    let chunk : List ℕ = take chunk_size xs in
    let len : ℕ = min_of (length chunk) end in
    let f' : File = after_read chunk_size f in
    let s : Delivered = bsend attempts (take len chunk) in
    let moved : rest_of f' ≡ drop (length chunk) xs = rest_of-after_read chunk_size f in
    let (x, inside) = chunk_covered 1023 end xs in
    rw (readable f.pos) (
      if-known (λ o. (b : Body) × (o ≡ done b) × Prefix b.bytes (take end xs)) (length chunk == 0)
        (λ e. (_, refl, (take end xs, refl)))
        λ e.
          let (goes, left_answers) = bsend-Answers attempts (take len chunk) answers in
          let (b, sent, begun) =
            send_file-Prefix unreadable readable fuel s.left (end - len) f' left_answers
              (shorter f fuel e lt) in
          behind_round-Prefix s len (end - len) (send_file unreadable fuel s.left (end - len) f') b
            (take len chunk) (take (end - len) (rest_of f')) (take end xs) x goes
            (bsend-Prefix attempts (take len chunk)) (bsend-whole attempts (take len chunk)) inside
            sent begun
            λ onward.
              ap (λ t. take len chunk ++ take (end - len) t) moved ∙ next_chunk 1023 end xs onward)
