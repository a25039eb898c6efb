-- ===== src/MusicgoAlias/Answer/Whole.antt =====
-- musicgo_alias/Parameters.cpp: what the loop of `create_answer` sends.
use cproject.Base.{
  ℕ, zero, suc, ◌+◌, ◌-◌, ◌≤◌, ◌<◌, ◌≡◌, refl, sym, ap, ap₂, subst, ◌∙◌, Bool, true, false, ◌==◌,
  if-known, List, [], ◌∷◌, ◌++◌, length, take, drop, length-append, length-take, length-drop,
  take_all, drop-drop, take-append-take, arith, Outcome, done,
}
use cproject.Accordion.File.{File, read, after_read}
use cproject.MusicgoAlias.Sending.{Attempt, Delivered, bsend}
use cproject.MusicgoAlias.Sending.Complete.{Smooth, Smooth-Answers, bsend-Answers, bsend-Smooth}
use cproject.MusicgoAlias.Answer.{Body, chunk_size, min_of, behind_round, send_file}

-- All of the bytes, counted.
abbrev pub body_of : List ℕ → Body
body_of t = record { bytes = t; size = length t }

pub min_of_le : (a b : ℕ) → min_of a b ≤ a
min_of_le a b = ground arith

min_of-last : (a b : ℕ) → (b - min_of a b == 0) ≡ true → min_of a b ≡ b
min_of-last a b e = ground arith

min_of-more : (a b : ℕ) → (b - min_of a b == 0) ≡ false → (min_of a b ≡ a) × (a ≤ b)
min_of-more a b e = (ground arith, ground arith)

module _ {ℓ} {A : Type ℓ} where
  take-take : (n m : ℕ) (xs : List A) → n ≤ m → take n (take m xs) ≡ take n xs
  take-take zero m xs le = refl
  take-take (suc n) zero xs le = absurd (omega arith)
  take-take (suc n) (suc m) [] le = refl
  take-take (suc n) (suc m) (x ∷ xs) le = ap (λ r. x ∷ r) (take-take n m xs (omega arith))

  take-length-take : (n : ℕ) (xs : List A) → take (length (take n xs)) xs ≡ take n xs
  take-length-take zero xs = refl
  take-length-take (suc n) [] = refl
  take-length-take (suc n) (x ∷ xs) = ap (λ r. x ∷ r) (take-length-take n xs)

  nothing_left :
      (n end : ℕ) (xs : List A) → (length (take (suc n) xs) == 0) ≡ true → take end xs ≡ []
  nothing_left n end [] e = take_all end [] (omega arith)
  nothing_left n end (x ∷ xs) e = absurd (ground arith)

behind_round-Smooth :
    (s : Delivered) (rest : ℕ) (more : Outcome Body) (t u w : List ℕ)
    → s.waits ≡ false
    → s.ok ≡ true
    → s.bytes ≡ t
    → more ≡ done (body_of u)
    → ((rest == 0) ≡ true → t ≡ w)
    → ((rest == 0) ≡ false → t ++ u ≡ w)
    → behind_round s (length t) rest more ≡ done (body_of w)
unfolding behind_round
behind_round-Smooth s rest more t u w goes ok sent more_sent last onward =
    rw (goes, ok, sent, more_sent)
      (if-known (λ o. o ≡ done (body_of w)) (rest == 0) (λ e. ap (λ x. done (body_of x)) (last e))
        λ e.
          ap₂ (λ x n. done (record { bytes = x; size = n })) (onward e)
            (sym (length-append t u) ∙ ap length (onward e)))

-- The bytes from where a file stands on.
abbrev pub rest_of : File → List ℕ
rest_of f = drop f.pos f.bytes

-- What one round leaves of the file.
pub rest_of-after_read :
    (n : ℕ) (f : File) → rest_of (after_read n f) ≡ drop (length (read n f)) (rest_of f)
unfolding after_read
rest_of-after_read n f = sym (drop-drop f.pos (length (read n f)) f.bytes)

-- A round that sends all of its chunk, and what comes behind it.
chunk-append :
    (n end : ℕ) (xs : List ℕ)
    → length (take n xs) ≤ end
    → take n xs ++ take (end - length (take n xs)) (drop (length (take n xs)) xs) ≡ take end xs
chunk-append n end xs le =
    let k : ℕ = length (take n xs) in
    let whole : k + (end - k) ≡ end = omega arith in
    ap (λ t. t ++ take (end - k) (drop k xs)) (sym (take-length-take n xs))
    ∙ take-append-take k (end - k) xs
    ∙ ap (λ m. take m xs) whole

pub shorter :
    (f : File) (fuel : ℕ)
    → (length (take chunk_size (rest_of f)) == 0) ≡ false
    → length (rest_of f) < suc fuel
    → length (rest_of (after_read chunk_size f)) < fuel
unfolding read
shorter f fuel e lt =
    let moved = rest_of-after_read chunk_size f in
    let some_bytes : 1 ≤ length (take chunk_size (rest_of f)) = ground arith in
    rw moved (
      omega (
        arith,
        some_bytes,
        lt,
        length-take chunk_size (rest_of f),
        length-drop (length (take chunk_size (rest_of f))) (rest_of f),
      ))

pub last_chunk :
    (n end : ℕ) (xs : List ℕ)
    → let chunk = take (suc n) xs in
      (end - min_of (length chunk) end == 0) ≡ true
      → take (min_of (length chunk) end) chunk ≡ take end xs
last_chunk n end xs last =
    let chunk : List ℕ = take (suc n) xs in
    let all : min_of (length chunk) end ≡ end = min_of-last (length chunk) end last in
    let le : end ≤ suc n =
      omega (arith, all, min_of_le (length chunk) end, length-take (suc n) xs) in
    ap (λ k. take k chunk) all ∙ take-take end (suc n) xs le

pub next_chunk :
    (n end : ℕ) (xs : List ℕ)
    → let chunk = take (suc n) xs in
      let len = min_of (length chunk) end in
      (end - len == 0) ≡ false
      → take len chunk ++ take (end - len) (drop (length chunk) xs) ≡ take end xs
next_chunk n end xs onward =
    let chunk : List ℕ = take (suc n) xs in
    let (all, le) = min_of-more (length chunk) end onward in
    ap (λ k. take k chunk ++ take (end - k) (drop (length chunk) xs)) all
    ∙ ap (λ t. t ++ take (end - length chunk) (drop (length chunk) xs))
        (take_all (length chunk) chunk (omega arith))
    ∙ chunk-append (suc n) end xs le

-- The loop sends as many bytes as it may, or all that the file has from where it stands on.
pub send_file-Smooth :
    (unreadable : ℕ → Bool) (readable : (i : ℕ) → unreadable i ≡ false) (fuel : ℕ)
    (attempts : List Attempt) (end : ℕ) (f : File)
    → Smooth attempts
    → length (rest_of f) < fuel
    → send_file unreadable fuel attempts end f ≡ done (body_of (take end (rest_of f)))
unfolding send_file read
send_file-Smooth unreadable readable zero attempts end f smooth lt = absurd (omega arith)
send_file-Smooth unreadable readable (suc fuel) attempts end f smooth lt =
    let xs : List ℕ = rest_of f in
    let chunk : List ℕ = take chunk_size xs in
    let len : ℕ = min_of (length chunk) end in
    let f' : File = after_read chunk_size f in
    let (ok, sent, left_smooth) = bsend-Smooth attempts (take len chunk) smooth in
    let (goes, left_answers) =
      bsend-Answers attempts (take len chunk) (Smooth-Answers attempts smooth) in
    let left : List Attempt = (bsend attempts (take len chunk)).left in
    let moved : rest_of f' ≡ drop (length chunk) xs = rest_of-after_read chunk_size f in
    let size : length (take len chunk) ≡ len =
      omega (arith, length-take len chunk, min_of_le (length chunk) end) in
    rw (readable f.pos) (
      if-known (λ o. o ≡ done (body_of (take end xs))) (length chunk == 0)
        (λ e. ap (λ t. done (body_of t)) (sym (nothing_left 1023 end xs e)))
        λ e.
          let more : send_file unreadable fuel left (end - len) f'
              ≡ done (body_of (take (end - len) (rest_of f'))) =
            send_file-Smooth unreadable readable fuel left (end - len) f' left_smooth
              (shorter f fuel e lt) in
          subst
            (λ n.
              behind_round (bsend attempts (take len chunk)) n (end - len)
                (send_file unreadable fuel left (end - len) f')
              ≡ done (body_of (take end xs)))
            size
            (behind_round-Smooth (bsend attempts (take len chunk)) (end - len)
              (send_file unreadable fuel left (end - len) f') (take len chunk)
              (take (end - len) (rest_of f')) (take end xs) goes ok sent more
              (last_chunk 1023 end xs)
              (λ onward.
                ap (λ t. take len chunk ++ take (end - len) t) moved
                ∙ next_chunk 1023 end xs onward)))
