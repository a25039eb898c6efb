-- ===== src/MusicgoAlias/Sending/Complete.antt =====
-- musicgo_alias/Parameters.cpp: what `bsend` sends.
use cproject.Base.{
  ℕ, ◌≡◌, ◌≢◌, refl, sym, ap, ◌∙◌, Bool, true, false, List, [], ◌∷◌, ◌++◌, take, drop, All,
  append_assoc, append-nil, take-append-drop,
}
use cproject.MusicgoAlias.Sending.{Attempt, again, failed, blocked, takes, bsend}

-- The socket does not answer EAGAIN for ever.
abbrev pub Answers : List Attempt → Type 0
Answers later = All (λ a. a ≢ blocked) later

-- No attempt meets an error other than EAGAIN, nor that for ever.
abbrev pub Smooth : List Attempt → Type 0
Smooth later = All (λ a. (a ≢ failed) × (a ≢ blocked)) later

pub Smooth-Answers : (later : List Attempt) → Smooth later → Answers later
Smooth-Answers [] h = tt
Smooth-Answers (a ∷ later) h = ((h.0).1, Smooth-Answers later h.1)

-- A call on a socket that answers comes to an end.
pub bsend-Answers :
    (later : List Attempt) (buf : List ℕ)
    → Answers later
    → let s = bsend later buf in (s.waits ≡ false) × Answers s.left
unfolding bsend
bsend-Answers [] buf h = (refl, tt)
bsend-Answers (a ∷ later) [] h = (refl, h)
bsend-Answers (again ∷ later) (b ∷ buf) h = bsend-Answers later (b ∷ buf) h.1
bsend-Answers (failed ∷ later) (b ∷ buf) h = (refl, h.1)
bsend-Answers (blocked ∷ later) (b ∷ buf) h = absurd (h.0 refl)
bsend-Answers (takes k ∷ later) (b ∷ buf) h = bsend-Answers later (drop k buf) h.1

-- Whether one does.
abbrev pub any_failed : List Attempt → Bool
any_failed [] = false
any_failed (again ∷ later) = any_failed later
any_failed (failed ∷ later) = true
any_failed (blocked ∷ later) = any_failed later
any_failed (takes k ∷ later) = any_failed later

pub not_failed : (later : List Attempt) → Answers later → any_failed later ≡ false → Smooth later
not_failed [] h e = tt
not_failed (again ∷ later) h e = ((λ f. cc, h.0), not_failed later h.1 e)
not_failed (failed ∷ later) h e = absurd (cc)
not_failed (blocked ∷ later) h e = absurd (h.0 refl)
not_failed (takes k ∷ later) h e = ((λ f. cc, h.0), not_failed later h.1 e)

-- The whole buffer is sent, in however many parts.
pub bsend-Smooth :
    (later : List Attempt) (buf : List ℕ)
    → Smooth later
    → let s = bsend later buf in (s.ok ≡ true) × (s.bytes ≡ buf) × Smooth s.left
unfolding bsend
bsend-Smooth [] buf h = (refl, refl, tt)
bsend-Smooth (a ∷ later) [] h = (refl, refl, h)
bsend-Smooth (again ∷ later) (b ∷ buf) h = bsend-Smooth later (b ∷ buf) h.1
bsend-Smooth (failed ∷ later) (b ∷ buf) h = absurd ((h.0).0 refl)
bsend-Smooth (blocked ∷ later) (b ∷ buf) h = absurd ((h.0).1 refl)
bsend-Smooth (takes k ∷ later) (b ∷ buf) h =
    let (ok, sent, smooth) = bsend-Smooth later (drop k buf) h.1 in
    (ok, ap (λ r. b ∷ (take k buf ++ r)) sent ∙ ap (λ r. b ∷ r) (take-append-drop k buf), smooth)

-- What is a beginning of a text.
abbrev pub Prefix : List ℕ → List ℕ → Type 0
Prefix s t = (rest : List ℕ) × (s ++ rest ≡ t)

pub Prefix-append : (s t w u : List ℕ) → Prefix s t → t ++ w ≡ u → Prefix s u
Prefix-append s t w u (rest, e) whole =
    (rest ++ w, sym (append_assoc s rest w) ∙ ap (λ x. x ++ w) e ∙ whole)

pub append-Prefix : (t s w u : List ℕ) → Prefix s w → t ++ w ≡ u → Prefix (t ++ s) u
append-Prefix t s w u (rest, e) whole = (rest, append_assoc t s rest ∙ ap (λ x. t ++ x) e ∙ whole)

-- Whatever the socket answers, the client gets a beginning of the buffer.
pub bsend-Prefix : (later : List Attempt) (buf : List ℕ) → Prefix (bsend later buf).bytes buf
unfolding bsend
bsend-Prefix [] buf = ([], append-nil buf)
bsend-Prefix (a ∷ later) [] = ([], refl)
bsend-Prefix (again ∷ later) (b ∷ buf) = bsend-Prefix later (b ∷ buf)
bsend-Prefix (failed ∷ later) (b ∷ buf) = (b ∷ buf, refl)
bsend-Prefix (blocked ∷ later) (b ∷ buf) = (b ∷ buf, refl)
bsend-Prefix (takes k ∷ later) (b ∷ buf) =
    append-Prefix (b ∷ take k buf) (bsend later (drop k buf)).bytes (drop k buf) (b ∷ buf)
      (bsend-Prefix later (drop k buf)) (ap (λ r. b ∷ r) (take-append-drop k buf))

-- All of it, where the answer is true.
pub bsend-whole :
    (later : List Attempt) (buf : List ℕ)
    → (bsend later buf).ok ≡ true
    → (bsend later buf).bytes ≡ buf
unfolding bsend
bsend-whole [] buf e = refl
bsend-whole (a ∷ later) [] e = refl
bsend-whole (again ∷ later) (b ∷ buf) e = bsend-whole later (b ∷ buf) e
bsend-whole (failed ∷ later) (b ∷ buf) e = cc
bsend-whole (blocked ∷ later) (b ∷ buf) e = cc
bsend-whole (takes k ∷ later) (b ∷ buf) e =
    ap (λ r. b ∷ (take k buf ++ r)) (bsend-whole later (drop k buf) e)
    ∙ ap (λ r. b ∷ r) (take-append-drop k buf)
