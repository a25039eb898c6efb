-- ===== src/Accordion/Aac/Seek.antt =====
-- accordion_V10.X/aac.cpp: the search for the first frame.
use cproject.Base.{
  ℕ, zero, suc, ◌+◌, ◌-◌, ◌≤◌, ◌<◌, ◌≡◌, Bool, true, false, ◌&&◌, ◌==◌, leb, if◌then◌else◌, Option,
  none, some, List, length, get_or, arith, subst, Bool-cases, ◌⊎◌, inl, inr,
}
use cproject.Accordion.File.{File, read, seek_set}
use cproject.Accordion.Aac.Header.{syncword}

-- A syncword at `i`, with ten bytes left. Behind what was read the buffer has zeros; its last byte is
-- not set, but where it is looked at no ten bytes are left.
unfoldable pub starts_at : List ℕ → ℕ → Bool
unfolding syncword
starts_at buf i =
    (syncword (get_or buf i 0) (get_or buf (i + 1) 0) == 0xFFF) && leb 10 (length buf - i)

-- The loop, with `rounds` positions to go; none is -1.
unfoldable pub aac_seek_loop : ℕ → List ℕ → ℕ → Option ℕ
unfolding starts_at
aac_seek_loop zero buf i = none
aac_seek_loop (suc rounds) buf i =
    let rest = aac_seek_loop rounds buf (suc i) in if starts_at buf i then some i else rest

-- `aac_SeekTo1Frame`
unfoldable pub aac_seek_to_1_frame : File → Option ℕ
unfolding aac_seek_loop
aac_seek_to_1_frame f = let buf = read 50000 (seek_set 0 f) in aac_seek_loop (length buf) buf 0

-- What a search from `i` up to `end` answers: the first place, or that there is none.
unfoldable pub First : (ℕ → Bool) → ℕ → ℕ → Option ℕ → Type 0
First test i end none = (j : ℕ) → i ≤ j → j < end → test j ≡ false
First test i end (some p) =
    (i ≤ p) × (p < end) × (test p ≡ true) × ((j : ℕ) → i ≤ j → j < p → test j ≡ false)

lt_or_eq : (i j : ℕ) → i ≤ j → (suc i ≤ j) ⊎ (i ≡ j)
lt_or_eq i j le = ground arith

-- What holds at `i` and behind it holds from `i` on.
from_next :
    (test : ℕ → Bool) (i j : ℕ) {end : ℕ}
    → test i ≡ false
    → (suc i ≤ j → j < end → test j ≡ false)
    → i ≤ j
    → j < end
    → test j ≡ false
from_next test i j clear rest le lt = elim (lt_or_eq i j le) [
  | inl less ↦ rest less lt
  | inr e ↦ subst (λ k. test k ≡ false) e clear
]

First-step :
    (test : ℕ → Bool) (i end : ℕ) (y : Option ℕ)
    → test i ≡ false
    → First test (suc i) end y
    → First test i end y
unfolding First
First-step test i end none clear rest = λ j le lt. from_next test i j clear (rest j) le lt
First-step test i end (some p) clear (le, lt, found, before) =
    (omega arith, lt, found, λ j le lt. from_next test i j clear (before j) le lt)

aac_seek_loop-First :
    (rounds : ℕ) (buf : List ℕ) (i : ℕ)
    → First (starts_at buf) i (i + rounds) (aac_seek_loop rounds buf i)
unfolding aac_seek_loop First
aac_seek_loop-First zero buf i = λ j le lt. absurd (omega arith)
aac_seek_loop-First (suc rounds) buf i =
    let same_end : suc i + rounds ≡ i + suc rounds = omega arith in
    elim (Bool-cases (starts_at buf i)) [
      | inl e ↦ rw e (omega arith, omega arith, e, λ j le lt. absurd (omega arith))
      | inr e ↦ rw e (
          First-step (starts_at buf) i (i + suc rounds) (aac_seek_loop rounds buf (suc i)) e (
            subst (λ end. First (starts_at buf) (suc i) end (aac_seek_loop rounds buf (suc i)))
              same_end (aac_seek_loop-First rounds buf (suc i))))
    ]

-- `aac_SeekTo1Frame` finds the first syncword of the file's first 50000 bytes that has ten of them from
-- it on, or answers -1 where there is none.
pub aac_seek_to_1_frame-First :
    (f : File)
    → let buf = read 50000 (seek_set 0 f) in
      First (starts_at buf) 0 (length buf) (aac_seek_to_1_frame f)
unfolding aac_seek_to_1_frame
aac_seek_to_1_frame-First f =
    let buf : List ℕ = read 50000 (seek_set 0 f) in
    let whole : 0 + length buf ≡ length buf = omega arith in
    subst (λ end. First (starts_at buf) 0 end (aac_seek_loop (length buf) buf 0)) whole
      (aac_seek_loop-First (length buf) buf 0)
