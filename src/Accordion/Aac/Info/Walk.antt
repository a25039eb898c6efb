-- ===== src/Accordion/Aac/Info/Walk.antt =====
-- accordion_V10.X/aac.cpp: where the walk of `aac_GetFileInfo` ends, and where it does not.
use cproject.Base.{
  ℕ, zero, suc, ◌+◌, ◌≤◌, ◌<◌, ◌≡◌, ◌≢◌, refl, ap, ap₂, ◌∙◌, Bool, true, false, ◌==◌, ltb, if-both,
  Option, none, some, List, length, length-take, take, drop, get_or, get_or-take, arith, done,
  stuck, done-ne-stuck, subst, sym, Bool-cases, inl, inr,
}
use cproject.Accordion.File.{File, read, seek_set}
use cproject.Accordion.Aac.Header.{aac_header_size, syncword, Fields, aac_starts, aac_fields}
use cproject.Accordion.Aac.Seek.{starts_at, aac_seek_to_1_frame, First, aac_seek_to_1_frame-First}
use cproject.Accordion.Aac.Info.{walk_on, aac_count_frames, walk_from, aac_walk}

-- No header that passes states the length 0.
abbrev pub Long : File → Type 0
Long f =
    (i : ℕ) (x : Fields)
    → aac_fields (take aac_header_size (drop i f.bytes)) ≡ some x
    → 0 < x.length

walk_on-ne-stuck :
    (fuel next n : ℕ) (f : File) (y : Option Fields)
    → ((m : ℕ) (g : File)
        → next < m
        → m < length f.bytes
        → g.bytes ≡ f.bytes
        → aac_count_frames fuel m (n + 1) g ≢ stuck)
    → ((x : Fields) → y ≡ some x → 0 < x.length)
    → walk_on (aac_count_frames fuel) next n f y ≢ stuck
unfolding walk_on
walk_on-ne-stuck fuel next n f none loop long = done-ne-stuck none
walk_on-ne-stuck fuel next n f (some x) loop long =
    let some_bytes : 0 < x.length = long x refl in
    elim (Bool-cases (ltb (next + x.length) (length f.bytes))) [
      | inl e ↦
          rw e (
            loop (next + x.length) (seek_set (f.pos + x.length) f) (omega arith) (ground arith)
              refl)
      | inr e ↦ rw e (done-ne-stuck _)
    ]

-- The bytes of the file are fuel enough for the walk: each round goes further.
aac_count_frames-ne-stuck :
    (fuel next n : ℕ) (f : File)
    → Long f
    → 0 < fuel
    → length f.bytes < fuel + next
    → aac_count_frames fuel next n f ≢ stuck
unfolding aac_count_frames read
aac_count_frames-ne-stuck zero next n f long some_fuel enough = absurd (omega arith)
aac_count_frames-ne-stuck (suc fuel) next n f long some_fuel enough =
    if-both (λ o. o ≢ stuck) (ltb (length (read aac_header_size f)) aac_header_size)
      (done-ne-stuck none)
      (walk_on-ne-stuck fuel next n f (aac_fields (read aac_header_size f))
        (λ m g on inside same.
          aac_count_frames-ne-stuck fuel m (n + 1) g
            (subst (λ bs. Long (record { bytes = bs; pos = 0 })) (sym same) long) (omega arith)
            (rw same (omega arith)))
        (long f.pos))

-- A header of length 0, inside the file, is read again and again: no fuel is enough.
aac_count_frames-hangs :
    (fuel next n : ℕ) (f : File) (x : Fields)
    → length (read aac_header_size f) ≡ aac_header_size
    → aac_fields (read aac_header_size f) ≡ some x
    → x.length ≡ 0
    → next < length f.bytes
    → aac_count_frames fuel next n f ≡ stuck
unfolding aac_count_frames walk_on
aac_count_frames-hangs zero next n f x full e none_long inside = refl
aac_count_frames-hangs (suc fuel) next n f x full e none_long inside =
    let again : File = seek_set (f.pos + x.length) f in
    let back : again ≡ f = ap (λ p. seek_set p f) (omega arith) in
    let go : aac_count_frames fuel (next + x.length) (n + 1) again ≡ stuck =
      subst (λ g. aac_count_frames fuel (next + x.length) (n + 1) g ≡ stuck) (sym back)
        (aac_count_frames-hangs fuel (next + x.length) (n + 1) f x full e none_long
          (omega arith)) in
    rw e (ground (arith, go))

walk_from-ne-stuck :
    (f : File) → Long f → (y : Option ℕ) → walk_from (suc (length f.bytes)) f y ≢ stuck
unfolding walk_from
walk_from-ne-stuck f long none = done-ne-stuck none
walk_from-ne-stuck f long (some index) =
    aac_count_frames-ne-stuck (suc (length f.bytes)) index 0 (seek_set 0 f) long (omega arith)
      (omega arith)

-- The walk ends on every file in which no header that passes states the length 0.
pub aac_walk-ne-stuck : (f : File) → Long f → aac_walk (suc (length f.bytes)) f ≢ stuck
unfolding aac_walk
aac_walk-ne-stuck f long = walk_from-ne-stuck f long (aac_seek_to_1_frame f)

-- The buffer of the search.
abbrev buffer : File → List ℕ
buffer f = read 50000 (seek_set 0 f)

sync_at_0 :
    (f : File)
    → syncword
        (get_or (take aac_header_size f.bytes) 0 0)
        (get_or (take aac_header_size f.bytes) 1 0)
      ≡ syncword (get_or (buffer f) 0 0) (get_or (buffer f) 1 0)
unfolding read
sync_at_0 f =
    ap₂ syncword
      (get_or-take 7 f.bytes 0 0 (omega arith) ∙ sym (get_or-take 50000 f.bytes 0 0 (omega arith)))
      (get_or-take 7 f.bytes 1 0 (omega arith) ∙ sym (get_or-take 50000 f.bytes 1 0 (omega arith)))

no_sync-none :
    (h : List ℕ) → (syncword (get_or h 0 0) (get_or h 1 0) == 0xFFF) ≡ false → aac_fields h ≡ none
unfolding aac_fields aac_starts
no_sync-none h e = ground arith

-- The header is read from the start of the file, wherever the search has found it.
first_round :
    (fuel index : ℕ) (f : File)
    → aac_fields (take aac_header_size f.bytes) ≡ none
    → aac_count_frames (suc fuel) index 0 (seek_set 0 f) ≡ done none
unfolding aac_count_frames walk_on read
first_round fuel index f e = rw e (ground arith)

-- A file whose first frame does not stand at its very start is rejected: the search finds the frame,
-- and the walk then reads a header at the start of the file instead.
pub aac_walk-rejects :
    (fuel i : ℕ) (f : File)
    → aac_seek_to_1_frame f ≡ some (suc i)
    → aac_walk (suc fuel) f ≡ done none
unfolding aac_walk walk_from First starts_at
aac_walk-rejects fuel i f e =
    let (le, lt, found, before) =
      subst (First (starts_at (buffer f)) 0 (length (buffer f))) e (aac_seek_to_1_frame-First f) in
    let at_0 : starts_at (buffer f) 0 ≡ false = before 0 (omega arith) (omega arith) in
    let clear : (syncword (get_or (buffer f) 0 0) (get_or (buffer f) 1 0) == 0xFFF) ≡ false =
      ground arith in
    ap (walk_from (suc fuel) f) e
    ∙ (first_round fuel (suc i) f
        (no_sync-none (take aac_header_size f.bytes) (ap (λ s. s == 0xFFF) (sync_at_0 f) ∙ clear)))

fields-sync :
    (h : List ℕ) (x : Fields)
    → aac_fields h ≡ some x
    → (syncword (get_or h 0 0) (get_or h 1 0) == 0xFFF) ≡ true
unfolding aac_fields aac_starts
fields-sync h x e = ground arith

First-place :
    (test : ℕ → Bool) (end : ℕ) (y : Option ℕ)
    → First test 0 end y
    → test 0 ≡ true
    → 0 < end
    → y ≡ some 0
unfolding First
First-place test end none clear e lt = ground (arith, clear 0 (omega arith) lt)
First-place test end (some zero) (le, inside, found, before) e lt = refl
First-place test end (some (suc p)) (le, inside, found, before) e lt =
    ground (arith, before 0 (omega arith) (omega arith))

read_all : (f : File) → 10 ≤ length f.bytes → 10 ≤ length (buffer f)
unfolding read
read_all f le = omega (arith, length-take 50000 f.bytes)

header_at_0 : (f : File) → read aac_header_size (seek_set 0 f) ≡ take aac_header_size f.bytes
unfolding read
header_at_0 f = refl

full_header :
    (f : File)
    → 10 ≤ length f.bytes
    → length (read aac_header_size (seek_set 0 f)) ≡ aac_header_size
unfolding read
full_header f le = omega (arith, length-take 7 f.bytes)

-- A header of length 0 at the very start of a file of at least ten bytes passes, and the walk over such
-- a file has no end: no fuel is enough.
pub aac_walk-hangs :
    (fuel : ℕ) (f : File) (x : Fields)
    → 10 ≤ length f.bytes
    → aac_fields (take aac_header_size f.bytes) ≡ some x
    → x.length ≡ 0
    → aac_walk fuel f ≡ stuck
unfolding aac_walk walk_from starts_at
aac_walk-hangs fuel f x size e none_long =
    let sync = fields-sync (take aac_header_size f.bytes) x e in
    let sync' : (syncword (get_or (buffer f) 0 0) (get_or (buffer f) 1 0) == 0xFFF) ≡ true =
      sym (ap (λ s. s == 0xFFF) (sync_at_0 f)) ∙ sync in
    let all : 10 ≤ length (buffer f) = read_all f size in
    let starts : starts_at (buffer f) 0 ≡ true = ground arith in
    let at_0 : aac_seek_to_1_frame f ≡ some 0 =
      First-place (starts_at (buffer f)) (length (buffer f)) (aac_seek_to_1_frame f)
        (aac_seek_to_1_frame-First f) starts (omega arith) in
    ap (walk_from fuel f) at_0
    ∙ aac_count_frames-hangs fuel 0 0 (seek_set 0 f) x (full_header f size)
        (ap aac_fields (header_at_0 f) ∙ e) none_long (omega arith)
