-- ===== src/Accordion/Playlist/Position.antt =====
-- accordion_V10.X/playlist.cpp: the list with its iterator, read as a queue: the files from the iterator
-- on, then the ones before it.
use cproject.Base.{
  ℕ, zero, suc, ◌+◌, ◌<◌, ◌≡◌, refl, ap, sym, ◌∙◌, ◌⊎◌, inl, inr, ◌==◌, ltb, if◌then◌else◌, some,
  List, [], ◌∷◌, ◌++◌, length, take, drop, get_elem?, arith, done, if-known, if-true, take_all,
  append_assoc, append-nil, drop_all, ◌≤◌,
}
use cproject.Base.Text.{Text}
use cproject.Accordion.Playlist.{Player, erase_at, get_next_iterator, erase_idx, get_current_file}
use cproject.Accordion.Playlist.Queue.{next, moved, Queue, dropped}

abbrev pub contents : Player → List Text
contents p = drop p.it p.play_list ++ take p.it p.play_list

abbrev pub queue : Player → Queue
queue p = record { files = contents p; air = record { header = p.header; rate = p.rate } }

-- The iterator is in its list, unless there is none.
abbrev pub IsPlaced : Player → Type 0
IsPlaced p = (p.play_list ≡ []) ⊎ (p.it < length p.play_list)

-- What stands at a position in range.
split_at :
    (i : ℕ) (xs : List Text)
    → i < length xs
    → (f : Text) × (get_elem? xs i ≡ some f)
      × (drop i xs ≡ f ∷ drop (suc i) xs)
      × (take (suc i) xs ≡ take i xs ++ (f ∷ []))
      × (drop i (erase_at xs i) ≡ drop (suc i) xs)
      × (take i (erase_at xs i) ≡ take i xs)
split_at i [] h = absurd (omega arith)
split_at zero (x ∷ xs) h = (x, refl, refl, refl, refl, refl)
split_at (suc i) (x ∷ xs) h =
    let (f, at, d, t, e, k) = split_at i xs (omega arith) in
    (f, at, d, ap (◌∷◌ x) t, e, ap (◌∷◌ x) k)

-- One step further, the file goes behind the others.
step :
    (i : ℕ) (xs : List Text)
    → i < length xs
    → drop (i + 1) xs ++ take (i + 1) xs ≡ moved next (drop i xs ++ take i xs)
step i xs h =
    let (f, at, d, t, e, k) = split_at i xs h in
    ap (λ n. drop n xs ++ take n xs) {y = suc i} (omega arith)
    ∙ rw (d, t) (sym (append_assoc (drop (suc i) xs) (take i xs) (f ∷ [])))

-- At its end the list reads as from its start.
wrapped : (n : ℕ) (xs : List Text) → length xs ≡ n → drop n xs ++ take n xs ≡ xs ++ []
wrapped n xs e = rw (drop_all n xs (omega arith), take_all n xs (omega arith), append-nil xs)

pub placed_at_start : (xs : List Text) → (xs ≡ []) ⊎ (0 < length xs)
placed_at_start [] = inl refl
placed_at_start (x ∷ xs) = inr (omega arith)

-- A position that may be the list's end, as the code sets it.
settle :
    (n : ℕ) (xs : List Text)
    → n ≤ length xs
    → let n' = if n == length xs then 0 else n in
      (drop n' xs ++ take n' xs ≡ drop n xs ++ take n xs) × ((xs ≡ []) ⊎ (n' < length xs))
settle n xs h =
    if-known
      (λ n'. (drop n' xs ++ take n' xs ≡ drop n xs ++ take n xs) × ((xs ≡ []) ⊎ (n' < length xs)))
      (n == length xs) (λ e. (sym (wrapped n xs (ground arith)), placed_at_start xs))
      (λ e. (refl, inr (ground arith)))

erased_le : (i : ℕ) (xs : List Text) → i < length xs → i ≤ length (erase_at xs i)
erased_le i [] h = absurd (omega arith)
erased_le zero (x ∷ xs) h = omega arith
erased_le (suc i) (x ∷ xs) h = omega (arith, erased_le i xs (omega arith))

erased :
    (i : ℕ) (xs : List Text)
    → i < length xs
    → drop i (erase_at xs i) ++ take i (erase_at xs i) ≡ dropped (drop i xs ++ take i xs)
erased i xs h = let (f, at, d, t, e, k) = split_at i xs h in rw (d, e, k) refl

-- The iterator is advanced, and erased at, where it is in the list.
pub get_next_iterator_refines :
    (p : Player)
    → p.it < length p.play_list
    → (q : Player) × (get_next_iterator p ≡ done q)
      × (queue q ≡ record (queue p) { files = moved next (contents p) })
      × IsPlaced q
unfolding get_next_iterator
get_next_iterator_refines p h =
    let (e, v) = settle (p.it + 1) p.play_list (omega arith) in
    (
      _,
      if-true (ltb p.it (length p.play_list)) _ _ (ground arith),
      ap (λ fs. record (queue p) { files = fs }) (e ∙ step p.it p.play_list h),
      v,
    )

pub erase_idx_refines :
    (p : Player)
    → p.it < length p.play_list
    → (q : Player) × (erase_idx p ≡ done q)
      × (queue q ≡ record (queue p) { files = dropped (contents p) })
      × IsPlaced q
unfolding erase_idx
erase_idx_refines p h =
    let (e, v) = settle p.it (erase_at p.play_list p.it) (erased_le p.it p.play_list h) in
    (
      _,
      if-true (ltb p.it (length p.play_list)) _ _ (ground arith),
      ap (λ fs. record (queue p) { files = fs }) (e ∙ erased p.it p.play_list h),
      v,
    )

pub get_current_file_refines :
    (p : Player)
    → p.it < length p.play_list
    → (f : Text) × (q : Player) × (get_current_file p ≡ done (f, q))
      × (contents p ≡ f ∷ dropped (contents p))
      × (queue q ≡ queue p)
      × (q.it < length q.play_list)
unfolding get_current_file
get_current_file_refines p h =
    let (f, at, d, t, e, k) = split_at p.it p.play_list h in
    (f, record p { saved = p.it }, rw (get_current_file, at) refl, rw d refl, refl, h)
