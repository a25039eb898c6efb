-- ===== src/Accordion/Common/Directory/Chain.antt =====
-- accordion_V10.X/common.cpp: the directories that `MakeDirectory` makes for a path.
use cproject.Base.{
  ℕ, ◌≡◌, refl, sym, ap, ◌∙◌, Bool, true, false, ◌⊎◌, inl, inr, if-known, ◌==◌, List, [], ◌∷◌, ◌++◌,
  All, done, append_assoc, append-nil,
}
use cproject.Base.Text.{Text}
use cproject.Accordion.Common.Directory.{
  delimiter, ends, closed, directories_from, make_all, answer, make_directory,
}

-- A path of names, and the directories on it, each one behind the one that it is in.
abbrev pub path : List Text → Text
path [] = delimiter ∷ []
path (w ∷ ws) = delimiter ∷ (w ++ path ws)

abbrev pub chain : Text → List Text → List Text
chain front [] = []
chain front (w ∷ ws) = (front ++ (delimiter ∷ w)) ∷ chain (front ++ (delimiter ∷ w)) ws

directories_past :
    (f : ℕ) (front w s : Text)
    → All (λ c. (c == delimiter) ≡ false) w
    → directories_from (f ∷ front) (w ++ s) ≡ directories_from ((f ∷ front) ++ w) s
unfolding directories_from
directories_past f front [] s h = ap (λ t. directories_from (f ∷ t) s) (sym (append-nil front))
directories_past f front (c ∷ w) s h = rw h.0 (
    directories_past f (front ++ (c ∷ [])) w s h.1
    ∙ ap (λ t. directories_from (f ∷ t) s) (append_assoc front (c ∷ []) w))

directories-path :
    (f : ℕ) (front : Text) (ws : List Text)
    → All (λ w. All (λ c. (c == delimiter) ≡ false) w) ws
    → directories_from (f ∷ front) (path ws) ≡ (f ∷ front) ∷ chain (f ∷ front) ws
unfolding directories_from
directories-path f front [] h = refl
directories-path f front (w ∷ ws) h =
    ap (λ ds. (f ∷ front) ∷ ds)
      (directories_past f (front ++ (delimiter ∷ [])) w (path ws) h.0
        ∙ ap (λ t. directories_from (f ∷ t) (path ws)) (append_assoc front (delimiter ∷ []) w)
        ∙ directories-path f (front ++ (delimiter ∷ w)) ws h.1)

ends-cons : (c : ℕ) (s : Text) → ends s ≡ true → ends (c ∷ s) ≡ true
ends-cons c [] h = absurd (cc)
ends-cons c (d ∷ s) h = h

ends-append : (s t : Text) → ends t ≡ true → ends (s ++ t) ≡ true
ends-append [] t h = h
ends-append (c ∷ s) t h = ends-cons c (s ++ t) (ends-append s t h)

ends-path : (ws : List Text) → ends (path ws) ≡ true
ends-path [] = refl
ends-path (w ∷ ws) = ends-append (delimiter ∷ w) (path ws) (ends-path ws)

-- The directories are tried in their order: all of them, and each can be made, or those up to the first
-- that cannot.
abbrev pub Tried : (Text → Bool) → List Text → Bool × List Text → Type 0
Tried made ds o =
    (All (λ d. made d ≡ true) ds × (o ≡ (true, ds)))
    ⊎ ((before : List Text) × (d : Text) × (behind : List Text) × (ds ≡ before ++ (d ∷ behind))
        × All (λ d. made d ≡ true) before
        × (made d ≡ false)
        × (o ≡ (false, before ++ (d ∷ []))))

Tried-cons :
    (made : Text → Bool) (d : Text) (ds : List Text) (o : Bool × List Text)
    → made d ≡ true
    → Tried made ds o
    → Tried made (d ∷ ds) (o.0, d ∷ o.1)
Tried-cons made d ds o here (inl (all, e)) = inl ((here, all), ap (λ p. (p.0, d ∷ p.1)) e)
Tried-cons made d ds o here (inr (before, x, behind, split, all, fails, e)) =
    inr
      (d ∷ before, x, behind, ap (λ s. d ∷ s) split, (here, all), fails, ap (λ p. (p.0, d ∷ p.1)) e)

make_all-Tried : (made : Text → Bool) (ds : List Text) → Tried made ds (make_all made ds)
unfolding make_all
make_all-Tried made [] = inl (tt, refl)
make_all-Tried made (d ∷ ds) =
    if-known (Tried made (d ∷ ds)) (made d)
      (λ here. Tried-cons made d ds (make_all made ds) here (make_all-Tried made ds))
      (λ fails. inr ([], d, ds, refl, tt, fails, refl))

-- A path of at least one name, that ends with a delimiter: the directories on it are tried from the outermost
-- one on, each before those in it. The answer is true where each can be made; else the first that cannot be made
-- is the last that is tried, and the answer is false.
pub make_directory-path :
    (made : Text → Bool) (w : Text) (ws : List Text)
    → All (λ w. All (λ c. (c == delimiter) ≡ false) w) (w ∷ ws)
    → (o : Bool × List Text) × (make_directory made (path (w ∷ ws)) ≡ done o)
      × Tried made (chain [] (w ∷ ws)) o
unfolding make_directory directories_from
make_directory-path made w ws h = (
  make_all made (chain [] (w ∷ ws)),
  ap (λ s. answer made (directories_from [] s)) (whole (path (w ∷ ws)) (ends-path (w ∷ ws)))
      ∙ ap (answer made)
          (directories_past delimiter [] w (path ws) h.0 ∙ directories-path delimiter w ws h.1),
  make_all-Tried made (chain [] (w ∷ ws)),
)
  where
    whole : (s : Text) → ends s ≡ true → closed s ≡ s
    whole s e = rw e refl
