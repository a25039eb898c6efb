-- ===== src/Accordion/Common/Directory.antt =====
-- accordion_V10.X/common.cpp: `MakeDirectory`. Whether a directory is there behind `mkdir` is a parameter.
pub mod Chain
use cproject.Base.{
  ℕ, ◌≡◌, refl, sym, ap, ◌∙◌, Bool, true, false, ◌||◌, ◌==◌, if◌then◌else◌, List, [], ◌∷◌, ◌++◌,
  All, arith, Outcome, done, crash, append_assoc,
}
use cproject.Base.Text.{Text}

abbrev pub delimiter : ℕ
delimiter = 47

abbrev pub ends : Text → Bool
ends [] = false
ends (c ∷ []) = c == delimiter
ends (c ∷ d ∷ s) = ends (d ∷ s)

-- A delimiter at the front, but before a dot, and at the end.
abbrev pub rooted : ℕ → Text → Text
rooted c s = if c == delimiter || c == 46 then c ∷ s else delimiter ∷ c ∷ s

abbrev pub closed : Text → Text
closed s = if ends s then s else s ++ (delimiter ∷ [])

-- `s.substr(0, pos)` for each delimiter, behind the text `front`; an empty one is left out.
unfoldable pub directories_from : Text → Text → List Text
directories_from front [] = []
directories_from [] (c ∷ s) = directories_from (c ∷ []) s
directories_from (f ∷ front) (c ∷ s) =
    let rest = directories_from ((f ∷ front) ++ (c ∷ [])) s in
    if c == delimiter then (f ∷ front) ∷ rest else rest

-- The directories are made up to the first that cannot be: the answer, and those that were tried.
unfoldable pub make_all : (Text → Bool) → List Text → Bool × List Text
make_all made [] = (true, [])
make_all made (d ∷ ds) =
    let rest = make_all made ds in if made d then (rest.0, d ∷ rest.1) else (false, d ∷ [])

-- The answer has no value where there is no directory to make.
abbrev pub answer : (Text → Bool) → List Text → Outcome (Bool × List Text)
answer made [] = crash
answer made (d ∷ ds) = done (make_all made (d ∷ ds))

-- `MakeDirectory`; `at(0)` throws for an empty text.
unfoldable pub make_directory : (Text → Bool) → Text → Outcome (Bool × List Text)
unfolding directories_from make_all
make_directory made [] = crash
make_directory made (c ∷ s) = answer made (directories_from [] (closed (rooted c s)))
