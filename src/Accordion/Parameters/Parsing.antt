-- ===== src/Accordion/Parameters/Parsing.antt =====
-- accordion_V10.X/parameters.cpp: a list that is sent is read line by line.
use cproject.Base.{
  ℕ, zero, suc, ◌≤◌, ◌≡◌, Bool, true, false, ◌==◌, if◌then◌else◌, List, [], ◌∷◌, ◌++◌, length, All,
}
use cproject.Base.Int.{ℤ, pos, negsuc}
use cproject.Base.Text.{Text, atoi}
use cproject.Accordion.Parameters.{bar, newline, Buffers, fits, file_name}

-- No byte of the text is `c`.
abbrev pub Lacks : ℕ → Text → Type 0
Lacks c s = All (λ x. (x == c) ≡ false) s

-- One line: an identifier, a path, and what else.
pub record Entry : Type 0 where
  pub id : Text
  pub path : Text
  pub rest : Text

abbrev pub line : Entry → Text
line e = e.id ++ (bar ∷ (e.path ++ (bar ∷ e.rest)))

pub record IsEntry (e : Entry) : Type 0 where
  pub id_bar : Lacks bar e.id
  pub path_bar : Lacks bar e.path
  pub one_line : Lacks newline (line e)
  pub id_fits : fits e.id ≡ true
  pub path_fits : fits e.path ≡ true
  pub has_id : (length e.id == 0) ≡ false
  pub has_path : (length e.path == 0) ≡ false

abbrev pub entry_buffers : Entry → Buffers
entry_buffers e = record { id = e.id; path = e.path }

-- The lines of the entries.
abbrev pub body : List Entry → Text
body [] = []
body (e ∷ es) = line e ++ (newline ∷ body es)

module _ (playlist_path ext : Text) (exists : Text → Bool) where
  abbrev pub name_of : Entry → Text
  name_of e = file_name playlist_path ext (entry_buffers e)

  -- The file of an entry, where its identifier is a number but 0 and the file is there.
  abbrev pub file_for : ℤ → Text → List Text
  file_for (pos zero) name = []
  file_for (pos (suc n)) name = if exists name then name ∷ [] else []
  file_for (negsuc n) name = if exists name then name ∷ [] else []

  abbrev pub files_for : List Entry → List Text
  files_for [] = []
  files_for (e ∷ es) = file_for (atoi e.id) (name_of e) ++ files_for es

  -- What is asked of the entries.
  abbrev pub AllEntries : List Entry → Type 0
  AllEntries es = All (λ e. IsEntry e × (length (name_of e) ≤ 4095)) es
