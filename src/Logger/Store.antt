-- ===== src/Logger/Store.antt =====
-- logger/file.cpp: what `filethread` does with a list of messages. Names are relative to the folder
-- `Path`; the size of a file and its archives are left out.
use cproject.Base.{ℕ, Bool, not, ◌==◌, if◌then◌else◌, List, [], ◌∷◌, ◌++◌}
use cproject.Base.Text.{Text}
use cproject.Logger.Client.{MessageList}
use cproject.Logger.Message.{slash}

abbrev pub concat : List Text → Text
concat [] = []
concat (s ∷ ss) = s ++ concat ss

-- `if (!m_str.empty()) Write(m_file, m_str)`
abbrev pub write_text : Text → Text → List (Text × Text)
write_text name [] = []
write_text name (c ∷ s) = (name, c ∷ s) ∷ []

-- `RunWork`: the texts that are appended to files, in their order. `can_write` tells whether the
-- directory of a file can be made (`CheckFileDirectory`) and the file can be opened. `RecreateFileList`, which
-- `Write` calls behind a text when the file has become too long, moves the file away and deletes the oldest of
-- those moved: it adds nothing, and is not in the result.
unfoldable pub run_work : (Text → Bool) → MessageList → List (Text × Text)
run_work can_write [] = []
run_work can_write ((name, msgs) ∷ list) =
    let rest = run_work can_write list in
    if not (can_write name) then rest else write_text name (concat msgs) ++ rest

abbrev pub semicolon : ℕ
semicolon = 59

-- The pieces of a text between semicolons: the loop of `TryToDeleteFile`.
unfoldable pub pieces : Text → List Text
pieces [] = [] ∷ []
pieces (c ∷ s) = elim (pieces s) [
  | [] ↦ (c ∷ []) ∷ []
  | p ∷ ps ↦ if c == semicolon then [] ∷ p ∷ ps else (c ∷ p) ∷ ps
]

-- A piece as a file of the domain; an empty one is none.
abbrev pub file_of : Text → Text → List Text
file_of domain [] = []
file_of domain (c ∷ s) = (domain ++ (if c == slash then c ∷ s else slash ∷ c ∷ s)) ∷ []

abbrev pub files_of : Text → List Text → List Text
files_of domain [] = []
files_of domain (p ∷ ps) = file_of domain p ++ files_of domain ps

-- `ListFile` for one domain, and for the list.
unfoldable pub deletions : Text → List Text → List Text
unfolding pieces
deletions domain [] = []
deletions domain (s ∷ msgs) = files_of domain (pieces s) ++ deletions domain msgs

-- `TryToDeleteFile`: the files that are deleted, in their order.
unfoldable pub try_to_delete_file : MessageList → List Text
unfolding deletions
try_to_delete_file [] = []
try_to_delete_file ((domain, msgs) ∷ list) = deletions domain msgs ++ try_to_delete_file list
