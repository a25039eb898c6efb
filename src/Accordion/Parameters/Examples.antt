-- ===== src/Accordion/Parameters/Examples.antt =====
-- A list of two files, run through accordion_V10.X/parameters.cpp, and the theorems at it.
use cproject.Base.{◌≡◌, refl, Bool, true, List, [], ◌∷◌, ◌++◌, done, crash}
use cproject.Base.Text.{Text, codes, text_eq, atoi, digits_value}
use cproject.Rotator.Timer.{decimal}
use cproject.Accordion.Parameters.{
  newline, get_metadata_begin, from_finish, lines, until_bar, scan, scan_path, file_of, files_at,
  read_lines, read_playlist,
}
use cproject.Accordion.Parameters.Parsing.{Entry, body}

abbrev first : Entry
first = record { id = codes "7"; path = codes "p"; rest = codes "x" }

abbrev second : Entry
second = record { id = codes "8"; path = codes "q"; rest = [] }

abbrev entries : List Entry
entries = first ∷ second ∷ []

abbrev any_file : Text → Bool
any_file name = true

abbrev sent : Text
sent = codes "finish" ++ (newline ∷ body entries)

read_test :
    read_playlist (codes "/m") (codes "mp3") any_file sent
    ≡ done (codes "/m/p/0/7.mp3" ∷ codes "/m/q/0/8.mp3" ∷ [])
unfolding read_playlist get_metadata_begin from_finish lines read_lines scan scan_path until_bar
    files_at file_of text_eq atoi digits_value decimal
read_test = refl

-- Without the word the list is empty; an empty text stops the program.
empty_test : read_playlist (codes "/m") (codes "mp3") any_file [] ≡ crash
unfolding read_playlist get_metadata_begin
empty_test = refl
