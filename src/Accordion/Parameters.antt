-- ===== src/Accordion/Parameters.antt =====
-- accordion_V10.X/parameters.cpp: `Tparameters`, the playlist that the server of the radio sends. Whether a file
-- is there and not empty is a parameter; the writing of the playlist's own file is left out.
pub mod Parsing
mod Examples
use cproject.Base.{
  ℕ, zero, suc, ◌+◌, ◌/◌, Bool, true, false, not, ◌&&◌, ◌==◌, ltb, if◌then◌else◌, Option, none,
  some, List, [], ◌∷◌, ◌++◌, length, take, drop, Outcome, done, crash, ◌>>=◌,
}
use cproject.Base.Int.{ℤ, pos, negsuc}
use cproject.Base.Text.{Text, codes, text_eq, atoi}
use cproject.Rotator.Timer.{decimal}

abbrev pub bar : ℕ
bar = 124

abbrev pub newline : ℕ
newline = 10

-- `str.find("finish")`, and the text from there on; the empty text where it is not found.
unfoldable pub from_finish : Text → Text
from_finish [] = []
from_finish (c ∷ s) =
    let rest = from_finish s in if text_eq (take 6 (c ∷ s)) (codes "finish") then c ∷ s else rest

-- `get_metadata_begin`: a `std::string` is made of a null pointer where the text is empty.
unfoldable pub get_metadata_begin : Text → Outcome Text
unfolding from_finish
get_metadata_begin [] = crash
get_metadata_begin (c ∷ s) = done (from_finish (c ∷ s))

-- The texts that `get_endl` yields one after the other: what stands behind each end of a line.
unfoldable pub lines : Text → List Text
lines [] = []
lines (c ∷ s) = let rest = lines s in if c == newline then s ∷ rest else rest

-- `%[^|]`
unfoldable pub until_bar : Text → Text
until_bar [] = []
until_bar (c ∷ s) = let rest = until_bar s in if c == bar then [] else c ∷ rest

-- The buffers `id` and `path`, which keep what was read into them before.
pub record Buffers : Type 0 where
  pub id : Text
  pub path : Text

-- The 100 bytes of a buffer hold 99 and the end.
abbrev pub fits : Text → Bool
fits s = not (ltb 99 (length s))

-- `%*c%[^|]` behind the identifier.
unfoldable pub scan_path : Text → Buffers → Outcome Buffers
unfolding until_bar
scan_path [] b = done b
scan_path (c ∷ s) b =
    let path = until_bar s in
    if length path == 0
    then done b
    else if fits path
    then done (record b { path = path })
    else crash

-- `sscanf(s, "%[^|]%*c%[^|]", id, path)`: none where nothing was read.
unfoldable pub scan : Text → Buffers → Outcome (Option Buffers)
unfolding until_bar scan_path
scan s b =
    let id = until_bar s in
    if length id == 0
    then done none
    else if fits id
    then (scan_path (drop (length id) s) (record b { id = id }) >>= λ b'. done (some b'))
    else crash

-- `GetSubPath`, in digits.
abbrev pub sub_path : ℤ → Text
sub_path (pos n) = decimal (suc (n / 10000)) (n / 10000)
sub_path (negsuc n) = let q = suc n / 10000 in if q == 0 then codes "0" else 45 ∷ decimal (suc q) q

-- "%s/%s/%s/%s.%s"
abbrev pub file_name : Text → Text → Buffers → Text
file_name playlist_path ext b =
    playlist_path ++ (47 ∷ (b.path ++ (47 ∷ (sub_path (atoi b.id) ++ (47 ∷ (b.id ++ (46 ∷ ext)))))))

module _ (playlist_path ext : Text) (exists : Text → Bool) where
  -- An identifier that is a number but 0 and a path make a file, which is kept if it is there.
  unfoldable pub file_of : Buffers → Outcome (List Text)
  file_of b =
      let name = file_name playlist_path ext b in
      elim (atoi b.id) [
        | pos zero ↦ done []
        | _ ↦
            if length b.path == 0
            then done []
            else if ltb 4095 (length name)
            then crash
            else done (if exists name then name ∷ [] else [])
      ]

  unfoldable pub files_at : Option Buffers → Outcome (List Text)
  unfolding file_of
  files_at none = done []
  files_at (some b) = file_of b

  abbrev pub kept : Buffers → Option Buffers → Buffers
  kept b none = b
  kept b (some b') = b'

  -- The loop over the lines: it ends where nothing follows.
  unfoldable pub read_lines : List Text → Buffers → Outcome (List Text)
  unfolding scan files_at
  read_lines [] b = done []
  read_lines ([] ∷ ls) b = done []
  read_lines ((c ∷ s) ∷ ls) b = do
    found ← scan (c ∷ s) b
    files ← files_at found
    more ← read_lines ls (kept b found)
    done (files ++ more)

  -- The list `pl` that `set_change_playlist` reads.
  unfoldable pub read_playlist : Text → Outcome (List Text)
  unfolding get_metadata_begin lines read_lines
  read_playlist text = do
    s ← get_metadata_begin text
    read_lines (lines s) (record { id = []; path = [] })

-- The fields that the playlist is about.
pub record Parameters : Type 0 where
  pub playlist : List Text
  pub new_playlist : Bool
  pub playfile_exists : Bool

-- `set_change_playlist`, behind the reading: an empty list changes nothing but the flag.
unfoldable pub change_playlist : List Text → Parameters → Parameters
change_playlist [] p = record p { new_playlist = false }
change_playlist (f ∷ fs) p = record {
  playlist = f ∷ fs;
  new_playlist = true;
  playfile_exists = false;
}

-- `get_new_playlist` and `update_playlist`
unfoldable pub get_new_playlist : Parameters → Bool
get_new_playlist p = p.new_playlist && not (length p.playlist == 0)

unfoldable pub update_playlist : Parameters → List Text → List Text × Parameters
update_playlist p pl = (pl ++ p.playlist, record p { new_playlist = false })
