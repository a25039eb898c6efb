-- ===== src/Accordion/Common/Examples.antt =====
-- Texts, run through accordion_V10.X/common.cpp, and the theorems at them.
use cproject.Base.{
  Bool, true, false, ltb, length, done, ◌<◌, ◌≡◌, refl, true, [], ◌∷◌, ◌++◌, All, List, arith,
}
use cproject.Base.Text.{Text, codes, c_str}
use cproject.Accordion.Common.{url_encode, xtrim}
use cproject.Accordion.Common.Encoding.{
  url_decode, url_decode-url_encode, stands_in, unreserved, url_encode-All,
}
use cproject.Accordion.Common.Directory.{directories_from, make_all, make_directory}
use cproject.Accordion.Common.Directory.Chain.{path, chain, Tried, make_directory-path}
use cproject.Accordion.Common.Trimming.{spaces, xtrim_lem}

-- A space and a byte of UTF-8.
abbrev song : Text
song = 97 ∷ 32 ∷ 208 ∷ []

song_test : url_encode song ≡ codes "a%20%D0"
unfolding url_encode
song_test = refl

song-bytes : All (λ c. c < 256) song
song-bytes = (omega arith, (omega arith, (omega arith, tt)))

url_decode-url_encode_example : url_decode (url_encode song) ≡ c_str song
url_decode-url_encode_example = url_decode-url_encode song song-bytes

url_encode-All_example : All (λ d. stands_in unreserved d ≡ true) (url_encode song)
url_encode-All_example = url_encode-All song song-bytes

xtrim_lem_example :
    (xtrim 4096 (spaces 2 ++ codes "a ") ≡ done (97 ∷ c_str (codes " ")))
    × (xtrim 4096 (spaces 2) ≡ done (spaces 2))
xtrim_lem_example = xtrim_lem 4096 2 97 (codes " ") (omega arith) refl refl

-- The inner directory cannot be made.
abbrev outer_only : Text → Bool
outer_only d = ltb (length d) 4

directory_test :
    make_directory outer_only (codes "ab/c") ≡ done (false, codes "/ab" ∷ codes "/ab/c" ∷ [])
unfolding make_directory directories_from make_all
directory_test = refl

make_directory-path_example :
    (o : Bool × List Text) × (make_directory outer_only (path (codes "ab" ∷ codes "c" ∷ []))
      ≡ done o)
    × Tried outer_only (chain [] (codes "ab" ∷ codes "c" ∷ [])) o
make_directory-path_example =
    make_directory-path outer_only (codes "ab") (codes "c" ∷ [])
      ((refl, (refl, tt)), ((refl, tt), tt))
