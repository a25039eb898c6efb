-- ===== src/Accordion/Playlist/Examples.antt =====
-- A list of three files, played round by accordion_V10.X/playlist.cpp.
use cproject.Base.{ℕ, ◌≡◌, ◌≢◌, refl, inr, true, false, none, some, List, [], ◌∷◌, map, arith, done}
use cproject.Base.Int.{pos}
use cproject.Base.Text.{codes}
use cproject.Accordion.Playlist.{
  Player, Try, Track, get_next_iterator, erase_idx, get_current_file, playlist_clear, load_playlist,
  check_connection, send, transmit, play, after_play, with_rate, with_info, round, session, start,
}
use cproject.Accordion.Playlist.Queue.{served}
use cproject.Accordion.Playlist.Position.{queue}
use cproject.Accordion.Playlist.Round.{smooth, session-smooth}
use cproject.Accordion.Playlist.Refine.{session_refines, start_resumes}

abbrev player : Player
player = record {
  play_list = codes "a" ∷ codes "b" ∷ codes "c" ∷ [];
  it = 1;
  header = true;
  rate = none;
  saved = 0;
  error = false;
}

abbrev good : ℕ → Try
good frames = record {
  connected = true;
  connects = true;
  header_sent = true;
  accepted = true;
  frames = frames;
}

-- A file that is sent in one piece, and one that cannot be read.
abbrev sent : Track
sent = record { info = some 44100; tries = good 4 ∷ good 0 ∷ []; online = true; fresh = none }

abbrev unreadable : Track
unreadable = record sent { info = none }

abbrev tracks : List Track
tracks = sent ∷ unreadable ∷ sent ∷ sent ∷ []

session_test : session tracks player ≡ done (codes "b" ∷ codes "c" ∷ codes "a" ∷ codes "b" ∷ [])
unfolding session round get_current_file with_info with_rate after_play load_playlist play
    check_connection transmit send get_next_iterator erase_idx playlist_clear
session_test = refl

session_refines_example : session tracks player ≡ done (served tracks (queue player))
session_refines_example = session_refines tracks player (inr (omega arith))

no_files : codes "a" ∷ codes "b" ∷ codes "c" ∷ [] ≢ []
no_files e = cc

start_resumes_example :
    start true (some (pos 1)) true tracks player
    ≡ done (
        served tracks (record {
          files = codes "c" ∷ codes "a" ∷ codes "b" ∷ [];
          air = record { header = true; rate = none };
        }))
start_resumes_example = start_resumes 1 tracks player no_files

session-smooth_example :
    session (map (smooth 44100) ((5 ∷ 6 ∷ []) ∷ [] ∷ (7 ∷ []) ∷ [])) player
    ≡ done (codes "b" ∷ codes "c" ∷ codes "a" ∷ [])
session-smooth_example =
    session-smooth 44100 ((5 ∷ 6 ∷ []) ∷ [] ∷ (7 ∷ []) ∷ []) player (inr (omega arith)) refl refl
