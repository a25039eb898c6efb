-- ===== src/Accordion/Playlist.antt =====
-- accordion_V10.X/playlist.cpp: `TPlaylist`, which file is streamed next. Files, the socket and the rest of
-- the program answer through `Try` and `Track`; times and logging are left out.
pub mod Queue
pub mod Position
pub mod Loop
pub mod Refine
pub mod Round
mod Examples
use cproject.Base.{
  ℕ, zero, suc, ◌+◌, Bool, true, false, not, ◌&&◌, ◌||◌, ◌==◌, ltb, if◌then◌else◌, Option, none,
  some, List, [], ◌∷◌, length, get_elem?, Outcome, done, crash, ◌>>=◌,
}
use cproject.Base.Int.{ℤ, pos, negsuc}
use cproject.Base.Text.{Text}

-- `list.erase(it)` of <list>, by the position.
abbrev pub erase_at : List Text → ℕ → List Text
erase_at [] i = []
erase_at (x ∷ xs) zero = xs
erase_at (x ∷ xs) (suc i) = x ∷ erase_at xs i

-- The fields: the list and its iterator, by its position (the length stands for `end()`), the header
-- flag `ev_header`, the sample rate that the server knows (none is -1), and the index that `save_idx`
-- has written.
pub record Player : Type 0 where
  pub play_list : List Text
  pub it : ℕ
  pub header : Bool
  pub rate : Option ℕ
  pub saved : ℕ
  pub error : Bool

-- `playlist_clear`; the iterator is of no use then.
unfoldable pub playlist_clear : Player → Player
playlist_clear p = record p { play_list = []; it = 0 }

-- `load_playlist`, of what `update_playlist` copies.
unfoldable pub load_playlist : List Text → Player → Player
load_playlist files p = record p { play_list = files; it = 0; error = length files == 0 }

-- `get_next_iterator`: at the end the list is read from its start again.
unfoldable pub get_next_iterator : Player → Outcome Player
get_next_iterator p =
    if ltb p.it (length p.play_list)
    then done (record p { it = if p.it + 1 == length p.play_list then 0 else p.it + 1 })
    else crash

-- `erase_idx`
unfoldable pub erase_idx : Player → Outcome Player
erase_idx p =
    let rest = erase_at p.play_list p.it in
    if ltb p.it (length p.play_list)
    then done (record p { play_list = rest; it = if p.it == length rest then 0 else p.it })
    else crash

-- `strdup(get_current_file())`, which writes the index down; at the end there is no file to copy.
unfoldable pub get_current_file : Player → Outcome (Text × Player)
get_current_file p = elim (get_elem? p.play_list p.it) [
  | none ↦ crash
  | some f ↦ done (f, record p { saved = p.it })
]

-- `advance_iterator`, where the file of the index holds `idx` (0 if there is none): behind the file that
-- was played last. An index below -1 moves the iterator before the list.
unfoldable pub advance_iterator : ℤ → Player → Outcome Player
advance_iterator (pos zero) p = done (record p { it = 0 })
advance_iterator (pos (suc n)) p =
    done (record p { it = if ltb (n + 2) (length p.play_list) then n + 2 else 0 })
advance_iterator (negsuc zero) p = done (record p { it = 0 })
advance_iterator (negsuc (suc n)) p = crash

-- What one round of the inner loop of `start` meets: whether the socket is connected, whether
-- `net_connect` succeeds, whether the header is sent, whether the answer is 200, and what `GetFrames`
-- returns.
pub record Try : Type 0 where
  pub connected : Bool
  pub connects : Bool
  pub header_sent : Bool
  pub accepted : Bool
  pub frames : ℕ

-- How the inner loop ended: at the end of the file, for want of a connection, or refused by the server.
-- `waiting` is a loop that still runs.
pub data End : Type 0 where
  finished unconnected refused waiting : End

-- A lost connection asks for the header again.
unfoldable pub check_connection : Bool → Player → Player
check_connection connected p = if connected then p else record p { header = true; rate = none }

-- Behind the header: the iterator moves on before the first frames of a file.
unfoldable pub send :
    (ℕ → Player → Outcome (Player × End)) → ℕ → ℕ → Player → Outcome (Player × End)
send loop res frames p = (if res == 0 then get_next_iterator p else done p) >>= λ q.
    if frames == 0 then done (q, finished) else loop frames q

-- The body of the loop on an open connection.
unfoldable pub transmit :
    (ℕ → Player → Outcome (Player × End)) → ℕ → Try → Player → Outcome (Player × End)
unfolding send playlist_clear
transmit loop res t p =
    if p.header
    then (if not t.header_sent
        then loop res p
        else if not t.accepted
        then done (playlist_clear p, refused)
        else send loop res t.frames (record p { header = false }))
    else send loop res t.frames p

-- The inner loop over the rounds that come, with `res` from the round before.
unfoldable pub play : List Try → ℕ → Player → Outcome (Player × End)
unfolding transmit check_connection
play [] res p = done (p, waiting)
play (t ∷ ts) res p =
    let q = check_connection t.connected p in
    if not t.connects then done (q, unconnected) else transmit (play ts) res t q

-- What the file at hand is like, and what happens then: `info` is its sample rate, none if
-- `GetFileInfo` or `StartPlay` fails; `online` is the connection behind the loop; `fresh` is a new
-- playlist that has come by then.
pub record Track : Type 0 where
  pub info : Option ℕ
  pub tries : List Try
  pub online : Bool
  pub fresh : Option (List Text)

-- The rest of the round of the outer loop; true is to go on.
unfoldable pub after_play : Track → Player × End → Player × Bool
unfolding load_playlist
after_play t (p, e) =
    if not t.online
    then (p, false)
    else (elim t.fresh [ none ↦ p | some files ↦ load_playlist files p ], true)

-- A file that can be read: its sample rate has to be the one of the stream.
unfoldable pub with_rate : Track → Option ℕ → ℕ → Player → Outcome (Player × Bool)
unfolding after_play erase_idx
with_rate t none rate p =
    play t.tries 0 (record p { rate = some rate }) >>= λ r. done (after_play t r)
with_rate t (some known) rate p =
    if known == rate
    then (play t.tries 0 p >>= λ r. done (after_play t r))
    else (erase_idx p >>= λ q. done (q, true))

unfoldable pub with_info : Track → Option ℕ → Player → Outcome (Player × Bool)
unfolding with_rate erase_idx
with_info t none p = erase_idx p >>= λ q. done (q, true)
with_info t (some rate) p = with_rate t p.rate rate p

-- One round of `while (!play_list.empty())`: the file, the fields behind it, and whether to go on.
unfoldable pub round : Track → Player → Outcome (Text × Player × Bool)
unfolding with_info get_current_file
round t p = do (file, q) ← get_current_file p; r ← with_info t t.info q; done (file, r.0, r.1)

-- The outer loop over what the tracks meet: the files that were opened, in their order.
unfoldable pub session : List Track → Player → Outcome (List Text)
unfolding round
session [] p = done []
session (t ∷ ts) p =
    if length p.play_list == 0
    then done []
    else (round t p >>= λ r.
        let rest = session ts r.1 in
        if r.2 then (rest >>= λ files. done (r.0 ∷ files)) else done (r.0 ∷ []))

-- The position that `start` begins at: `resume` is the index of the file if there is a file to go on
-- with (`get_playfile_exists`).
unfoldable pub start_position : Option ℤ → Player → Outcome Player
unfolding advance_iterator
start_position none p = done (record p { it = 0 })
start_position (some idx) p = advance_iterator idx p

-- `start`: `created` is the answer of `fmt_Create`, `connected` the one of the first `net_connect`.
unfoldable pub start : Bool → Option ℤ → Bool → List Track → Player → Outcome (List Text)
unfolding session start_position
start created resume connected ts p =
    if length p.play_list == 0 || not created
    then done []
    else (start_position resume p >>= λ q.
        let r = record q { saved = q.it; header = true; rate = none } in
        if connected then session ts r else done [])
