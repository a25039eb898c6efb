-- ===== src/Accordion/Playlist/Refine.antt =====
-- accordion_V10.X/playlist.cpp: the outer loop of `start` is the service of a queue.
use cproject.Base.{
  if-related, leb, ◌+◌, ◌⊎◌, ◌||◌, ◌≢◌, ==_iff, ℕ, zero, suc, ◌<◌, ◌≡◌, refl, ap, sym, ◌∙◌, inl,
  inr, Bool, true, false, not, ◌==◌, if◌then◌else◌, Option, none, some, List, [], ◌∷◌, ◌++◌, length,
  take, drop, arith, Outcome, done, ◌>>=◌, append-nil,
}
use cproject.Base.Int.{pos}
use cproject.Base.Text.{Text}
use cproject.Accordion.Playlist.{
  Player, Track, erase_idx, after_play, load_playlist, with_info, with_rate, play, round, session,
  start, start_position, advance_iterator,
}
use cproject.Accordion.Playlist.Queue.{
  moved, hear, Queue, dropped, renewed, broadcast, fits, serve_with, serve, served,
}
use cproject.Accordion.Playlist.Position.{
  contents, queue, IsPlaced, placed_at_start, erase_idx_refines, get_current_file_refines,
}
use cproject.Accordion.Playlist.Loop.{air_of, play_refines}

-- What a round leaves, against what it does to the queue.
abbrev Rounds : Outcome (Player × Bool) → Queue × Bool → Type 0
Rounds m s = (r : Player × Bool) × (m ≡ done r) × (queue r.0 ≡ s.0) × IsPlaced r.0 × (r.1 ≡ s.1)

after_play_refines :
    (t : Track) (o : Bool) (fresh : Option (List Text)) (p : Player)
    → IsPlaced p
    → let r : Player × Bool =
        if not o
        then (p, false)
        else (elim fresh [ none ↦ p | some files ↦ load_playlist files p ], true) in
      (queue r.0 ≡ record {
        files = if o then (elim fresh [ none ↦ contents p | some new ↦ new ]) else contents p;
        air = air_of p;
      })
      × IsPlaced r.0
      × (r.1 ≡ o)
unfolding load_playlist
after_play_refines t false fresh p v = (refl, v, refl)
after_play_refines t true none p v = (refl, v, refl)
after_play_refines t true (some files) p v = (
  ap (λ fs. record { files = fs; air = air_of p }) (append-nil files),
  placed_at_start files,
  refl,
)

broadcast_refines :
    (t : Track) (rate : ℕ) (p : Player)
    → p.it < length p.play_list
    → p.rate ≡ some rate
    → Rounds (play t.tries 0 p >>= λ r. done (after_play t r)) (broadcast t rate (queue p))
unfolding after_play
broadcast_refines t rate p h e =
    let (r, m, c, v, n) = play_refines t.tries 0 false p refl (inr h, λ x. h) in
    let (c', v', n') = after_play_refines t t.online t.fresh r.0 v in
    (
      after_play t r,
      rw m refl,
      c'
          ∙ ap (λ q. record { files = renewed t q.files; air = q.air }) c
          ∙ ap
              (λ rate.
                let heard = hear t.tries false (record { header = p.header; rate = rate }) in
                record { files = renewed t (moved heard.move (contents p)); air = heard.air })
              e,
      v',
      n',
    )

erase_refines :
    (p : Player)
    → p.it < length p.play_list
    → Rounds
        (erase_idx p >>= λ q. done (q, true))
        (record (queue p) { files = dropped (contents p) }, true)
erase_refines p h = let (q, e, c, v) = erase_idx_refines p h in ((q, true), rw e refl, c, v, refl)

-- A file of another rate is dropped; a server that knows no rate learns the file's.
with_rate_refines :
    (t : Track) (known : Option ℕ) (rate : ℕ) (p : Player)
    → p.it < length p.play_list
    → p.rate ≡ known
    → Rounds (with_rate t known rate p) (
        if fits known rate
        then broadcast t rate (queue p)
        else (record (queue p) { files = dropped (contents p) }, true))
unfolding with_rate
with_rate_refines t none rate p h e =
    broadcast_refines t rate (record p { rate = some rate }) h refl
with_rate_refines t (some known) rate p h e =
    if-related Rounds (known == rate)
      (λ same. broadcast_refines t rate p h (e ∙ ap some ((==_iff known rate).0 same)))
      (λ other. erase_refines p h)

with_info_refines :
    (t : Track) (info : Option ℕ) (p : Player)
    → p.it < length p.play_list
    → Rounds (with_info t info p) (serve_with t info (queue p))
unfolding with_info
with_info_refines t none p h = erase_refines p h
with_info_refines t (some rate) p h = with_rate_refines t p.rate rate p h refl

round_refines :
    (t : Track) (p : Player)
    → p.it < length p.play_list
    → (f : Text) × (r : Player × Bool) × (round t p ≡ done (f, r.0, r.1))
      × (contents p ≡ f ∷ dropped (contents p))
      × (queue r.0 ≡ (serve t (queue p)).0)
      × IsPlaced r.0
      × (r.1 ≡ (serve t (queue p)).1)
unfolding round serve
round_refines t p h =
    let (f, q, e, c, same, h') = get_current_file_refines p h in
    let (r, m, d, v, n) = with_info_refines t t.info q h' in
    (f, r, rw (e, m) refl, c, d ∙ ap (λ x. (serve t x).0) same, v, n ∙ ap (λ x. (serve t x).1) same)

==-false : {i n : ℕ} → i < n → (n == 0) ≡ false
==-false {i} {n} h = ground arith

served_cons :
    (t : Track) (ts : List Track) (q : Queue) (f : Text) (fs : List Text)
    → q.files ≡ f ∷ fs
    → served (t ∷ ts) q ≡ f ∷ (if (serve t q).1 then served ts (serve t q).0 else [])
unfolding served
served_cons t ts q f fs e = rw e refl

served_nil : (t : Track) (ts : List Track) (q : Queue) → q.files ≡ [] → served (t ∷ ts) q ≡ []
unfolding served
served_nil t ts q e = rw e refl

none_left : (i : ℕ) (xs : List Text) → xs ≡ [] → drop i xs ++ take i xs ≡ []
none_left zero xs e = rw e refl
none_left (suc i) xs e = rw e refl

-- A session on a list with a file at its iterator.
session_cons :
    (t : Track) (ts : List Track) (p : Player) (f : Text) (q : Player) (go : Bool) (fs : List Text)
    → p.it < length p.play_list
    → round t p ≡ done (f, q, go)
    → session ts q ≡ done fs
    → session (t ∷ ts) p ≡ done (f ∷ (if go then fs else []))
unfolding session
session_cons t ts p f q true fs h m e = rw (==-false h, m, e) refl
session_cons t ts p f q false fs h m e = rw (==-false h, m) refl

-- The files that the program opens are the ones that the queue serves, whatever the tracks meet.
pub session_refines :
    (ts : List Track) (p : Player) → IsPlaced p → session ts p ≡ done (served ts (queue p))
unfolding session served
session_refines [] p v = refl
session_refines (t ∷ ts) p (inl e) =
    rw (ap length e) (ap done (sym (served_nil t ts (queue p) (none_left p.it p.play_list e))))
session_refines (t ∷ ts) p (inr h) =
    let (f, r, m, c, d, v, n) = round_refines t p h in
    session_cons t ts p f r.0 r.1 (served ts (queue r.0)) h m (session_refines ts r.0 v)
    ∙ rw (d, n) (ap done (sym (served_cons t ts (queue p) f _ c)))

-- The position that an index of the file stands for.
abbrev pub resumed_at : ℕ → ℕ → ℕ
resumed_at n size = if n == 0 || leb size (n + 1) then 0 else n + 1

resumed-IsPlaced : (n : ℕ) (xs : List Text) → (xs ≡ []) ⊎ (resumed_at n (length xs) < length xs)
resumed-IsPlaced n [] = inl refl
resumed-IsPlaced n (x ∷ xs) = inr (ground arith)

files_left : (xs : List Text) → xs ≢ [] → (length xs == 0) ≡ false
files_left [] h = absurd (h refl)
files_left (x ∷ xs) h = ground arith

start_position_lem :
    (n : ℕ) (p : Player)
    → start_position (some (pos n)) p ≡ done (record p { it = resumed_at n (length p.play_list) })
unfolding start_position advance_iterator
start_position_lem zero p = refl
start_position_lem (suc n) p = ap (λ i. done (record p { it = i })) (ground arith)

-- Started with the index `n` in its file, on a list that is not empty, a format that is set up and a
-- connection: the program opens the files that a queue serves which has been turned behind file `n`. At
-- index 0, and where no file stands behind `n`, it is the list from its start.
pub start_resumes :
    (n : ℕ) (ts : List Track) (p : Player)
    → p.play_list ≢ []
    → let k = resumed_at n (length p.play_list) in
      start true (some (pos n)) true ts p
      ≡ done (
          served ts (record {
            files = drop k p.play_list ++ take k p.play_list;
            air = record { header = true; rate = none };
          }))
unfolding start
start_resumes n ts p h =
    let k = resumed_at n (length p.play_list) in
    rw (files_left p.play_list h, start_position_lem n p)
      (session_refines ts (record p { it = k; saved = k; header = true; rate = none })
        (resumed-IsPlaced n p.play_list))
