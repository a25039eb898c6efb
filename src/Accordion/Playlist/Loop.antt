-- ===== src/Accordion/Playlist/Loop.antt =====
-- accordion_V10.X/playlist.cpp: the inner loop of `start` on one file, against the queue.
use cproject.Base.{
  if-related, ℕ, ◌<◌, ◌≡◌, refl, ap, ap₂, sym, subst, ◌∙◌, ◌≢◌, inl, Bool, true, false, not, ◌&&◌,
  ◌==◌, if◌then◌else◌, none, List, [], ◌∷◌, length, Outcome, done, if-both,
}
use cproject.Base.Text.{Text}
use cproject.Accordion.Playlist.{
  Player, Try, End, finished, unconnected, refused, waiting, get_next_iterator, playlist_clear,
  check_connection, send, transmit, play,
}
use cproject.Accordion.Playlist.Queue.{
  Move, stay, next, clear, moved, lead, Air, Heard, hear, hear_one, lost,
}
use cproject.Accordion.Playlist.Position.{contents, queue, IsPlaced, get_next_iterator_refines}

-- What the loop on one file has done to the queue `fs`, against what was heard.
abbrev pub Plays : List Text → Outcome (Player × End) → Heard → Type 0
Plays fs m h =
    (r : Player × End) × (m ≡ done r)
    × (queue r.0 ≡ record { files = moved h.move fs; air = h.air })
    × IsPlaced r.0
    × (r.1 ≡ h.end)

stay-ne-next : stay ≢ next
stay-ne-next e = cc

clear-ne-next : clear ≢ next
clear-ne-next e = cc

hear_sent : (ts : List Try) (a : Air) → (hear ts true a).move ≢ next
unfolding hear hear_one
hear_sent [] a = stay-ne-next
hear_sent (t ∷ ts) a = if-both Still (not t.connects) stay-ne-next (
    if-both Still _ (hear_sent ts _)
      (if-both Still _ clear-ne-next (if-both Still (t.frames == 0) stay-ne-next (hear_sent ts _))))
  where
    Still : Heard → Type 0
    Still h = h.move ≢ next

moved-lead :
    (sent : Bool) (m : Move) (fs : List Text)
    → m ≢ next
    → moved (lead sent m) fs ≡ moved m (moved (lead sent stay) fs)
moved-lead true m fs h = refl
moved-lead false stay fs h = refl
moved-lead false next fs h = absurd (h refl)
moved-lead false clear fs h = refl

-- The same tests in the code's order and in the queue's.
nested {ℓ κ μ} :
    {A : Type ℓ} {B : Type κ} (R : A → B → Type μ) (b c d : Bool) {x y z w : A} {x' y' z' : B}
    → R x x'
    → R y y'
    → (b ≡ true → R z z')
    → (b ≡ false → R w z')
    → R
        (if b then (if c then x else if d then y else z) else w)
        (if b && c then x' else if b && d then y' else z')
nested R true true d p q r s = p
nested R true false true p q r s = q
nested R true false false p q r s = r refl
nested R false c d p q r s = s refl

-- The relation at a queue and a stream that are known otherwise.
Plays-subst :
    {fs gs : List Text} {a b : Air} (ts : List Try) (m : Outcome (Player × End))
    → gs ≡ fs
    → a ≡ b
    → Plays gs m (hear ts true a)
    → Plays fs m (hear ts true b)
Plays-subst ts m e e' =
    subst {A = List Text × Air} (λ x. Plays x.0 m (hear ts true x.1)) (ap₂ (λ x y. (x, y)) e e')

-- Whether the first frames of the file are sent, in the loop's variable and in the queue's.
abbrev pub Sent : ℕ → Bool → Type 0
Sent res sent = (res == 0) ≡ not sent

-- The iterator is at a file until its first frames are sent.
abbrev pub AtFile : Bool → Player → Type 0
AtFile sent p = IsPlaced p × (sent ≡ false → p.it < length p.play_list)

abbrev pub air_of : Player → Air
air_of p = record { header = p.header; rate = p.rate }

abbrev pub Loop : (ℕ → Player → Outcome (Player × End)) → List Try → Type 0
Loop loop ts =
    (res : ℕ) (sent : Bool) (p : Player)
    → Sent res sent
    → AtFile sent p
    → Plays (contents p) (loop res p) (hear ts sent (air_of p))

module _ (loop : ℕ → Player → Outcome (Player × End)) (ts : List Try) (ih : Loop loop ts) where
  -- The first frames move the iterator.
  leads :
      (res : ℕ) (sent : Bool) (p : Player)
      → Sent res sent
      → AtFile sent p
      → (q : Player) × ((if res == 0 then get_next_iterator p else done p) ≡ done q)
        × (queue q ≡ record (queue p) { files = moved (lead sent stay) (contents p) })
        × IsPlaced q
  leads res true p s v = (p, rw s refl, refl, v.0)
  leads res false p s v =
      let (q, e, c, w) = get_next_iterator_refines p (v.1 refl) in (q, rw s e, c, w)

  send_refines :
      (res frames : ℕ) (sent : Bool) (p : Player)
      → Sent res sent
      → AtFile sent p
      → p.header ≡ false
      → let r = p.rate in
        let rest = hear ts true (record { header = false; rate = r }) in
        Plays (contents p) (send loop res frames p) (
          if frames == 0
          then record {
            move = lead sent stay;
            air = record { header = false; rate = r };
            end = finished;
          }
          else record rest { move = lead sent rest.move })
  unfolding send
  send_refines res frames sent p s v h =
      let (q, e, c, w) = leads res sent p s v in
      rw e (
        if-related (Plays (contents p)) (frames == 0)
          (λ z. ((q, finished), refl, c ∙ rw h refl, w, refl))
          (λ z.
            let (r, m, d, w', n) =
              Plays-subst ts (loop frames q) (ap (λ x. x.files) c) (ap (λ x. x.air) c ∙ rw h refl)
                (ih frames true q z (w, λ y. cc)) in
            (
              r,
              m,
              d
                  ∙ ap
                      (λ fs. record {
                        files = fs;
                        air = (hear ts true (record { header = false; rate = p.rate })).air;
                      })
                      (sym (moved-lead sent _ (contents p) (hear_sent ts _))),
              w',
              n,
            )))

  open_refines :
      (res : ℕ) (sent : Bool) (t : Try) (p : Player)
      → Sent res sent
      → AtFile sent p
      → Plays
          (contents p)
          (if not t.connects then done (p, unconnected) else transmit loop res t p)
          (hear_one (hear ts) sent t (air_of p))
  unfolding transmit playlist_clear hear_one
  open_refines res sent t p s v =
      if-related (Plays (contents p)) (not t.connects)
        (λ h. ((p, unconnected), refl, refl, v.0, refl))
        (λ h.
          nested (Plays (contents p)) p.header (not t.header_sent) (not t.accepted)
            (ih res sent p s v) ((playlist_clear p, refused), refl, refl, inl refl, refl)
            (λ h. send_refines res t.frames sent (record p { header = false }) s v refl)
            (λ h. send_refines res t.frames sent p s v h))

  try_refines :
      (res : ℕ) (sent : Bool) (t : Try) (c : Bool) (p : Player)
      → Sent res sent
      → AtFile sent p
      → let q = check_connection c p in
        Plays
          (contents p)
          (if not t.connects then done (q, unconnected) else transmit loop res t q)
          (hear_one (hear ts) sent t (if c then air_of p else lost))
  unfolding check_connection
  try_refines res sent t true p s v = open_refines res sent t p s v
  try_refines res sent t false p s v =
      open_refines res sent t (record p { header = true; rate = none }) s v

-- The loop on one file leaves the queue as it is heard.
pub play_refines : (ts : List Try) → Loop (play ts) ts
unfolding play hear
play_refines [] res sent p s v = ((p, waiting), refl, refl, v.0, refl)
play_refines (t ∷ ts) res sent p s v =
    try_refines (play ts) ts (play_refines ts) res sent t t.connected p s v
