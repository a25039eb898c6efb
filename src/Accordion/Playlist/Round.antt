-- ===== src/Accordion/Playlist/Round.antt =====
-- accordion_V10.X/playlist.cpp: a session without trouble plays the list round.
use cproject.Base.{
  ℕ, suc, ◌≡◌, refl, sym, ap, ◌∙◌, Bool, true, false, ◌&&◌, ◌==◌, none, some, List, [], ◌∷◌, ◌++◌,
  length, map, arith, done, append_assoc, append-nil,
}
use cproject.Base.Text.{Text}
use cproject.Accordion.Playlist.{Player, Try, finished, Track, session}
use cproject.Accordion.Playlist.Queue.{
  Air, stay, next, lead, moved, hear, hear_one, Queue, fits, serve, served,
}
use cproject.Accordion.Playlist.Position.{contents, queue, IsPlaced}
use cproject.Accordion.Playlist.Refine.{session_refines}

-- A round of the loop on a connection that is open, with `n` bytes of frames.
abbrev good : ℕ → Try
good n = record {
  connected = true;
  connects = true;
  header_sent = true;
  accepted = true;
  frames = n;
}

-- Pieces of frames that are not empty, and the end of the file.
abbrev pub steady : List ℕ → List Try
steady [] = good 0 ∷ []
steady (n ∷ ns) = good (suc n) ∷ steady ns

-- A file of the rate `r` that is sent in such pieces.
abbrev pub smooth : ℕ → List ℕ → Track
smooth r ns = record { info = some r; tries = steady ns; online = true; fresh = none }

&&-false : (b : Bool) → (b && false) ≡ false
&&-false true = refl
&&-false false = refl

suc_not_zero : (n : ℕ) → (suc n == 0) ≡ false
suc_not_zero n = ground arith

lead-lead : (sent : Bool) → lead sent (lead true stay) ≡ lead sent stay
lead-lead sent = refl

hear-steady :
    (ns : List ℕ) (sent : Bool) (a : Air)
    → hear (steady ns) sent a ≡ record {
      move = lead sent stay;
      air = record { header = false; rate = a.rate };
      end = finished;
    }
unfolding hear hear_one
hear-steady [] sent a = rw (&&-false a.header) refl
hear-steady (n ∷ ns) sent a =
    rw
      (
        &&-false a.header,
        suc_not_zero n,
        hear-steady ns true (record { header = false; rate = a.rate }),
      )
      refl

serve-smooth :
    (r : ℕ) (ns : List ℕ) (q : Queue)
    → fits q.air.rate r ≡ true
    → serve (smooth r ns) q ≡ (
      record { files = moved next q.files; air = record { header = false; rate = some r } },
      true,
    )
unfolding serve
serve-smooth r ns q h =
    rw (h, hear-steady ns false (record { header = q.air.header; rate = some r })) refl

fits_self : (r : ℕ) → fits (some r) r ≡ true
fits_self r = ground arith

served-smooth :
    (r : ℕ) (nss : List (List ℕ)) (xs ys : List Text) (a : Air)
    → length nss ≡ length xs
    → fits a.rate r ≡ true
    → served (map (smooth r) nss) (record { files = xs ++ ys; air = a }) ≡ xs
unfolding served
served-smooth r [] [] ys a e h = refl
served-smooth r [] (x ∷ xs) ys a e h = absurd (omega arith)
served-smooth r (ns ∷ nss) [] ys a e h = absurd (omega arith)
served-smooth r (ns ∷ nss) (x ∷ xs) ys a e h =
    rw (serve-smooth r ns (record { files = x ∷ (xs ++ ys); air = a }) h) (
      ap (λ fs. x ∷ fs)
        (ap
            (λ fs.
              served (map (smooth r) nss)
                (record { files = fs; air = record { header = false; rate = some r } }))
            (append_assoc xs ys (x ∷ []))
          ∙ served-smooth r nss xs (ys ++ (x ∷ [])) (record { header = false; rate = some r })
              (omega (arith, e)) (fits_self r)))

-- Where the connection stays open and each file can be read and has the rate of the stream, as many rounds
-- as there are files open each file once, in the order of the list from the iterator on.
pub session-smooth :
    (r : ℕ) (nss : List (List ℕ)) (p : Player)
    → IsPlaced p
    → length nss ≡ length (contents p)
    → fits p.rate r ≡ true
    → session (map (smooth r) nss) p ≡ done (contents p)
session-smooth r nss p v e h =
    session_refines (map (smooth r) nss) p v
    ∙ ap done (
        ap (λ fs. served (map (smooth r) nss) (record (queue p) { files = fs }))
          (sym (append-nil (contents p)))
        ∙ served-smooth r nss (contents p) [] (queue p).air e h)
