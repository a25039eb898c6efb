-- ===== src/Accordion/Playlist/Queue.antt =====
-- What `TPlaylist` promises, without the list's iterator: a queue of files. Each file that is opened is
-- moved behind the others when it is sent, dropped when it cannot be, and stays when nothing was sent.
use cproject.Base.{
  ℕ, Bool, true, false, not, ◌&&◌, ◌==◌, if◌then◌else◌, Option, none, some, List, [], ◌∷◌, ◌++◌,
}
use cproject.Base.Text.{Text}
use cproject.Accordion.Playlist.{Try, End, finished, unconnected, refused, waiting, Track}

-- What a connection does to the queue.
pub data Move : Type 0 where
  stay next clear : Move

abbrev pub moved : Move → List Text → List Text
moved stay fs = fs
moved next [] = []
moved next (f ∷ fs) = fs ++ (f ∷ [])
moved clear fs = []

-- What was done when the first frames are to come, before the move `m` of what follows them.
abbrev pub lead : Bool → Move → Move
lead true m = m
lead false stay = next
lead false next = next
lead false clear = clear

-- The stream: what the server is to be told, and the rate it knows.
pub record Air : Type 0 where
  pub header : Bool
  pub rate : Option ℕ

pub record Heard : Type 0 where
  pub move : Move
  pub air : Air
  pub end : End

-- A connection that is lost: the server that answers next knows nothing.
abbrev pub lost : Air
lost = record { header = true; rate = none }

-- One round, `listen` being the rounds that follow.
unfoldable pub hear_one : (Bool → Air → Heard) → Bool → Try → Air → Heard
hear_one listen sent t a =
    let told = record a { header = false } in
    let rest = listen true told in
    if not t.connects
    then record { move = stay; air = a; end = unconnected }
    else if a.header && not t.header_sent
    then listen sent a
    else if a.header && not t.accepted
    then record { move = clear; air = a; end = refused }
    else if t.frames == 0
    then record { move = lead sent stay; air = told; end = finished }
    else record rest { move = lead sent rest.move }

-- One file on the air: it moves once, with its first frames.
unfoldable pub hear : List Try → Bool → Air → Heard
unfolding hear_one
hear [] sent a = record { move = stay; air = a; end = waiting }
hear (t ∷ ts) sent a = hear_one (hear ts) sent t (if t.connected then a else lost)

pub record Queue : Type 0 where
  pub files : List Text
  pub air : Air

abbrev pub dropped : List Text → List Text
dropped [] = []
dropped (f ∷ fs) = fs

-- A file can go on the air when it is readable and has the rate that the server knows, if it knows one.
abbrev pub fits : Option ℕ → ℕ → Bool
fits none rate = true
fits (some known) rate = known == rate

-- Behind the file: without a connection the session ends; else a fresh playlist replaces the queue.
abbrev pub renewed : Track → List Text → List Text
renewed t fs = if t.online then (elim t.fresh [ none ↦ fs | some new ↦ new ]) else fs

abbrev pub broadcast : Track → ℕ → Queue → Queue × Bool
broadcast t rate q =
    let heard = hear t.tries false (record { header = q.air.header; rate = some rate }) in
    (record { files = renewed t (moved heard.move q.files); air = heard.air }, t.online)

abbrev pub serve_with : Track → Option ℕ → Queue → Queue × Bool
serve_with t none q = (record q { files = dropped q.files }, true)
serve_with t (some rate) q =
    if fits q.air.rate rate
    then broadcast t rate q
    else (record q { files = dropped q.files }, true)

-- What becomes of the queue when its first file is served, and whether the session goes on.
unfoldable pub serve : Track → Queue → Queue × Bool
serve t q = serve_with t t.info q

-- The files that are served, in their order.
unfoldable pub served : List Track → Queue → List Text
unfolding serve
served [] q = []
served (t ∷ ts) q =
    let rest = served ts (serve t q).0 in
    elim q.files [ [] ↦ [] | f ∷ fs ↦ f ∷ (if (serve t q).1 then rest else []) ]
