-- ===== src/Logger/ErrorMonitor/Sizes.antt =====
-- logger/errormonitor.cpp: what `msg_box_size` counts.
use cproject.Base.{
  ℕ, ◌+◌, ◌≡◌, ◌∙◌, ap, refl, Bool, true, false, List, [], ◌∷◌, ◌++◌, length, All, arith, leb,
  if-both, Option, none, some, if◌then◌else◌,
}
use cproject.Base.Int.{ℤ}
use cproject.Base.Text.{Text, text_compare}
use cproject.Base.Map.{lookup, erase}
use cproject.Base.Map.Laws.{lookup-All, insert-All, erase-All}
use cproject.Logger.ErrorMonitor.{
  Settings, DomInfo, Domains, count_error, drop_first, make_room, file_message, entry_at, ignored,
  add_to_domain, on_add_error, reset_loop, exceeded_reset_timeout, Event, error, silence, handle,
  monitor,
}

abbrev pub total : List Text → ℕ
total [] = 0
total (x ∷ xs) = length x + total xs

total-append : (xs ys : List Text) → total (xs ++ ys) ≡ total xs + total ys
total-append [] ys = omega arith
total-append (x ∷ xs) ys = omega (arith, total-append xs ys)

-- The size stands for the bytes of the messages in the box.
abbrev pub Sized : DomInfo → Type 0
Sized info = info.msg_box_size ≡ total info.msg_box

drop_first-Sized :
    (box : List Text) (info : DomInfo)
    → info.msg_box_size ≡ total info.msg_box
    → info.msg_box ≡ box
    → Sized (drop_first box info)
unfolding drop_first
drop_first-Sized [] info h e = h
drop_first-Sized (x ∷ box) info h e = omega (arith, h ∙ ap total e)

make_room-Sized :
    (s : Settings) (msg : Text) (info : DomInfo) → Sized info → Sized (make_room s msg info)
unfolding make_room
make_room-Sized s msg info h = ground (arith, drop_first-Sized info.msg_box info h refl)

file_message-Sized :
    (msg : Text) (mail : Bool) (info : DomInfo) → Sized info → Sized (file_message msg mail info).0
unfolding file_message
file_message-Sized msg true info h = refl
file_message-Sized msg false info h = omega (arith, total-append info.msg_box (msg ∷ []))

count_error-Sized :
    (s : Settings) (now : ℕ) (info : DomInfo) → Sized info → Sized (count_error s now info).0
unfolding count_error
count_error-Sized s now info h = ground arith

module _ (earlier : ℕ → ℕ) (s : Settings) where
  entry_at-Sized :
      (now : ℕ) (known : Option DomInfo)
      → ((info : DomInfo) → known ≡ some info → Sized info)
      → Sized (entry_at earlier s now known).0
  unfolding entry_at
  entry_at-Sized now none h = refl
  entry_at-Sized now (some info) h = count_error-Sized s now info (h info refl)

  -- Every domain's size is that of its box.
  abbrev pub AllSized : Domains → Type 0
  AllSized d = All (λ (e : Text × DomInfo). Sized e.1) d

  on_add_error-AllSized :
      (now : ℕ) (code : ℤ) (dm msg : Text) (d : Domains)
      → AllSized d
      → AllSized (on_add_error earlier s now code dm msg d).0
  unfolding on_add_error add_to_domain
  on_add_error-AllSized now code dm msg d h =
      let known = lookup text_compare dm d in
      let entry = entry_at earlier s now known in
      let sized : Sized (file_message msg entry.1 (make_room s msg entry.0)).0 =
        file_message-Sized msg entry.1 (make_room s msg entry.0) (
          make_room-Sized s msg entry.0
            (entry_at-Sized now known (λ info. lookup-All Sized text_compare dm d info h))) in
      if-both (λ (r : Domains × Option (List Text)). AllSized r.0) (ignored s code) h
        (insert-All Sized text_compare dm (file_message msg entry.1 (make_room s msg entry.0)).0 d h
          sized)

  reset_loop-AllSized :
      (now : ℕ) (rest d : Domains) → AllSized d → AllSized (reset_loop s now rest d)
  unfolding reset_loop
  reset_loop-AllSized now [] d h = h
  reset_loop-AllSized now ((name, info) ∷ rest) d h =
      reset_loop-AllSized now rest
        (if leb (info.tm + s.reset_timeout) now then erase text_compare name d else d)
        (if-both AllSized (leb (info.tm + s.reset_timeout) now)
          (erase-All (λ (e : Text × DomInfo). Sized e.1) text_compare name d h) h)

  -- Through every sequence of errors and silences, from domains that are sized: each domain's
  -- `msg_box_size` is the number of bytes of the messages in its box.
  pub monitor-AllSized :
      (es : List Event) (d : Domains) → AllSized d → AllSized (monitor earlier s es d).0
  unfolding monitor handle exceeded_reset_timeout
  monitor-AllSized [] d h = h
  monitor-AllSized (error now code dm msg ∷ es) d h =
      monitor-AllSized es (on_add_error earlier s now code dm msg d).0
        (on_add_error-AllSized now code dm msg d h)
  monitor-AllSized (silence now ∷ es) d h =
      monitor-AllSized es (reset_loop s now d d) (reset_loop-AllSized now d d h)
