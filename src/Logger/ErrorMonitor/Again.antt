-- ===== src/Logger/ErrorMonitor/Again.antt =====
-- logger/errormonitor.cpp: the first error behind a mail.
use cproject.Base.{
  ℕ, ◌+◌, ◌≤◌, ◌≡◌, ◌∙◌, refl, Bool, true, false, List, [], ◌∷◌, arith, Option, none, some,
  if-known,
}
use cproject.Base.Int.{ℤ}
use cproject.Base.Text.{Text, text_compare, text_compare_refl}
use cproject.Base.Map.{lookup}
use cproject.Base.Map.Laws.{lookup-insert_self}
use cproject.Logger.ErrorMonitor.{
  Settings, DomInfo, Domains, count_error, make_room, drop_first, file_message, entry_at, ignored,
  add_to_domain, on_add_error,
}

-- What a domain is left with by a mail at `now`.
record IsCleared (now : ℕ) (info : DomInfo) : Type 0 where
  counter : info.counter ≡ 0
  overflow : info.overflow ≡ false
  size : info.msg_box_size ≡ 0
  box : info.msg_box ≡ []
  tm : info.tm ≡ now

module _ (earlier : ℕ → ℕ) (s : Settings) where
  count_error-mailed :
      (now : ℕ) (info : DomInfo)
      → (count_error s now info).1 ≡ true
      → ((count_error s now info).0.overflow ≡ false) × ((count_error s now info).0.tm ≡ now)
  unfolding count_error
  count_error-mailed now info e = (ground arith, ground arith)

  drop_first-flags :
      (box : List Text) (info : DomInfo)
      → ((drop_first box info).overflow ≡ info.overflow) × ((drop_first box info).tm ≡ info.tm)
  unfolding drop_first
  drop_first-flags [] info = (refl, refl)
  drop_first-flags (x ∷ box) info = (refl, refl)

  make_room-flags :
      (msg : Text) (info : DomInfo)
      → ((make_room s msg info).overflow ≡ info.overflow) × ((make_room s msg info).tm ≡ info.tm)
  unfolding make_room
  make_room-flags msg info = ground (arith, drop_first-flags info.msg_box info)

  file_message-IsCleared :
      (now : ℕ) (msg : Text) (mail : Bool) (info : DomInfo) (box : List Text)
      → (mail ≡ true → (info.overflow ≡ false) × (info.tm ≡ now))
      → (file_message msg mail info).1 ≡ some box
      → IsCleared now (file_message msg mail info).0
  unfolding file_message
  file_message-IsCleared now msg true info box h e = record {
    counter = refl;
    overflow = (h refl).0;
    size = refl;
    box = refl;
    tm = (h refl).1;
  }
  file_message-IsCleared now msg false info box h e = absurd (cc)

  entry_at-mailed :
      (now : ℕ) (known : Option DomInfo)
      → (entry_at earlier s now known).1 ≡ true
      → ((entry_at earlier s now known).0.overflow ≡ false)
        × ((entry_at earlier s now known).0.tm ≡ now)
  unfolding entry_at
  entry_at-mailed now none e = absurd (cc)
  entry_at-mailed now (some info) e = count_error-mailed now info e

  room-mailed :
      (now : ℕ) (msg : Text) (known : Option DomInfo)
      → let entry = entry_at earlier s now known in
        entry.1 ≡ true
        → ((make_room s msg entry.0).overflow ≡ false) × ((make_room s msg entry.0).tm ≡ now)
  room-mailed now msg known e =
      let entry = entry_at earlier s now known in
      let (overflow, tm) = make_room-flags msg entry.0 in
      let (overflow', tm') = entry_at-mailed now known e in (overflow ∙ overflow', tm ∙ tm')

  add-IsCleared :
      (now : ℕ) (msg : Text) (known : Option DomInfo) (box : List Text)
      → (add_to_domain earlier s now msg known).1 ≡ some box
      → IsCleared now (add_to_domain earlier s now msg known).0
  unfolding add_to_domain
  add-IsCleared now msg known box e =
      let entry = entry_at earlier s now known in
      file_message-IsCleared now msg entry.1 (make_room s msg entry.0) box
        (room-mailed now msg known) e

  cleared-mails :
      (now now' : ℕ) (msg : Text) (info : DomInfo)
      → IsCleared now info
      → now + s.email_timeout ≤ now'
      → (add_to_domain earlier s now' msg (some info)).1 ≡ some (msg ∷ [])
  unfolding add_to_domain entry_at count_error make_room file_message drop_first
  cleared-mails now now' msg info c late = ground arith

  -- Once a mail about a domain is sent, the very next error of that domain that is not ignored is
  -- mailed on its own, if it comes when the email timeout is over: whatever the number of errors that is
  -- set, which the first mail had to wait for.
  pub on_add_error-again :
      (now now' : ℕ) (code code' : ℤ) (name msg msg' : Text) (d : Domains) (box : List Text)
      → (on_add_error earlier s now code name msg d).1 ≡ some box
      → now + s.email_timeout ≤ now'
      → ignored s code' ≡ false
      → (on_add_error earlier s now' code' name msg'
          (on_add_error earlier s now code name msg d).0).1
        ≡ some (msg' ∷ [])
  unfolding on_add_error
  on_add_error-again now now' code code' name msg msg' d box sent late counts =
      let r = add_to_domain earlier s now msg (lookup text_compare name d) in
      if-known
        (λ (x : Domains × Option (List Text)).
          x.1 ≡ some box → (on_add_error earlier s now' code' name msg' x.0).1 ≡ some (msg' ∷ []))
        (ignored s code) (λ _ e. absurd (cc))
        (λ _ e.
          let cleared = add-IsCleared now msg (lookup text_compare name d) box e in
          let found = lookup-insert_self text_compare name r.0 d (text_compare_refl name) in
          rw (counts, found) (cleared-mails now now' msg' r.0 cleared late))
        sent
