-- ===== src/Logger/ErrorMonitor/Spacing.antt =====
-- logger/errormonitor.cpp: how far apart the mails about one domain are.
use cproject.Base.{
  ℕ, ◌+◌, ◌≤◌, ◌≡◌, ◌≢◌, ◌⊎◌, inl, inr, ◌∙◌, sym, refl, false, List, [], ◌∷◌, ◌++◌, All, arith,
  Option, none, some, if-both, Bool-cases, leb, if◌then◌else◌,
}
use cproject.Base.Int.{ℤ}
use cproject.Base.Text.{Text, text_compare, text_compare_refl}
use cproject.Base.Map.{lookup, erase}
use cproject.Base.Map.Laws.{lookup-insert_self}
use cproject.Base.Map.Sorted.{
  IsSorted, text_compare-IsOrder, insert-IsSorted, erase-IsSorted, insert-only,
}
use cproject.Logger.ErrorMonitor.{
  Settings, DomInfo, Domains, count_error, make_room, entry_at, add_to_domain, ignored,
  on_add_error, reset_loop, exceeded_reset_timeout, Event, error, silence, Mail, posted, handle,
  monitor,
}
use cproject.Logger.ErrorMonitor.Quiet.{
  gap, Quiet, count_error_times, no_mail, make_room-tm, file_message-tm, later-Quiet, reset-Quiet,
  error-Quiet,
}

-- The time of an event.
abbrev pub time_of : Event → ℕ
time_of (error now code dm msg) = now
time_of (silence now) = now

-- The clock does not go back.
abbrev pub Timely : ℕ → List Event → Type 0
Timely now [] = Unit {0}
Timely now (e ∷ es) = (now ≤ time_of e) × Timely (time_of e) es

-- Two mails about one domain, the second one later in the list, are `g` apart.
abbrev pub Spaced : ℕ → List Mail → Type 0
Spaced g [] = Unit {0}
Spaced g (m ∷ ms) = All (λ (n : Mail). n.domain ≡ m.domain → m.at + g ≤ n.at) ms × Spaced g ms

module _ (s : Settings) where
  -- From a quiet state on, the mails about the domain wait for the gap.
  abbrev Waits : Text → ℕ → List Mail → Type 0
  Waits dm t ms = All (λ (m : Mail). m.domain ≡ dm → t + gap s ≤ m.at) ms

  monitor-Waits :
      (earlier : ℕ → ℕ) (dm : Text) (t before : ℕ) (es : List Event) (d : Domains)
      → Timely before es
      → Quiet s dm t before d
      → Waits dm t (monitor earlier s es d).1
  unfolding monitor handle
  monitor-Waits earlier dm t before [] d timely q = tt
  monitor-Waits earlier dm t before (error now code name msg ∷ es) d timely q =
      let r = on_add_error earlier s now code name msg d in
      let step = error-Quiet s dm t earlier before now code name msg d timely.0 q in
      posted-Waits r.1 step.1 (monitor earlier s es r.0).1
        (monitor-Waits earlier dm t now es r.0 timely.1 step.0)
    where
      posted-Waits :
          (mail : Option (List Text))
          → (name ≡ dm → (mail ≡ none) ⊎ (t + gap s ≤ now))
          → (ms : List Mail) → Waits dm t ms
          → Waits dm t (posted name now mail ++ ms)
      posted-Waits none h ms w = w
      posted-Waits (some box) h ms w = (λ same. elim (h same) [ inl e ↦ cc | inr over ↦ over ], w)
  monitor-Waits earlier dm t before (silence now ∷ es) d timely q =
      monitor-Waits earlier dm t now es (exceeded_reset_timeout s now d) timely.1
        (reset-Quiet s dm t now d (later-Quiet s dm t before now d timely.0 q))

  pub some-ne-none : {box : List Text} → some box ≢ none
  some-ne-none e = cc

  -- A mail is noted with its time.
  pub mailed-tm :
      (earlier : ℕ → ℕ) (now : ℕ) (msg : Text) (known : Option DomInfo) (box : List Text)
      → (add_to_domain earlier s now msg known).1 ≡ some box
      → (add_to_domain earlier s now msg known).0.tm ≡ now
  unfolding add_to_domain entry_at
  mailed-tm earlier now msg none box e = absurd (
      some-ne-none
        (sym e ∙ no_mail s msg false (make_room s msg (entry_at earlier s now none).0) refl))
  mailed-tm earlier now msg (some info) box e =
      let counted = count_error s now info in
      file_message-tm s msg counted.1 (make_room s msg counted.0)
      ∙ (make_room-tm s msg counted.0 ∙ elim (Bool-cases counted.1) [
        | inl yes_mail ↦ (count_error_times s now info).2 yes_mail
        | inr not_mail ↦
            absurd
              (some-ne-none (sym e ∙ no_mail s msg counted.1 (make_room s msg counted.0) not_mail))
      ])

  on_add_error-IsSorted :
      (earlier : ℕ → ℕ) (now : ℕ) (code : ℤ) (name msg : Text) (d : Domains)
      → IsSorted text_compare d
      → IsSorted text_compare (on_add_error earlier s now code name msg d).0
  unfolding on_add_error
  on_add_error-IsSorted earlier now code name msg d h =
      let r = add_to_domain earlier s now msg (lookup text_compare name d) in
      if-both (λ (r : Domains × Option (List Text)). IsSorted text_compare r.0) (ignored s code) h
        (insert-IsSorted text_compare text_compare-IsOrder name r.0 d h)

  reset_loop-IsSorted :
      (now : ℕ) (rest d : Domains)
      → IsSorted text_compare d
      → IsSorted text_compare (reset_loop s now rest d)
  unfolding reset_loop
  reset_loop-IsSorted now [] d h = h
  reset_loop-IsSorted now ((name, info) ∷ rest) d h =
      reset_loop-IsSorted now rest
        (if leb (info.tm + s.reset_timeout) now then erase text_compare name d else d)
        (if-both (IsSorted text_compare) (leb (info.tm + s.reset_timeout) now)
          (erase-IsSorted text_compare text_compare-IsOrder name d h) h)

  -- Behind a mail its domain is quiet.
  mail-Quiet :
      (earlier : ℕ → ℕ) (now : ℕ) (code : ℤ) (name msg : Text) (d : Domains) (box : List Text)
      → IsSorted text_compare d
      → (on_add_error earlier s now code name msg d).1 ≡ some box
      → Quiet s name now now (on_add_error earlier s now code name msg d).0
  unfolding on_add_error
  mail-Quiet earlier now code name msg d box sorted =
      let r = add_to_domain earlier s now msg (lookup text_compare name d) in
      if-both (λ (x : Domains × Option (List Text)). x.1 ≡ some box → Quiet s name now now x.0)
        (ignored s code) (λ e. absurd (some-ne-none (sym e)))
        (λ e.
          let at = mailed-tm earlier now msg (lookup text_compare name d) box e in
          inl (
            (r.0, lookup-insert_self text_compare name r.0 d (text_compare_refl name)),
            insert-only text_compare text_compare-IsOrder (λ (i : DomInfo). now ≤ i.tm) name r.0 d
                sorted (omega arith),
          ))

  -- However the errors and the silences come, as long as the clock does not go back: two mails about one
  -- domain are at least the shorter of the email timeout and the reset timeout apart.
  pub monitor-Spaced :
      (earlier : ℕ → ℕ) (before : ℕ) (es : List Event) (d : Domains)
      → IsSorted text_compare d
      → Timely before es
      → Spaced (gap s) (monitor earlier s es d).1
  unfolding monitor handle
  monitor-Spaced earlier before [] d sorted timely = tt
  monitor-Spaced earlier before (error now code name msg ∷ es) d sorted timely =
      let r = on_add_error earlier s now code name msg d in
      posted-Spaced (monitor earlier s es r.0).1 r.1
        (λ box e.
          monitor-Waits earlier name now now es r.0 timely.1
            (mail-Quiet earlier now code name msg d box sorted e))
        (monitor-Spaced earlier now es r.0
          (on_add_error-IsSorted earlier now code name msg d sorted) timely.1)
    where
      posted-Spaced :
          (ms : List Mail) (mail : Option (List Text))
          → ((box : List Text) → mail ≡ some box → Waits name now ms)
          → Spaced (gap s) ms
          → Spaced (gap s) (posted name now mail ++ ms)
      posted-Spaced ms none waits rest = rest
      posted-Spaced ms (some box) waits rest = (waits box refl, rest)
  monitor-Spaced earlier before (silence now ∷ es) d sorted timely =
      monitor-Spaced earlier now es (exceeded_reset_timeout s now d)
        (unfold exceeded_reset_timeout in reset_loop-IsSorted now d d sorted) timely.1
