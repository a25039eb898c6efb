-- ===== src/Logger/ErrorMonitor/Quiet.antt =====
-- logger/errormonitor.cpp: behind a mail a domain is quiet.
use Prim.Native.Nat.{Ordering, min}
use cproject.Base.{
  ℕ, ◌+◌, ◌≤◌, ◌≡◌, ◌≢◌, ◌⊎◌, inl, inr, ◌∙◌, sym, refl, subst, Bool, true, false, List, [], ◌∷◌,
  All, arith, Option, none, some, if-known, if-both, Bool-cases, leb, if◌then◌else◌,
}
use cproject.Base.Int.{ℤ}
use cproject.Base.Text.{Text, text_compare, text_compare_eq, text_compare_refl}
use cproject.Base.Map.{lookup, insert, erase}
use cproject.Base.Map.Laws.{
  lookup-insert_self, lookup-insert_ne, lookup-erase_ne, erase-All, insert-entries, lookup-entries,
}
use cproject.Logger.ErrorMonitor.{
  Settings, DomInfo, Domains, count_error, make_room, file_message, entry_at, drop_first,
  add_to_domain, ignored, on_add_error, reset_loop, exceeded_reset_timeout,
}

module _ (s : Settings) where
  abbrev pub gap : ℕ
  gap = min s.email_timeout s.reset_timeout

  -- A mail at `now` waits for the email timeout, and is noted in `tm`; else `tm` stays.
  pub count_error_times :
      (now : ℕ) (info : DomInfo)
      → let (info', mail) = count_error s now info in
        (mail ≡ true → info.tm + s.email_timeout ≤ now)
        × (mail ≡ false → info'.tm ≡ info.tm)
        × (mail ≡ true → info'.tm ≡ now)
  unfolding count_error
  count_error_times now info = (λ e. ground arith, λ e. ground arith, λ e. ground arith)

  pub no_mail :
      (msg : Text) (mail : Bool) (info : DomInfo)
      → mail ≡ false
      → (file_message msg mail info).1 ≡ none
  unfolding file_message
  no_mail msg mail info e = rw e

  drop_first-tm : (box : List Text) (info : DomInfo) → (drop_first box info).tm ≡ info.tm
  unfolding drop_first
  drop_first-tm [] info = refl
  drop_first-tm (x ∷ box) info = refl

  pub make_room-tm : (msg : Text) (info : DomInfo) → (make_room s msg info).tm ≡ info.tm
  unfolding make_room
  make_room-tm msg info = ground (arith, drop_first-tm info.msg_box info)

  pub file_message-tm :
      (msg : Text) (mail : Bool) (info : DomInfo) → (file_message msg mail info).0.tm ≡ info.tm
  unfolding file_message
  file_message-tm msg true info = refl
  file_message-tm msg false info = refl

  same_or_not : (j k : Text) → (j ≡ k) ⊎ (text_compare j k ≢ Ordering.eq)
  same_or_not j k = by_order (text_compare j k) refl
    where
      by_order : (x : Ordering) → text_compare j k ≡ x → (j ≡ k) ⊎ (text_compare j k ≢ Ordering.eq)
      by_order Ordering.eq e = inl (text_compare_eq j k e)
      by_order Ordering.lt e = inr (λ f. cc)
      by_order Ordering.gt e = inr (λ f. cc)

  -- Since the time `t` the domain `dm` is on record, and was not mailed before; or the gap is over.
  abbrev pub After : Text → ℕ → Text × DomInfo → Type 0
  After dm t e = e.0 ≡ dm → t ≤ e.1.tm

  abbrev pub Quiet : Text → ℕ → ℕ → Domains → Type 0
  Quiet dm t now d =
      (((info : DomInfo) × (lookup text_compare dm d ≡ some info)) × All (After dm t) d)
      ⊎ (t + gap ≤ now)

  module _ (dm : Text) (t : ℕ) where
    -- One removal, of an entry that is found expired.
    erase-Quiet :
        (now : ℕ) (name : Text) (info : DomInfo) (d : Domains)
        → After dm t (name, info)
        → info.tm + s.reset_timeout ≤ now
        → Quiet dm t now d
        → Quiet dm t now (erase text_compare name d)
    erase-Quiet now name info d after expired (inr over) = inr over
    erase-Quiet now name info d after expired (inl ((found, e), all)) = elim (same_or_not dm name) [
      | inl eq ↦ let late = after (sym eq) in inr (omega arith)
      | inr ne ↦ inl (
        (found, lookup-erase_ne text_compare text_compare_eq dm name d ne ∙ e),
        erase-All (After dm t) text_compare name d all,
      )
    ]

    reset_loop-Quiet :
        (now : ℕ) (rest d : Domains)
        → All (After dm t) rest
        → Quiet dm t now d
        → Quiet dm t now (reset_loop s now rest d)
    unfolding reset_loop
    reset_loop-Quiet now [] d all q = q
    reset_loop-Quiet now ((name, info) ∷ rest) d all q =
        reset_loop-Quiet now rest
          (if leb (info.tm + s.reset_timeout) now then erase text_compare name d else d) all.1
          (if-known (Quiet dm t now) (leb (info.tm + s.reset_timeout) now)
            (λ e. erase-Quiet now name info d all.0 (ground arith) q) (λ e. q))

    pub later-Quiet :
        (before now : ℕ) (d : Domains) → before ≤ now → Quiet dm t before d → Quiet dm t now d
    later-Quiet before now d le (inl known) = inl known
    later-Quiet before now d le (inr over) = inr (omega arith)

    pub reset-Quiet :
        (now : ℕ) (d : Domains) → Quiet dm t now d → Quiet dm t now (exceeded_reset_timeout s now d)
    unfolding exceeded_reset_timeout
    reset-Quiet now d (inl (known, all)) = reset_loop-Quiet now d d all (inl (known, all))
    reset-Quiet now d (inr over) = over-Quiet d d
      where
        over-Quiet : (rest d : Domains) → Quiet dm t now (reset_loop s now rest d)
        over-Quiet rest d = inr over

    -- What a domain on record gets for an error: no mail before the gap is over.
    add-known :
        (earlier : ℕ → ℕ) (now : ℕ) (msg : Text) (info : DomInfo)
        → t ≤ info.tm
        → let (info', mail) = add_to_domain earlier s now msg (some info) in
          ((mail ≡ none) × (t ≤ info'.tm)) ⊎ (t + gap ≤ now)
    unfolding add_to_domain entry_at
    add-known earlier now msg info le =
        let counted = count_error s now info in
        let times = count_error_times now info in
        let kept : (file_message msg counted.1 (make_room s msg counted.0)).0.tm ≡ counted.0.tm =
          file_message-tm msg counted.1 (make_room s msg counted.0) ∙ make_room-tm msg counted.0 in
        elim (Bool-cases counted.1) [
          | inl e ↦ let due = times.0 e in inr (omega arith)
          | inr e ↦
              let same = times.1 e in
              inl (no_mail msg counted.1 (make_room s msg counted.0) e, omega arith)
        ]

    -- The step for an error: no mail about `dm` before the gap is over.
    abbrev Step : ℕ → Text → Domains × Option (List Text) → Type 0
    Step now name r = Quiet dm t now r.0 × (name ≡ dm → (r.1 ≡ none) ⊎ (t + gap ≤ now))

    module _ (earlier : ℕ → ℕ) (now : ℕ) (msg : Text) (d : Domains) (all : All (After dm t) d) where
      same_domain :
          (found : DomInfo)
          → lookup text_compare dm d ≡ some found
          → let r = add_to_domain earlier s now msg (lookup text_compare dm d) in
            Step now dm (insert text_compare dm r.0 d, r.1)
      same_domain found e =
          let r = add_to_domain earlier s now msg (lookup text_compare dm d) in
          let fact : ((r.1 ≡ none) × (t ≤ r.0.tm)) ⊎ (t + gap ≤ now) =
            subst
              (λ k.
                (((add_to_domain earlier s now msg k).1 ≡ none)
                  × (t ≤ (add_to_domain earlier s now msg k).0.tm))
                ⊎ (t + gap ≤ now))
              (sym e)
              (add-known earlier now msg found
                (lookup-entries (After dm t) text_compare text_compare_eq dm d found all e refl)) in
          elim fact [
            | inl (none_sent, le) ↦ (
              inl (
                (r.0, lookup-insert_self text_compare dm r.0 d (text_compare_refl dm)),
                insert-entries (After dm t) text_compare dm r.0 d all (λ _. le),
              ),
              λ _. inl none_sent,
            )
            | inr over ↦ (inr over, λ _. inr over)
          ]

      other_domain :
          (name : Text) (r : DomInfo × Option (List Text)) (found : DomInfo)
          → lookup text_compare dm d ≡ some found
          → text_compare dm name ≢ Ordering.eq
          → Step now name (insert text_compare name r.0 d, r.1)
      other_domain name r found e ne =
          let differ : name ≢ dm = λ same.
            ne (subst (λ k. text_compare dm k ≡ Ordering.eq) (sym same) (text_compare_refl dm)) in
          (
            inl (
              (found, lookup-insert_ne text_compare text_compare_eq dm name r.0 d ne ∙ e),
              insert-entries (After dm t) text_compare name r.0 d all
                  (λ same. absurd (differ same)),
            ),
            λ same. absurd (differ same),
          )

      error-Step :
          (code : ℤ) (name : Text) (found : DomInfo)
          → lookup text_compare dm d ≡ some found
          → Step now name (on_add_error earlier s now code name msg d)
      unfolding on_add_error
      error-Step code name found e =
          if-both (Step now name) (ignored s code) (inl ((found, e), all), λ _. inl refl)
            (elim (same_or_not dm name) [
              | inl same ↦
                  subst
                    (λ k.
                      let r = add_to_domain earlier s now msg (lookup text_compare k d) in
                      Step now k (insert text_compare k r.0 d, r.1))
                    same (same_domain found e)
              | inr ne ↦
                  other_domain name (add_to_domain earlier s now msg (lookup text_compare name d))
                    found e ne
            ])

    pub error-Quiet :
        (earlier : ℕ → ℕ) (before now : ℕ) (code : ℤ) (name msg : Text) (d : Domains)
        → before ≤ now
        → Quiet dm t before d
        → Step now name (on_add_error earlier s now code name msg d)
    error-Quiet earlier before now code name msg d le (inr over) =
        (inr (omega arith), λ _. inr (omega arith))
    error-Quiet earlier before now code name msg d le (inl ((found, e), all)) =
        error-Step earlier now msg d all code name found e
