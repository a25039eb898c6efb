-- ===== src/Rotator/History/Spacing.antt =====
-- What a verdict of rotator/rotator_ctrl.cpp's history test says of the tracks before.
use cproject.Base.{
  ℕ, zero, suc, ◌+◌, ◌≡◌, refl, inl, inr, Bool, true, ltb, Option, none, some, [], ◌∷◌, length,
  get_elem?, if◌then◌else◌, arith, Bool-cases,
}
use cproject.Base.Int.{ℤ, pos, leb_ℤ, ◌≤ℤ◌}
use cproject.Base.Text.{Text, strcmp_eq}
use cproject.Base.Map.{insert}
use cproject.Rotator.State.{Rules, History, Histories, Verdict, add, skip}
use cproject.Rotator.History.{
  title_from, title_statistics_in_history, weigh, singer_from, find_record_in_history,
  append_history,
}

abbrev pub one_later : Option (ℕ × History) → Option (ℕ × History)
one_later none = none
one_later (some (j, h)) = some (suc j, h)

-- The newest track that passes `p`, and how many are newer.
pub position : (History → Bool) → Histories → Option (ℕ × History)
position p [] = none
position p ((k, h) ∷ hs) = let rest = one_later (position p hs) in if p h then some (0, h) else rest

-- What the two rules and the weight say of the newest track with the title.
pub title_verdict : ℤ → ℕ → Option (ℕ × History) → Verdict
title_verdict limit folder none = add
title_verdict limit folder (some (j, h)) =
    if leb_ℤ limit (pos j)
    then (if ltb 0 h.statistics then (if ltb folder h.statistics then skip else add) else add)
    else skip

abbrev pub history_verdict : Rules → ℕ → Option (ℕ × History) → Option (ℕ × History) → Verdict
history_verdict r folder none by_title = add
history_verdict r folder (some (j, h)) by_title =
    if leb_ℤ r.singer_limit (pos j) then title_verdict r.track_limit folder by_title else skip

abbrev shifted : ℕ → Option (ℕ × History) → Option (ℕ × History)
shifted i none = none
shifted i (some (j, h)) = some (i + j, h)

shifted-suc : (i : ℕ) (o : Option (ℕ × History)) → shifted i (one_later o) ≡ shifted (suc i) o
shifted-suc i none = refl
shifted-suc i (some (j, g)) = ground arith

shifted-zero : (o : Option (ℕ × History)) → shifted 0 o ≡ o
shifted-zero none = refl
shifted-zero (some (j, g)) = ground arith

title_from-position :
    (i : ℕ) (title : Text) (limit : ℤ) (folder : ℕ) (hs : Histories)
    → weigh (title_from i title limit hs) folder
      ≡ title_verdict limit folder (shifted i (position (λ h. strcmp_eq h.title title) hs))
unfolding title_from weigh position title_verdict
title_from-position i title limit folder [] = refl
title_from-position i title limit folder ((k, h) ∷ hs) =
    elim (Bool-cases (strcmp_eq h.title title)) [
      | inl e ↦ rw (e, title_from, position) (ground arith)
      | inr e ↦
          rw (e, shifted-suc i (position (λ h. strcmp_eq h.title title) hs))
            (title_from-position (suc i) title limit folder hs)
    ]

singer_from-position :
    (i : ℕ) (all : Histories) (singer title : Text) (r : Rules) (folder : ℕ) (hs : Histories)
    → singer_from i all singer title r folder hs
      ≡ history_verdict r folder
          (shifted i (position (λ h. strcmp_eq h.singer singer) hs))
          (position (λ h. strcmp_eq h.title title) all)
unfolding singer_from position title_statistics_in_history
singer_from-position i all singer title r folder [] = refl
singer_from-position i all singer title r folder ((k, h) ∷ hs) =
    elim (Bool-cases (strcmp_eq h.singer singer)) [
      | inl e ↦
          rw
            (
              e,
              title_from-position 0 title r.track_limit folder all,
              shifted-zero (position (λ h. strcmp_eq h.title title) all),
            )
            (ground arith)
      | inr e ↦
          rw (e, shifted-suc i (position (λ h. strcmp_eq h.singer singer) hs))
            (singer_from-position (suc i) all singer title r folder hs)
    ]

-- The verdict on a track depends on the newest track of its singer and the newest one of its title
-- alone: with no track of the singer it is added; within the singer's limit, or within the title's,
-- it is skipped; past both it is skipped only if the title's weight is above the folder's.
pub find_record_in_history_lem :
    (singer title : Text) (r : Rules) (folder : ℕ) (hs : Histories)
    → find_record_in_history singer title r folder hs
      ≡ history_verdict r folder
          (position (λ h. strcmp_eq h.singer singer) hs)
          (position (λ h. strcmp_eq h.title title) hs)
unfolding find_record_in_history
find_record_in_history_lem singer title r folder hs =
    rw (← shifted-zero (position (λ h. strcmp_eq h.singer singer) hs))
      (singer_from-position 0 hs singer title r folder hs)

-- A track keeps the rules behind a history: every track of its singer is at least the singer's limit
-- of tracks back, and if it has the same title too, at least the title's.
abbrev pub Apart : Rules → History → Histories → Type 0
Apart r h hs =
    (j k : ℕ) (g : History)
    → get_elem? hs j ≡ some (k, g)
    → strcmp_eq g.singer h.singer ≡ true
    → (r.singer_limit ≤ℤ pos j) × (strcmp_eq g.title h.title ≡ true → r.track_limit ≤ℤ pos j)

title_far :
    (i : ℕ) (title : Text) (limit : ℤ) (hs : Histories) (j k : ℕ) (g : History)
    → (title_from i title limit hs).0 ≡ add
    → get_elem? hs j ≡ some (k, g)
    → strcmp_eq g.title title ≡ true
    → limit ≤ℤ pos (i + j)
unfolding title_from
title_far i title limit [] j k g v e m = cc
title_far i title limit ((k', h) ∷ hs) zero k g v e m = ground arith
title_far i title limit ((k', h) ∷ hs) (suc j) k g v e m =
    ground (arith, title_far (suc i) title limit hs j k g)

singer_far :
    (i : ℕ) (all : Histories) (singer title : Text) (r : Rules) (folder : ℕ) (hs : Histories)
    (j k : ℕ) (g : History)
    → singer_from i all singer title r folder hs ≡ add
    → get_elem? hs j ≡ some (k, g)
    → strcmp_eq g.singer singer ≡ true
    → (r.singer_limit ≤ℤ pos (i + j))
      × ((title_statistics_in_history title r.track_limit all).0 ≡ add)
unfolding singer_from weigh
singer_far i all singer title r folder [] j k g v e m = cc
singer_far i all singer title r folder ((k', h) ∷ hs) zero k g v e m = ground arith
singer_far i all singer title r folder ((k', h) ∷ hs) (suc j) k g v e m =
    ground (arith, singer_far (suc i) all singer title r folder hs j k g)

-- A track that is added keeps the rules.
pub find_record_in_history-Apart :
    (h : History) (r : Rules) (folder : ℕ) (hs : Histories)
    → find_record_in_history h.singer h.title r folder hs ≡ add
    → Apart r h hs
unfolding find_record_in_history title_statistics_in_history
find_record_in_history-Apart h r folder hs v j k g e m =
    let (far, title) = singer_far 0 hs h.singer h.title r folder hs j k g v e m in
    (omega (arith, far), λ t. omega (arith, title_far 0 h.title r.track_limit hs j k g title e t))

-- The keys are those of a list that PHP appended to: 0, 1, 2 … with none left out.
abbrev pub IsDense : Histories → Type 0
IsDense [] = Unit {0}
IsDense ((k, h) ∷ hs) = (k ≡ length hs) × IsDense hs

-- Behind such a history the new track becomes the newest one.
pub append_history-IsDense :
    (h : History) (hs : Histories) → IsDense hs → append_history h hs ≡ (length hs, h) ∷ hs
unfolding append_history insert
append_history-IsDense h [] d = refl
append_history-IsDense h ((k, g) ∷ hs) d = ground arith
