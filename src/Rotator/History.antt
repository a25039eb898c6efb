-- ===== src/Rotator/History.antt =====
-- rotator/rotator_ctrl.cpp: the broadcast history, and the test of a track against it.
pub mod Spacing
use cproject.Base.{
  ℕ, suc, ◌+◌, Bool, true, false, ◌==◌, ltb, Option, none, some, List, [], ◌∷◌, length,
  if◌then◌else◌, Outcome, done, crash, ◌>>=◌,
}
use cproject.Base.Int.{ℤ, pos, leb_ℤ}
use cproject.Base.Text.{Text, codes, strcmp_eq}
use cproject.Base.Map.{insert}
use cproject.Rotator.Zend.{Zval, Zend, Entry, as_string}
use cproject.Rotator.Zend.{get_node_ptr_zval}
use cproject.Rotator.State.{Rules, History, Histories, Verdict, add, skip, descending}

-- `title_statistics_in_history`: `i` tracks are behind the walk. The verdict, and the weight of the
-- title.
pub title_from : ℕ → Text → ℤ → Histories → Verdict × ℕ
title_from i title track_limit [] = (add, 0)
title_from i title track_limit ((k, h) ∷ hs) =
    let rest = title_from (suc i) title track_limit hs in
    if strcmp_eq h.title title
    then (if leb_ℤ track_limit (pos i) then (add, h.statistics) else (skip, 0))
    else rest

pub title_statistics_in_history : Text → ℤ → Histories → Verdict × ℕ
unfolding title_from
title_statistics_in_history = title_from 0

-- The weight of the title against that of the folder: `m_statistics > m_folder_statistics` skips.
weigh : Verdict × ℕ → ℕ → Verdict
weigh (skip, stat) folder = skip
weigh (add, stat) folder = if ltb 0 stat then (if ltb folder stat then skip else add) else add

-- The walk of `find_record_in_history`; `all` is the whole history, `i` as above.
pub singer_from : ℕ → Histories → Text → Text → Rules → ℕ → Histories → Verdict
unfolding weigh title_statistics_in_history
singer_from i all singer title r folder [] = add
singer_from i all singer title r folder ((k, h) ∷ hs) =
    let rest = singer_from (suc i) all singer title r folder hs in
    if strcmp_eq h.singer singer
    then (if leb_ℤ r.singer_limit (pos i)
        then weigh (title_statistics_in_history title r.track_limit all) folder
        else skip)
    else rest

unfoldable pub find_record_in_history : Text → Text → Rules → ℕ → Histories → Verdict
unfolding singer_from
find_record_in_history singer title r folder all = singer_from 0 all singer title r folder all

-- `mHistory[mHistory.size()] = H`: the key of a new track is the number of tracks so far.
unfoldable pub append_history : History → Histories → Histories
append_history h hs = insert descending (length hs) h hs

-- `is_equal`; `strncmp` over the length of the second text.
prefix_eq : Text → Text → Bool
prefix_eq s [] = true
prefix_eq [] (b ∷ t) = b == 0
prefix_eq (a ∷ s) (b ∷ t) =
    let rest = prefix_eq s t in if a == b then (if a == 0 then true else rest) else false

unfoldable pub is_equal : Text → Text → Bool
unfolding prefix_eq
is_equal [] t = true
is_equal (a ∷ s) [] = true
is_equal (a ∷ s) (b ∷ t) = prefix_eq (a ∷ s) (b ∷ t)

module _ (z : Zend) where
  open z use {Table, entries, num_elements, str_find}

  -- The text behind a value that is not tested for IS_STRING: of another type it is not valid.
  string_of : Zval Table → Outcome Text
  string_of v = elim (as_string v) [ none ↦ crash | some s ↦ done s ]

  title_of : Zval Table → Option Text
  title_of (Zval.arr t) =
      if num_elements t == 0
      then none
      else elim (str_find t (codes "title")) [ none ↦ none | some v ↦ as_string v ]
  title_of _ = none

  count_equal : Text → Option Text → ℕ
  count_equal title none = 0
  count_equal title (some t) = if is_equal title t then 1 else 0

  -- `calc_statistics_in_history`: how many tracks of the history have a title that `is_equal`.
  calc_statistics : Text → List (Entry Table) → ℕ
  unfolding title_of count_equal
  calc_statistics title [] = 0
  calc_statistics title (e ∷ es) = count_equal title (title_of e.value) + calc_statistics title es

  -- One round of the loop of `search_history`.
  read_history : Table → List (Entry Table) → ℕ → Histories → Outcome Histories
  unfolding string_of calc_statistics
  read_history t all key hs =
      elim (if num_elements t == 0 then none else str_find t (codes "executor")) [
        | none ↦ done hs
        | some h_singer ↦ elim (str_find t (codes "title")) [
          | none ↦ done hs
          | some h_title ↦ do
            title ← string_of h_title
            singer ← string_of h_singer
            done (
                insert descending key
                  (record {
                    singer = singer;
                    title = title;
                    statistics = calc_statistics title all;
                  })
                  hs)
        ]
      ]

  read_entry : List (Entry Table) → Entry Table → Histories → Outcome Histories
  unfolding read_history
  read_entry all e hs = elim e.value [ Zval.arr t ↦ read_history t all e.index hs | _ ↦ done hs ]

  history_loop : List (Entry Table) → List (Entry Table) → Histories → Outcome Histories
  unfolding read_entry
  history_loop all [] hs = done hs
  history_loop all (e ∷ es) hs = read_entry all e hs >>= history_loop all es

  -- `search_history`, over the tracks that `mHistory` holds at the call.
  unfoldable pub search_history : Zval Table → Histories → Outcome Histories
  unfolding history_loop
  search_history input hs = elim (get_node_ptr_zval z (some input) (codes "history")) [
    | some (Zval.arr t) ↦ history_loop (entries t) (entries t) hs
    | _ ↦ done hs
  ]
