-- ===== src/Rotator/Playlist.antt =====
-- rotator/rotator_ctrl.cpp: building a playlist, from the constructor to `create_playlist`.
pub mod Spacing
pub mod Init
pub mod Termination
use Prim.Native.Nat.{compare, bit_or}
use cproject.Base.{
  ℕ, zero, suc, ◌+◌, Bool, true, false, not, ◌&&◌, ◌||◌, ◌==◌, ltb, Option, none, some, List, [],
  ◌∷◌, length, if◌then◌else◌, Outcome, done, crash, stuck, ◌>>=◌,
}
use cproject.Base.Int.{ℤ, pos, leb_ℤ, ltb_ℤ}
use cproject.Base.Text.{Text}
use cproject.Base.Map.{upper_bound, begin, is_some}
use cproject.Rotator.Zend.{Zval, Zend, array_size, hash_of}
use cproject.Rotator.Timer.{Timer, Clock, new_timer, clear_playlist_duration, is_24hours_completed}
use cproject.Rotator.State.{Folder, Rules, Ctrl, empty_error, executor_error, track_error}
use cproject.Rotator.State.{input_array_error}
use cproject.Rotator.Rules.{search_rules, common_rules}
use cproject.Rotator.History.{search_history}
use cproject.Rotator.Order.{search_order, search_schedule, create_schedule_order}
use cproject.Rotator.Folders.{search_folders, search_next_hash_index, global_analize}

-- How `analise_folders_by_order` goes on: at the entry of the order that is next, or not at all.
pub data Next : Type 0 where
  go : Option (ℕ × Text) → Next
  halt : Next

module _ {T : Type 0} where
  -- `playlist_construction_completed`
  unfoldable pub playlist_construction_completed : Ctrl T → Bool
  playlist_construction_completed c =
      ltb_ℤ (pos 0) c.max_tracks && leb_ℤ c.max_tracks (pos (length c.playlist))
      || ((c.m_schedule || is_some c.general_duration) && is_24hours_completed c.timer)

  give_up : ℕ → Ctrl T → Ctrl T
  give_up size c =
      let e = if leb_ℤ (pos size) c.rules.singer_limit then executor_error else c.error in
      record c { error = if leb_ℤ (pos size) c.rules.track_limit then bit_or e track_error else e }

  -- `playlist_size_increase`: after more than `MAX_INCREASE_COUNTER` (3) passes that added nothing,
  -- false, with the limits that no playlist of this size can meet as the error.
  unfoldable pub playlist_size_increase : Ctrl T → Ctrl T × Bool
  unfolding give_up
  playlist_size_increase c =
      let size = length c.playlist in
      if ltb c.previous_size size
      then (record c { previous_size = size; increase_counter = 0 }, true)
      else if ltb 3 (c.increase_counter + 1)
      then (give_up size (record c { increase_counter = c.increase_counter + 1 }), false)
      else (record c { increase_counter = c.increase_counter + 1 }, true)

  -- `set_special_conditions`
  unfoldable pub set_special_conditions : Ctrl T → Bool
  set_special_conditions c =
      not (leb_ℤ c.max_tracks (pos 0) && leb_ℤ (pos 0) c.max_tracks)
      || (c.m_schedule || is_some c.general_duration)

module _ (z : Zend) where
  open z use {Table, num_elements}

  reset_folders : List (Text × Folder Table) → List (Text × Folder Table)
  reset_folders [] = []
  reset_folders ((name, f) ∷ fs) =
      (name, record f { index = search_next_hash_index z f.ht 0 }) ∷ reset_folders fs

  -- The part of `prepare` that undoes a finished playlist.
  restart : Ctrl Table → Ctrl Table
  unfolding reset_folders
  restart c = record c {
    folders = reset_folders c.folders;
    timer = clear_playlist_duration c.timer;
    complete = false;
    error = empty_error;
  }

  -- The order that `prepare` sets: the next of the schedule, or the fixed one again.
  reorder : Zval Table → Ctrl Table → Ctrl Table
  reorder input c =
      if c.m_schedule
      then create_schedule_order (if c.complete then record c { sch_it = none } else c)
      else (if c.complete then search_order z input c else c)

  -- `prepare`, over the input `input` that the constructor was given.
  unfoldable pub prepare : Zval Table → Ctrl Table → Ctrl Table × Bool
  unfolding restart reorder
  prepare input c =
      if not (c.error == 0)
      then (c, false)
      else if array_size z (hash_of input) == 0
      then (record c { error = input_array_error }, false)
      else let ordered = reorder input c in
        (if ordered.complete then restart ordered else ordered, true)

  -- `while (!global_analize(it, to_next_folder));`
  unfoldable pub visit : ℕ → Text → Bool → Ctrl Table → Outcome (Ctrl Table × Bool)
  visit zero name to_next c = stuck
  visit (suc fuel) name to_next c = global_analize z name to_next c >>= λ r.
      let rest = visit fuel name (r.1) (r.0) in if r.2 then done (r.0, r.1) else rest

  -- `ito = sOrder.folders_order.begin()`, behind `prepare`.
  from_start : Option (ℕ × Text) → Ctrl Table → Ctrl Table × Next
  from_start none c = (c, halt)
  from_start (some e) c = (c, go (some e))

  -- The end of a round, `ito` being none at the end of the order.
  after_pass : Zval Table → Option (ℕ × Text) → Bool → Ctrl Table → Ctrl Table × Next
  unfolding from_start
  after_pass input ito to_next c =
      if is_some ito && to_next
      then (c, go ito)
      else if c.special_conditions
      then (let (grown, more) = playlist_size_increase c in
          if more
          then (let c' = (prepare input grown).0 in from_start (begin c'.order) c')
          else (grown, halt))
      else (c, halt)

  -- `it_next`, or the first folder of the order behind the last one.
  advance : ℕ → Ctrl Table → Option (ℕ × Text)
  advance key c = elim (upper_bound compare key c.order) [ some e ↦ some e | none ↦ begin c.order ]

  start_of : Option (ℕ × Text) → Ctrl Table → Option (ℕ × Text)
  start_of ito c = if c.set_start_folder then begin c.order else ito

  -- One round of the loop, with the fuel that the visit of the folder is given. A visit that turns to
  -- the next order of the schedule, and sets `set_start_folder`, assigns the map that `ito` stands in:
  -- `(*ito).first` is read behind it all the same.
  pass_at : ℕ → Zval Table → Option (ℕ × Text) → Ctrl Table → Outcome (Ctrl Table × Next)
  unfolding visit after_pass advance playlist_construction_completed
  pass_at fuel input none c = crash
  pass_at fuel input (some (key, name)) c =
      visit fuel name true (record c { set_start_folder = false }) >>= λ r.
      if (r.0).set_start_folder
      then crash
      else done (
          if playlist_construction_completed r.0
          then (r.0, halt)
          else after_pass input (advance key r.0) (r.1) (r.0))

  pub pass : ℕ → Zval Table → Option (ℕ × Text) → Ctrl Table → Outcome (Ctrl Table × Next)
  unfolding pass_at start_of
  pass fuel input ito c = pass_at fuel input (start_of ito c) c

  resume :
      (Option (ℕ × Text) → Ctrl Table → Outcome (Ctrl Table))
      → Next
      → Ctrl Table
      → Outcome (Ctrl Table)
  resume loop halt c = done c
  resume loop (go next) c = loop next c

  pub passes : ℕ → ℕ → Zval Table → Option (ℕ × Text) → Ctrl Table → Outcome (Ctrl Table)
  unfolding pass resume
  passes zero fuel input ito c = stuck
  passes (suc rounds) fuel input ito c =
      pass fuel input ito c >>= λ r. resume (passes rounds fuel input) (r.1) (r.0)

  -- `analise_folders_by_order`
  pub analise_folders_by_order : ℕ → ℕ → Zval Table → Ctrl Table → Outcome (Ctrl Table)
  unfolding passes
  analise_folders_by_order rounds fuel input c =
      if length c.folders == 0
      then done c
      else passes rounds fuel input (begin c.order) (record c { set_start_folder = false })

  build : ℕ → ℕ → Zval Table → Ctrl Table → Outcome (Ctrl Table)
  unfolding analise_folders_by_order
  build rounds fuel input c =
      if c.m_order then analise_folders_by_order rounds fuel input c else done c

  -- `create_playlist`
  unfoldable pub create_playlist : ℕ → ℕ → Zval Table → Ctrl Table → Outcome (Ctrl Table)
  unfolding build
  create_playlist rounds fuel input c =
      let fresh = record c { playlist = []; previous_size = 0; increase_counter = 0 } in
      if array_size z (hash_of input) == 0 || not (c.error == 0)
      then done fresh
      else (build rounds fuel input fresh >>= λ c'. done (record c' { complete = true }))

  no_rules : Rules
  no_rules = record {
    singer_limit = pos 0;
    track_limit = pos 0;
    return_interval = pos 0;
    max_rules = pos 0;
  }

  -- The constructor's fields before `on_init` reads the input.
  blank : ℤ → Option Text → Timer → Ctrl Table
  unfolding no_rules
  blank max_tracks duration timer = record {
    playlist = [];
    history = [];
    rules = no_rules;
    folder_rules = [];
    folders = [];
    order = [];
    schedule = [];
    sch_it = none;
    timer = timer;
    max_tracks = max_tracks;
    general_duration = duration;
    m_schedule = false;
    m_order = false;
    special_conditions = false;
    complete = false;
    set_start_folder = false;
    error = empty_error;
    increase_counter = 0;
    previous_size = 0;
    max_ht_size = 0;
  }

  read_input : Clock → Table → Zval Table → Ctrl Table → Outcome (Ctrl Table)
  read_input clock ht input c =
      search_folders z input (record c { rules = search_rules z ht common_rules c.rules }) >>= λ r.
      if not r.1
      then done (r.0)
      else (let scheduled = search_schedule z clock input (r.0) in
          let ordered =
            if scheduled.m_schedule then scheduled else search_order z input scheduled in
          search_history z input ordered.history >>= λ hs. done (record ordered {
            history = hs;
            complete = false;
            special_conditions = set_special_conditions ordered;
          }))

  -- `on_init`, behind the constructors.
  unfoldable pub on_init : Clock → ℤ → Option Text → Zval Table → Outcome (Ctrl Table)
  unfolding blank read_input
  on_init clock max_tracks duration input = new_timer duration >>= λ timer.
      let c = blank max_tracks duration timer in
      elim (hash_of input) [
        | none ↦ done (record c { error = input_array_error })
        | some ht ↦
            if num_elements ht == 0
            then done (record c { error = input_array_error })
            else read_input clock ht input c
      ]
