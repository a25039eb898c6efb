-- ===== src/Rotator/Examples.antt =====
-- A rotation with one folder of two tracks, run through rotator/rotator_ctrl.cpp, and the theorems at
-- it.
use cproject.Base.{
  ℕ, ◌+◌, ◌<◌, ◌≡◌, refl, ◌≢◌, Bool, true, false, Option, none, some, List, [], ◌∷◌, ltb,
  if◌then◌else◌, arith, ◌⊎◌, ◌≤◌, All, done, stuck, length, ◌>>=◌,
}
use cproject.Base.Int.{pos, ◌+ℤ◌, ◌*ℤ◌}
use cproject.Base.Text.{Text, codes, text_eq, text_compare, strcmp_eq, atoi, strchr}
use cproject.Base.Map.{lookup, insert, upper_bound}
use cproject.Rotator.Zend.{Zval, Zend, Entry, array_size, get_node_ptr, get_node_ptr_zval}
use cproject.Rotator.Zend.{find_data_in_node, find_data_in_zval}
use cproject.Rotator.State.{Rules, Folder, Ctrl}
use cproject.Rotator.Timer.{
  Clock, new_timer, get_seconds, set_general_duration, two_digits, clock_text,
  convert_seconds_to_char,
}
use cproject.Rotator.Timer.RoundTrip.{get_seconds-convert_seconds_to_char}
use cproject.Rotator.Timer.{append_playlist_duration, is_24hours_completed}
use cproject.Rotator.Rules.{search_rules, get_current_rules}
use cproject.Rotator.History.{search_history, find_record_in_history, append_history}
use cproject.Rotator.History.Spacing.{position, history_verdict, find_record_in_history_lem}
use cproject.Rotator.Order.{search_order, search_schedule, create_schedule_order}
use cproject.Rotator.Folders.{search_folders, search_next_hash_index, global_analize}
use cproject.Rotator.Folders.Spacing.{Agree}
use cproject.Rotator.Playlist.{on_init, create_playlist, visit, set_special_conditions}
use cproject.Rotator.Playlist.Init.{on_init-Agree}
use cproject.Rotator.Folders.Termination.{search_next_hash_index_lem}
use cproject.Rotator.Playlist.Termination.{visit-ne-stuck}

-- The tables of the input, by what they hold.
data Node : Type 0 where
  root folders rules pop tracks : Node
  song : ℕ → Node

abbrev named : Text → List (Text × Zval Node) → Option (Zval Node)
named k [] = none
named k ((j, v) ∷ m) = if text_eq j k then some v else named k m

abbrev fields : Node → List (Text × Zval Node)
fields root = (codes "rules", Zval.arr rules) ∷ (codes "folders", Zval.arr folders) ∷ []
fields folders = (codes "pop", Zval.arr pop) ∷ []
fields rules = (codes "singer_interval", Zval.long (pos 1)) ∷ []
fields pop = (codes "tracks", Zval.arr tracks) ∷ []
fields tracks = []
fields (song n) =
    (codes "executor", Zval.str ((65 + n) ∷ [])) ∷ (codes "title", Zval.str ((97 + n) ∷ [])) ∷ []

abbrev size_of : Node → ℕ
size_of tracks = 2
size_of n = length (fields n)

abbrev has_index : Node → ℕ → Bool
has_index tracks i = ltb i 2
has_index n i = false

abbrev at_index : Node → ℕ → Option (Zval Node)
at_index tracks i = if ltb i 2 then some (Zval.arr (song i)) else none
at_index n i = none

abbrev entries_of : Node → List (Entry Node)
entries_of folders = record { index = 0; name = some (codes "pop"); value = Zval.arr pop } ∷ []
entries_of n = []

abbrev engine : Zend
engine = record {
  Table = Node;
  num_elements = size_of;
  index_exists = has_index;
  index_find = at_index;
  str_find = λ t k. named k (fields t);
  entries = entries_of;
}

abbrev noon : Clock
noon = record { hour = 12; seconds_since = λ h. pos 0 }

-- The controller that the constructor makes of this input: every track of a singer is kept at least
-- one track apart.
start : (c : Ctrl Node) × (on_init engine noon (pos 0) none (Zval.arr root) ≡ done c)
unfolding on_init new_timer get_seconds set_general_duration search_folders search_rules
    search_order search_schedule search_history get_node_ptr_zval get_node_ptr find_data_in_node
    find_data_in_zval array_size search_next_hash_index insert lookup text_compare text_eq atoi
    strchr ◌+ℤ◌ ◌*ℤ◌ set_special_conditions
start = (_, refl)

run : (d : Ctrl Node) × (create_playlist engine 10 4 (Zval.arr root) start.0 ≡ done d)
unfolding start create_playlist set_special_conditions global_analize find_record_in_history
    get_current_rules append_history append_playlist_duration is_24hours_completed strcmp_eq
    search_next_hash_index insert lookup upper_bound text_compare text_eq array_size
    create_schedule_order search_order
run = (_, refl)

run_size : length run.0.playlist ≡ 3
unfolding run
run_size = refl

pop_folder : Folder Node
pop_folder = record {
  ht = tracks;
  index = 0;
  bypass = false;
  size = 2;
  service = false;
  statistics = 1;
}

visit-ne-stuck_example : visit engine 4 (codes "pop") true start.0 ≢ stuck
unfolding start pop_folder lookup text_compare
visit-ne-stuck_example =
    visit-ne-stuck engine 4 pop_folder (codes "pop") true start.0 refl (omega arith)

search_next_hash_index_lem_example :
    let next = search_next_hash_index engine tracks 1 in
    (1 ≤ next)
    × ((j : ℕ) → 1 ≤ j → j < next → has_index tracks j ≡ false)
    × ((has_index tracks next ≡ true) ⊎ (2 ≤ next))
search_next_hash_index_lem_example = search_next_hash_index_lem engine tracks 1

find_record_in_history_lem_example :
    find_record_in_history (codes "A") (codes "a") start.0.rules 1 run.0.history
    ≡ history_verdict start.0.rules 1
        (position (λ h. strcmp_eq h.singer (codes "A")) run.0.history)
        (position (λ h. strcmp_eq h.title (codes "a")) run.0.history)
find_record_in_history_lem_example =
    find_record_in_history_lem (codes "A") (codes "a") start.0.rules 1 run.0.history

on_init-Agree_example : All (λ (e : Text × Rules). Agree start.0.rules e.1) start.0.folder_rules
on_init-Agree_example = on_init-Agree engine noon (pos 0) none (Zval.arr root) start.0 start.1

get_seconds-convert_seconds_to_char_example :
    (convert_seconds_to_char 3723 >>= λ s. get_seconds (pos 180) (some s)) ≡ done (pos 3723)
get_seconds-convert_seconds_to_char_example =
    get_seconds-convert_seconds_to_char (pos 180) 3723 (omega arith) (omega arith)

printed : convert_seconds_to_char 3723 ≡ done (codes "01:02:03")
unfolding convert_seconds_to_char clock_text two_digits
printed = refl
