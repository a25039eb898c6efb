-- ===== src/Rotator/Folders.antt =====
-- rotator/rotator_ctrl.cpp: the folders of tracks, and the walk through one of them.
pub mod Spacing
pub mod Init
pub mod Termination
use cproject.Base.{
  ℕ, zero, suc, ◌+◌, ◌-◌, Bool, true, false, ◌==◌, ltb, leb, Option, none, some, List, [], ◌∷◌,
  ◌++◌, if◌then◌else◌, Outcome, done, crash, ◌>>=◌,
}
use cproject.Base.Int.{pos, leb_ℤ}
use cproject.Base.Text.{Text, codes, c_str, text_compare}
use cproject.Base.Map.{lookup, insert, is_some}
use cproject.Rotator.Zend.{Zval, Zend, Entry, get_node_ptr, get_node_ptr_zval}
use cproject.Rotator.Zend.{hash_of}
use cproject.Rotator.Timer.{append_playlist_duration, remained_interval}
use cproject.Rotator.State.{Folder, Rules, Ctrl, Verdict, add, skip}
use cproject.Rotator.Rules.{search_rules, get_current_rules, folder_rules}
use cproject.Rotator.History.{find_record_in_history, append_history}
use cproject.Rotator.Order.{create_schedule_order}

-- `is_valid_type`: both are texts, and neither is empty.
valid_text : {T : Type 0} → Option (Zval T) → Option Text
valid_text (some (Zval.str (c ∷ s))) = some (c ∷ s)
valid_text _ = none

-- The text that `add_to_playlist` copies out of "duration": none unless a non-empty text.
duration_of : {T : Type 0} → Option (Zval T) → Option Text
duration_of (some (Zval.str (c ∷ s))) = some (c_str (c ∷ s))
duration_of _ = none

module _ (z : Zend) where
  open z use {Table, num_elements, index_exists, index_find, str_find, entries}

  -- The loop of `search_next_hash_index` with `rounds` indices to go.
  pub search_from : ℕ → Table → ℕ → ℕ
  search_from zero ht i = i
  search_from (suc rounds) ht i =
      let rest = search_from rounds ht (suc i) in if index_exists ht i then i else rest

  -- `search_next_hash_index`: the first index from `index` on that is in the table.
  unfoldable pub search_next_hash_index : Table → ℕ → ℕ
  unfolding search_from
  search_next_hash_index ht index = search_from (num_elements ht - index) ht index

  is_true : Option (Zval Table) → Bool
  is_true (some (Zval.boolean b)) = b
  is_true _ = false

  new_folder : Table → Table → Folder Table
  unfolding search_next_hash_index is_true
  new_folder node ht = record {
    ht = ht;
    index = search_next_hash_index ht 0;
    bypass = false;
    size = num_elements ht;
    service = is_true (str_find node (codes "service"));
    statistics = 1;
  }

  put_folder : Text → Table → Table → Ctrl Table → Ctrl Table
  unfolding new_folder
  put_folder name node ht c = if num_elements ht == 0 then c else record c {
    folders = insert text_compare name (new_folder node ht) c.folders;
    max_ht_size = if ltb c.max_ht_size (num_elements ht) then num_elements ht else c.max_ht_size;
  }

  tracks_in : Text → Table → Option (Zval Table) → Ctrl Table → Ctrl Table
  unfolding put_folder
  tracks_in name node (some (Zval.arr ht)) c = put_folder name node ht c
  tracks_in name node _ c = c

  -- `search_tracks`. `Z_ARRVAL_P` of a value that is no array is not valid.
  search_tracks : Zval Table → Text → Ctrl Table → Outcome (Ctrl Table)
  unfolding tracks_in
  search_tracks Zval.undef name c = done c
  search_tracks (Zval.arr node) name c =
      done (tracks_in name node (get_node_ptr z (some node) (codes "tracks")) c)
  search_tracks _ name c = crash

  -- `mRules[key]`, for a folder that has tracks.
  folder_rules_of : Option Table → Text → Ctrl Table → Ctrl Table
  folder_rules_of none name c = c
  folder_rules_of (some node) name c =
      if is_some (lookup text_compare name c.folders)
      then record c {
        folder_rules =
            insert text_compare name (search_rules z node folder_rules c.rules) c.folder_rules;
      }
      else c

  folder_entry : Zval Table → Text → Ctrl Table → Outcome (Ctrl Table)
  unfolding search_tracks folder_rules_of
  folder_entry v name c = do c' ← search_tracks v name c; done (folder_rules_of (hash_of v) name c')

  named_entry : Option Text → Zval Table → Ctrl Table → Outcome (Ctrl Table)
  unfolding folder_entry
  named_entry none v c = done c
  named_entry (some name) v c = folder_entry v name c

  folders_loop : List (Entry Table) → Ctrl Table → Outcome (Ctrl Table)
  unfolding named_entry
  folders_loop [] c = done c
  folders_loop (e ∷ es) c = named_entry e.name e.value c >>= folders_loop es

  folders_in : Option (Zval Table) → Ctrl Table → Outcome (Ctrl Table × Bool)
  unfolding folders_loop
  folders_in (some (Zval.arr ht)) c =
      if num_elements ht == 0
      then done (c, false)
      else (folders_loop (entries ht) c >>= λ c'. done (c', true))
  folders_in _ c = done (c, false)

  -- `search_folders(arr, true)`: false where the input has no folders.
  unfoldable pub search_folders : Zval Table → Ctrl Table → Outcome (Ctrl Table × Bool)
  unfolding folders_in
  search_folders input c = folders_in (get_node_ptr_zval z (some input) (codes "folders")) c

  -- The new entry of the history, of the singer and the title that `is_valid_type` found.
  remember : Option Text → Option Text → ℕ → Ctrl Table → Ctrl Table
  remember (some singer) (some title) statistics c = record c {
    history =
        append_history (record { singer = singer; title = title; statistics = statistics + 1 })
          c.history;
  }
  remember _ _ statistics c = c

  -- Under `m_schedule` the track comes off the interval, and the end of it starts the next order.
  spend_interval : Option Text → Ctrl Table → Outcome (Ctrl Table)
  spend_interval sd c = do
    t ← remained_interval sd c.timer
    let c' = record c { timer = t }
    done (
        if leb_ℤ t.remained_interval (pos 0)
        then record (create_schedule_order c') { set_start_folder = true }
        else c')

  -- The part of `add_to_playlist` that writes `play_list` and `mHistory`.
  note_track : Table → ℕ → Ctrl Table → Ctrl Table
  unfolding remember valid_text
  note_track ht statistics c =
      let listed = record c { playlist = c.playlist ++ (Zval.arr ht ∷ []); increase_counter = 0 } in
      if num_elements ht == 0
      then listed
      else remember (valid_text (str_find ht (codes "executor")))
          (valid_text (str_find ht (codes "title"))) statistics listed

  -- `add_to_playlist(data, statistics)` for a track of a folder, an array `ht`.
  unfoldable pub add_to_playlist : Table → ℕ → Ctrl Table → Outcome (Ctrl Table)
  unfolding duration_of spend_interval note_track
  add_to_playlist ht statistics c = do
    let kept = note_track ht statistics c
    let sd = duration_of (str_find ht (codes "duration"))
    t ← append_playlist_duration sd kept.timer
    let timed = record kept { timer = t }
    if c.m_schedule then spend_interval sd timed else done timed

  judge : Option Text → Option Text → Folder Table → Rules → Ctrl Table → Verdict
  judge (some singer) (some title) f r c =
      if f.service then add else find_record_in_history singer title r f.statistics c.history
  judge _ _ f r c = skip

  play : Verdict → Table → ℕ → Ctrl Table → Outcome (Ctrl Table × Verdict)
  unfolding add_to_playlist
  play skip ht statistics c = done (c, skip)
  play add ht statistics c = add_to_playlist ht statistics c >>= λ c'. done (c', add)

  -- `find_record_in_playlist` at what is found at the index of the folder.
  find_at : Option (Zval Table) → Folder Table → Text → Ctrl Table → Outcome (Ctrl Table × Verdict)
  unfolding valid_text judge play
  find_at (some (Zval.arr ht)) f name c =
      play
        (judge (valid_text (str_find ht (codes "executor")))
          (valid_text (str_find ht (codes "title"))) f (get_current_rules z (c_str name) c) c)
        ht f.statistics c
  find_at _ f name c = done (c, add)

  -- `find_record_in_playlist`; an index with no track answers 0, which is `ADD_TO_PLAYLIST`.
  unfoldable pub find_record_in_playlist :
      Folder Table → Text → Ctrl Table → Outcome (Ctrl Table × Verdict)
  unfolding find_at
  find_record_in_playlist f name c = find_at (index_find f.ht f.index) f name c

  -- The start of `global_analize`: at its end a folder starts over, with one more weight. The bool
  -- is `to_next`, set only here.
  rewind : Folder Table → ℕ → Bool → Folder Table × Bool
  unfolding search_next_hash_index
  rewind f max_ht_size to_next =
      if leb (num_elements f.ht) f.index
      then (
        record f { index = search_next_hash_index f.ht 0; statistics = f.statistics + 1 },
        ltb f.index max_ht_size,
      )
      else (f, to_next)

  -- `global_analize` at its folder.
  analize_folder : Folder Table → Text → Bool → Ctrl Table → Outcome (Ctrl Table × Bool × Bool)
  unfolding rewind find_record_in_playlist
  analize_folder f name to_next c =
      let f' = (rewind f c.max_ht_size to_next).0 in
      find_record_in_playlist f' name (record c { folders = insert text_compare name f' c.folders })
      >>= λ r.
          let index = search_next_hash_index f'.ht (f'.index + 1) in
          done (
            record (r.0) {
              folders = insert text_compare name (record f' { index = index }) (r.0).folders;
            },
            (rewind f c.max_ht_size to_next).1,
            elim (r.1) [ add ↦ true | skip ↦ leb (num_elements f'.ht) index ],
          )

  -- `global_analize`: one track of the folder `name`. Answers `to_next` and whether to go on to the
  -- next folder; after a skipped track that is so only at the end of this one.
  unfoldable pub global_analize : Text → Bool → Ctrl Table → Outcome (Ctrl Table × Bool × Bool)
  unfolding analize_folder
  global_analize name to_next c = elim (lookup text_compare name c.folders) [
    | none ↦ crash
    | some f ↦ analize_folder f name to_next c
  ]
