-- ===== src/Rotator/Order.antt =====
-- rotator/rotator_ctrl.cpp: the order in which the folders are visited, fixed or by the hour.
pub mod Frame
use Prim.Native.Nat.{compare}
use cproject.Base.{
  ℕ, suc, false, not, ◌==◌, ltb, Option, none, some, List, [], ◌∷◌, length, if◌then◌else◌,
}
use cproject.Base.Int.{ℤ, pos, ◌-ℤ◌}
use cproject.Base.Text.{Text, codes, c_str, text_compare}
use cproject.Base.Map.{lookup, insert, upper_bound, begin, is_some}
use cproject.Rotator.Zend.{Zval, Zend, Entry, get_node_ptr_zval, as_string}
use cproject.Rotator.Timer.{Clock, set_interval, define_playlist_duration}
use cproject.Rotator.State.{Order, Schedule, Folder, Ctrl}

-- `increase_max_ht_size`
increase : ℕ → ℕ → ℕ
increase value size = if ltb size value then value else size

-- The hour of a schedule's entry `k`, its order, and the length of its interval in hours.
interval_hours : ℕ → Option (ℕ × Order) → ℤ
interval_hours k none = pos 24 -ℤ pos k
interval_hours k (some (j, o)) = pos j -ℤ pos k

next_interval : Option ℕ → Schedule → Option (ℕ × Order)
next_interval none s = begin s
next_interval (some k) s = upper_bound compare k s

module _ {T : Type 0} where
  -- What `create_schedule_order` does at an entry.
  enter_interval : ℕ → Order → Ctrl T → Ctrl T
  unfolding interval_hours
  enter_interval k o c = record c {
    order = o;
    m_order = not (length o == 0);
    sch_it = some k;
    timer = set_interval (interval_hours k (upper_bound compare k c.schedule)) c.timer;
  }

  move_to : Option (ℕ × Order) → Ctrl T → Ctrl T
  unfolding enter_interval
  move_to none c = record c { sch_it = none }
  move_to (some (k, o)) c = enter_interval k o c

  -- `create_schedule_order`: the next entry of the schedule; from `end()` the first.
  unfoldable pub create_schedule_order : Ctrl T → Ctrl T
  unfolding move_to next_interval
  create_schedule_order c = move_to (next_interval c.sch_it c.schedule) c

module _ (z : Zend) where
  open z use {Table, entries, num_elements}

  -- The order by the names of the folders, from `num_index` on.
  order_by_name : ℕ → List (Text × Folder Table) → Order → Order
  order_by_name n [] o = o
  order_by_name n ((name, f) ∷ fs) o = order_by_name (suc n) fs (insert compare n name o)

  sizes_of : List (Text × Folder Table) → ℕ → ℕ
  unfolding increase
  sizes_of [] size = size
  sizes_of ((name, f) ∷ fs) size = sizes_of fs (increase (num_elements f.ht) size)

  order_item : Entry Table → Option Text → Ctrl Table → Ctrl Table
  unfolding increase
  order_item e none c = c
  order_item e (some s) c = elim (lookup text_compare (c_str s) c.folders) [
    | none ↦ c
    | some f ↦ record c {
      order = insert compare e.index (c_str s) c.order;
      max_ht_size = increase (num_elements f.ht) c.max_ht_size;
    }
  ]

  order_loop : List (Entry Table) → Ctrl Table → Ctrl Table
  unfolding order_item
  order_loop [] c = c
  order_loop (e ∷ es) c = order_loop es (order_item e (as_string e.value) c)

  order_by_folders : Ctrl Table → Ctrl Table
  unfolding order_by_name sizes_of
  order_by_folders c = record c {
    order = order_by_name 0 c.folders c.order;
    max_ht_size = sizes_of c.folders c.max_ht_size;
  }

  fill_order : Option (Zval Table) → Ctrl Table → Ctrl Table
  unfolding order_by_folders order_loop
  fill_order (some (Zval.arr ht)) c =
      if num_elements ht == 0 then order_by_folders c else order_loop (entries ht) c
  fill_order _ c = order_by_folders c

  -- `m_order = search_order(arr)`
  unfoldable pub search_order : Zval Table → Ctrl Table → Ctrl Table
  unfolding fill_order
  search_order input c =
      let filled =
        fill_order (get_node_ptr_zval z (some input) (codes "order"))
          (record c { order = []; max_ht_size = 0 }) in
      record filled { m_order = not (length filled.order == 0) }

  -- The folders of one hour: those that exist, counted from `counter`.
  schedule_item : List (Entry Table) → ℕ → Ctrl Table → Order → Order
  schedule_item [] counter c o = o
  schedule_item (e ∷ es) counter c o =
      let skipped = schedule_item es counter c o in
      elim e.name [
        | some key ↦ skipped
        | none ↦ elim (as_string e.value) [
          | none ↦ skipped
          | some s ↦
              let taken = schedule_item es (suc counter) c (insert compare counter (c_str s) o) in
              if is_some (lookup text_compare (c_str s) c.folders) then taken else skipped
        ]
      ]

  schedule_entry : Entry Table → Ctrl Table → Schedule → Schedule
  unfolding schedule_item
  schedule_entry e c s = elim e.name [
    | some key ↦ s
    | none ↦ elim e.value [
      | Zval.arr t ↦
          let item = schedule_item (entries t) 0 c [] in
          if length item == 0 then s else insert compare e.index item s
      | _ ↦ s
    ]
  ]

  schedule_loop : List (Entry Table) → Ctrl Table → Schedule → Schedule
  unfolding schedule_entry
  schedule_loop [] c s = s
  schedule_loop (e ∷ es) c s = schedule_loop es c (schedule_entry e c s)

  -- The last hour of the schedule that is not after the current one; 0 if there is none.
  pub hour_of : ℕ → ℕ → Schedule → ℕ
  hour_of current found [] = found
  hour_of current found ((h, o) ∷ s) =
      let rest = hour_of current h s in if ltb current h then found else rest

  start_interval : Clock → Ctrl Table → Ctrl Table
  unfolding hour_of enter_interval
  start_interval clock c =
      let hour = hour_of clock.hour 0 c.schedule in
      elim (lookup compare hour c.schedule) [
        | none ↦ record c { sch_it = none }
        | some o ↦
            let entered = enter_interval hour o c in
            record entered { timer = define_playlist_duration clock hour entered.timer }
      ]

  -- `m_schedule = search_schedule(arr)`
  unfoldable pub search_schedule : Clock → Zval Table → Ctrl Table → Ctrl Table
  unfolding schedule_loop start_interval
  search_schedule clock input c = elim (get_node_ptr_zval z (some input) (codes "schedule")) [
    | some (Zval.arr ht) ↦
        (if num_elements ht == 0
          then record c { m_schedule = false }
          else let started =
              start_interval clock
                (record c { schedule = schedule_loop (entries ht) c c.schedule }) in
            record started { m_schedule = not (length started.schedule == 0) })
    | _ ↦ record c { m_schedule = false }
  ]
