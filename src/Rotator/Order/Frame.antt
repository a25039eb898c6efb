-- ===== src/Rotator/Order/Frame.antt =====
-- rotator/rotator_ctrl.cpp: a change of the order leaves the history, the rules and the folders.
use cproject.Base.{ℕ, ◌≡◌, Option, none, some, List, [], ◌∷◌, arith}
use cproject.Base.Text.{Text, codes}
use cproject.Rotator.Zend.{Zval, Zend, Entry, get_node_ptr_zval, as_string}
use cproject.Rotator.State.{Order, Schedule, Ctrl}
use cproject.Rotator.Timer.{Clock}
use cproject.Rotator.Order.{
  enter_interval, move_to, next_interval, create_schedule_order, order_item, order_loop,
  order_by_folders, fill_order, search_order, start_interval, search_schedule,
}

pub record Same {T : Type 0} (c d : Ctrl T) : Type 0 where
  pub history : d.history ≡ c.history
  pub rules : d.rules ≡ c.rules
  pub folder_rules : d.folder_rules ≡ c.folder_rules
  pub folders : d.folders ≡ c.folders
  pub playlist : d.playlist ≡ c.playlist

pub Same-refl : {T : Type 0} (c : Ctrl T) → Same c c
Same-refl c = ground arith

move_to-Same : {T : Type 0} (o : Option (ℕ × Order)) (c : Ctrl T) → Same c (move_to o c)
unfolding move_to enter_interval
move_to-Same none c = ground arith
move_to-Same (some (k, o)) c = ground arith

pub create_schedule_order-Same : {T : Type 0} (c : Ctrl T) → Same c (create_schedule_order c)
unfolding create_schedule_order
create_schedule_order-Same c = move_to-Same (next_interval c.sch_it c.schedule) c

module _ (z : Zend) where
  open z use {Table, entries, num_elements}

  order_item-Same :
      (e : Entry Table) (s : Option Text) (c : Ctrl Table) → Same c (order_item z e s c)
  unfolding order_item
  order_item-Same e none c = ground arith
  order_item-Same e (some s) c = ground arith

  order_loop-Same : (es : List (Entry Table)) (c : Ctrl Table) → Same c (order_loop z es c)
  unfolding order_loop
  order_loop-Same [] c = ground arith
  order_loop-Same (e ∷ es) c = ground (
    arith,
    order_item-Same e (as_string e.value) c,
    order_loop-Same es (order_item z e (as_string e.value) c),
  )

  fill_order-Same : (v : Option (Zval Table)) (c : Ctrl Table) → Same c (fill_order z v c)
  unfolding fill_order order_by_folders
  fill_order-Same (some (Zval.arr ht)) c = ground (arith, order_loop-Same (entries ht) c)
  fill_order-Same _ c = ground arith

  pub search_order-Same : (input : Zval Table) (c : Ctrl Table) → Same c (search_order z input c)
  unfolding search_order
  search_order-Same input c =
      let start : Ctrl Table = record c { order = []; max_ht_size = 0 } in
      ground (arith, fill_order-Same (get_node_ptr_zval z (some input) (codes "order")) start)

  start_interval-Same : (clock : Clock) (c : Ctrl Table) → Same c (start_interval z clock c)
  unfolding start_interval enter_interval
  start_interval-Same clock c = ground arith

  pub search_schedule-Same :
      (clock : Clock) (input : Zval Table) (c : Ctrl Table)
      → Same c (search_schedule z clock input c)
  unfolding search_schedule
  search_schedule-Same clock input c =
      ground (arith, λ (s : Schedule). start_interval-Same clock (record c { schedule = s }))
