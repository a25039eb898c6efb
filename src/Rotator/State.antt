-- ===== src/Rotator/State.antt =====
-- rotator/rotator_ctrl.h: what a `TRotator_Ctrl` holds.
use Prim.Native.Nat.{compare, Ordering}
use cproject.Base.{ℕ, Bool, Option, List}
use cproject.Base.Int.{ℤ}
use cproject.Base.Text.{Text}
use cproject.Rotator.Zend.{Zval}
use cproject.Rotator.Timer.{Timer}

-- `TRules`
pub record Rules : Type 0 where
  pub singer_limit : ℤ
  pub track_limit : ℤ
  pub return_interval : ℤ
  pub max_rules : ℤ

-- `THistory`
pub record History : Type 0 where
  pub singer : Text
  pub title : Text
  pub statistics : ℕ

-- `THFolders`
pub record Folder (T : Type 0) : Type 0 where
  pub ht : T
  pub index : ℕ
  pub bypass : Bool
  pub size : ℕ
  pub service : Bool
  pub statistics : ℕ

-- `Order`, `Schedule` and `MHistory`: maps by increasing key, but the history by decreasing key,
-- as its readers walk it.
abbrev pub Order : Type 0
Order = List (ℕ × Text)

abbrev pub Schedule : Type 0
Schedule = List (ℕ × Order)

abbrev pub Histories : Type 0
Histories = List (ℕ × History)

abbrev pub descending : ℕ → ℕ → Ordering
descending a b = compare b a

-- The bits of `m_error`.
abbrev pub empty_error : ℕ
empty_error = 0x00

abbrev pub executor_error : ℕ
executor_error = 0x01

abbrev pub track_error : ℕ
track_error = 0x02

abbrev pub input_array_error : ℕ
input_array_error = 0x08

-- The fields of the class. `sch_it` is the schedule's iterator, by its key; none is `end()`.
pub record Ctrl (T : Type 0) : Type 0 where
  pub playlist : List (Zval T)
  pub history : Histories
  pub rules : Rules
  pub folder_rules : List (Text × Rules)
  pub folders : List (Text × Folder T)
  pub order : Order
  pub schedule : Schedule
  pub sch_it : Option ℕ
  pub timer : Timer
  pub max_tracks : ℤ
  pub general_duration : Option Text
  pub m_schedule : Bool
  pub m_order : Bool
  pub special_conditions : Bool
  pub complete : Bool
  pub set_start_folder : Bool
  pub error : ℕ
  pub increase_counter : ℕ
  pub previous_size : ℕ
  pub max_ht_size : ℕ

-- What is to be done with the track at hand: `ADD_TO_PLAYLIST` (0) or `NEED_TO_SKIP_RECORD` (3).
pub data Verdict : Type 0 where
  add skip : Verdict
