-- ===== src/Rotator/Rules.antt =====
-- rotator/rotator_ctrl.cpp: the rules of rotation, for all folders and for one.
pub mod Folder
use cproject.Base.{Bool, true, false, Option, none, some, if◌then◌else◌}
use cproject.Base.Int.{ℤ, pos, ltb_ℤ}
use cproject.Base.Text.{Text, codes, c_str, atoi, text_compare}
use cproject.Base.Map.{lookup}
use cproject.Rotator.Zend.{Zval, Zend, get_node_ptr, find_data_in_zval}
use cproject.Rotator.State.{Rules, Ctrl}

-- The bool that `search_rules` is given: `COMMON_RULES` is 1, `FOLDER_RULES` is 0.
pub data Scope : Type 0 where
  common_rules folder_rules : Scope

abbrev is_common : Scope → Bool
is_common common_rules = true
is_common folder_rules = false

-- A limit in the input is a number or its text; anything else leaves `old`.
read_limit : {T : Type 0} → ℤ → Option (Zval T) → ℤ
read_limit old (some (Zval.str s)) = atoi (c_str s)
read_limit old (some (Zval.long n)) = n
read_limit old _ = old

default_rules : Scope → Rules → Rules
default_rules common_rules r = record {
  singer_limit = pos 0;
  track_limit = pos 0;
  return_interval = pos 0;
  max_rules = pos 0;
}
default_rules folder_rules r = r

module _ (z : Zend) where
  open z use {Table}

  -- The part of `search_rules` under `if (ht && common_rules)`.
  read_rules : Table → Rules → Rules
  unfolding read_limit
  read_rules ht r =
      let rules = get_node_ptr z (some ht) (codes "rules") in
      record r {
        singer_limit =
            read_limit r.singer_limit (find_data_in_zval z rules (codes "singer_interval"));
        track_limit = read_limit r.track_limit (find_data_in_zval z rules (codes "track_interval"));
        return_interval =
            read_limit r.return_interval (find_data_in_zval z rules (codes "folder_interval"));
      }

  -- `search_rules`, over the rules `r` that `sRules` holds at the call.
  unfoldable pub search_rules : Table → Scope → Rules → Rules
  unfolding default_rules read_rules
  search_rules ht scope r =
      let base = default_rules scope r in
      let found = if is_common scope then read_rules ht base else base in
      record found {
        max_rules =
            if ltb_ℤ found.singer_limit found.track_limit
            then found.track_limit
            else found.singer_limit;
      }

  -- `get_current_rules`
  unfoldable pub get_current_rules : Text → Ctrl Table → Rules
  get_current_rules folder c = elim (lookup text_compare folder c.folder_rules) [
    | none ↦ c.rules
    | some r ↦ r
  ]
