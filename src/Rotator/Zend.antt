-- ===== src/Rotator/Zend.antt =====
-- What rotator/rotator_ctrl.cpp uses of PHP's engine, which is not in the repository: the hash
-- tables are a parameter, and a value is what the macros `Z_TYPE_P`, `Z_STRVAL_P` … read of it.
use cproject.Base.{ℕ, Bool, Option, none, some, List}
use cproject.Base.Int.{ℤ}
use cproject.Base.Text.{Text}

-- A `zval` by its type tag. `other` stands for every tag that the sources do not test.
pub data Zval (T : Type 0) : Type 0 where
  null undef : Zval T
  boolean : Bool → Zval T
  long : ℤ → Zval T
  str : Text → Zval T
  arr : T → Zval T
  other : Zval T

-- What `ZEND_HASH_FOREACH_KEY_VAL` and `zend_hash_get_current_key` show of an element: `name` is
-- NULL where the key is an integer; `index` is that integer, or the hash of the name.
pub record Entry (T : Type 0) : Type 0 where
  pub index : ℕ
  pub name : Option Text
  pub value : Zval T

-- The calls of the engine on a `HashTable*`.
pub record Zend : Type 1 where
  pub Table : Type 0
  pub num_elements : Table → ℕ
  pub index_exists : Table → ℕ → Bool
  pub index_find : Table → ℕ → Option (Zval Table)
  pub str_find : Table → Text → Option (Zval Table)
  pub entries : Table → List (Entry Table)

-- `HASH_OF(z)`, NULL unless the value is an array.
abbrev pub hash_of : {T : Type 0} → Zval T → Option T
hash_of (arr t) = some t
hash_of _ = none

-- `Z_TYPE_P(z) == IS_STRING`, with the bytes that `Z_STRVAL_P` then reads.
abbrev pub as_string : {T : Type 0} → Zval T → Option Text
as_string (str s) = some s
as_string _ = none

module _ (z : Zend) where
  open z use {Table, num_elements, str_find}

  -- `TRotator_Ctrl::array_size`
  unfoldable pub array_size : Option Table → ℕ
  array_size none = 0
  array_size (some t) = num_elements t

  -- `TRotator_Ctrl::find_data_in_node(HashTable*, char*)`
  unfoldable pub find_data_in_node : Option Table → Text → Option (Zval Table)
  find_data_in_node none name = none
  find_data_in_node (some t) name = str_find t name

  -- `TRotator_Ctrl::find_data_in_node(zval*, char*)`
  unfoldable pub find_data_in_zval : Option (Zval Table) → Text → Option (Zval Table)
  unfolding find_data_in_node
  find_data_in_zval none name = none
  find_data_in_zval (some v) name = find_data_in_node (hash_of v) name

  abbrev only_array : Option (Zval Table) → Option (Zval Table)
  only_array (some (arr t)) = some (arr t)
  only_array _ = none

  -- `TRotator_Ctrl::get_node_ptr(HashTable*, char*)`: the element of that name, if it is an array.
  unfoldable pub get_node_ptr : Option Table → Text → Option (Zval Table)
  get_node_ptr none name = none
  get_node_ptr (some t) name = only_array (str_find t name)

  -- `TRotator_Ctrl::get_node_ptr(zval*, char*)`
  unfoldable pub get_node_ptr_zval : Option (Zval Table) → Text → Option (Zval Table)
  unfolding get_node_ptr
  get_node_ptr_zval none name = none
  get_node_ptr_zval (some v) name = get_node_ptr (hash_of v) name
