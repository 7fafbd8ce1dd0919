-- ===== src/Value/Compare.antt =====
-- `==`, `<` and `in` on the Python values of src/wcd/envelope.py.
use Prim.Native.String
use Prim.Native.Nat.{Ordering}
use text.Mathlib.Text.{find?}
use windows_console_driver.Prelude.{
  ℕ, suc, String, Bool, true, false, ◌&&◌, ◌||◌, Option, none, some, ◌==◌, string_eq, nat_eq,
  if◌then◌else◌,
}
use windows_console_driver.Prelude.Results.{Result, ok, err}
use windows_console_driver.Prelude.Int.{ℤ, eqb_ℤ, ltb_ℤ}
use windows_console_driver.Value.{
  Value, null, boolean, int, str, list, tuple, dict, Items, no_items, item, Fields, no_fields,
  field, find_field, number_of,
}

-- What Python's own operators can raise.
pub data Raised : Type 0 where
  type_error zero_division value_error index_error overflow_error key_error : Raised

abbrev same_number : Option ℤ → Option ℤ → Bool
same_number (some a) (some b) = eqb_ℤ a b
same_number _ _ = false

abbrev compare_ints : ℤ → ℤ → Ordering
compare_ints a b = if eqb_ℤ a b then Ordering.eq else if ltb_ℤ a b then Ordering.lt else Ordering.gt

abbrev compare_numbers : Option ℤ → Option ℤ → Result Raised Ordering
compare_numbers (some a) (some b) = ok (compare_ints a b)
compare_numbers _ _ = err type_error

abbrev pub size : Fields → ℕ
size no_fields = 0
size (field k v fs) = suc (size fs)

-- `a == b`: numbers by value, lists in order, dictionaries whatever their order.
unfoldable mutual
  pub py_eq : Value → Value → Bool
  py_eq null null = true
  py_eq (boolean a) b = same_number (number_of (boolean a)) (number_of b)
  py_eq (int a) b = same_number (some a) (number_of b)
  py_eq (str a) (str b) = a == b
  py_eq (list a) (list b) = eq_items a b
  py_eq (tuple a) (tuple b) = eq_items a b
  py_eq (dict a) (dict b) = size a == size b && eq_fields a b
  py_eq _ _ = false

  pub eq_items : Items → Items → Bool
  eq_items no_items no_items = true
  eq_items (item a as') (item b bs) = py_eq a b && eq_items as' bs
  eq_items _ _ = false

  pub eq_fields : Fields → Fields → Bool
  eq_fields no_fields b = true
  eq_fields (field k v a) b =
      elim (find_field k b) [ none ↦ false | some w ↦ py_eq v w ] && eq_fields a b

-- `a < b` and its relatives, as an order; unordered types raise TypeError. Two sequences compare by
-- their first elements that differ, else by length.
unfoldable mutual
  pub py_compare : Value → Value → Result Raised Ordering
  py_compare (boolean a) b = compare_numbers (number_of (boolean a)) (number_of b)
  py_compare (int a) b = compare_numbers (some a) (number_of b)
  py_compare (str a) (str b) = ok (String.compare a b)
  py_compare (list a) (list b) = compare_items a b
  py_compare (tuple a) (tuple b) = compare_items a b
  py_compare _ _ = err type_error

  pub compare_items : Items → Items → Result Raised Ordering
  compare_items no_items no_items = ok Ordering.eq
  compare_items no_items (item b bs) = ok Ordering.lt
  compare_items (item a as') no_items = ok Ordering.gt
  compare_items (item a as') (item b bs) =
      let here = py_compare a b in
      let rest = compare_items as' bs in if py_eq a b then rest else here

-- A dictionary key has to be hashable.
unfoldable mutual
  pub hashable : Value → Bool
  hashable (list a) = false
  hashable (dict a) = false
  hashable (tuple a) = hashable_items a
  hashable _ = true

  pub hashable_items : Items → Bool
  hashable_items no_items = true
  hashable_items (item a as') = hashable a && hashable_items as'

unfoldable pub is_member : Value → Items → Bool
unfolding py_eq
is_member v no_items = false
is_member v (item a as') = py_eq a v || is_member v as'

abbrev is_some : {A : Type 0} → Option A → Bool
is_some none = false
is_some (some a) = true

abbrev is_key : Value → Fields → Bool
is_key (str k) fs = is_some (find_field k fs)
is_key _ fs = false

abbrev in_text : Value → String → Result Raised Bool
in_text (str a) b = ok (is_some (find? b a))
in_text _ b = err type_error

-- `left in right`
unfoldable pub py_in : Value → Value → Result Raised Bool
unfolding is_member hashable find_field
py_in v (str s) = in_text v s
py_in v (list a) = ok (is_member v a)
py_in v (tuple a) = ok (is_member v a)
py_in v (dict fs) = if hashable v then ok (is_key v fs) else err type_error
py_in v _ = err type_error
