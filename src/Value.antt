-- ===== src/Value.antt =====
-- The Python values that facts and predicates of src/wcd/envelope.py are made of, with the operators
-- that its evaluator uses. Floats are left out: no observer emits one and no capability names one.
pub mod Compare
pub mod Arithmetic
use windows_console_driver.Prelude.{
  ℕ, suc, String, Bool, true, false, Option, none, some, List, [], ◌∷◌, ◌==◌, string_eq,
  if◌then◌else◌,
}
use windows_console_driver.Prelude.Int.{ℤ, pos, eqb_ℤ}
use windows_console_driver.Prelude.Dict.{Dict}

mutual
  pub data Value : Type 0 where
    null : Value
    boolean : Bool → Value
    int : ℤ → Value
    str : String → Value
    list : Items → Value
    tuple : Items → Value
    dict : Fields → Value

  pub data Items : Type 0 where
    no_items : Items
    item : Value → Items → Items

  pub data Fields : Type 0 where
    no_fields : Fields
    field : String → Value → Fields → Fields

-- A dictionary as a value, and its lookup.
unfoldable pub to_fields : Dict Value → Fields
to_fields [] = no_fields
to_fields ((k, v) ∷ d) = field k v (to_fields d)

unfoldable pub find_field : String → Fields → Option Value
find_field k no_fields = none
find_field k (field j v fs) = if j == k then some v else find_field k fs

-- `bool(value)`
unfoldable pub truth : Value → Bool
truth null = false
truth (boolean b) = b
truth (int n) = if eqb_ℤ n (pos 0) then false else true
truth (str s) = if s == "" then false else true
truth (list no_items) = false
truth (tuple no_items) = false
truth (dict no_fields) = false
truth v = true

-- A Boolean is an integer too.
abbrev pub number_of : Value → Option ℤ
number_of (boolean b) = some (if b then pos 1 else pos 0)
number_of (int n) = some n
number_of _ = none
