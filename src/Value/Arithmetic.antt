-- ===== src/Value/Arithmetic.antt =====
-- `+ - * // %` and unary `-`, `+` on the Python values of src/wcd/envelope.py. Integers do not overflow;
-- a repetition count has to fit in a machine word, and memory is not modelled. The text left of `%`
-- is a format, whose rendering is a parameter.
use Prim.Native.String
use windows_console_driver.Prelude.{
  ℕ, zero, suc, ◌/◌, ◌^◌, String, Bool, Option, none, some, ltb, if◌then◌else◌,
}
use windows_console_driver.Prelude.Results.{Result, ok, err}
use windows_console_driver.Prelude.Int.{ℤ, pos, negsuc, pos_part, ◌+ℤ◌, ◌-ℤ◌, ◌*ℤ◌}
use windows_console_driver.Value.{Value, int, str, list, tuple, Items, no_items, item, number_of}
use windows_console_driver.Value.Compare.{Raised, type_error, zero_division, overflow_error}

abbrev on_numbers : (ℤ → ℤ → Result Raised ℤ) → Option ℤ → Option ℤ → Result Raised Value
on_numbers f (some a) (some b) = elim (f a b) [ ok n ↦ ok (int n) | err x ↦ err x ]
on_numbers f _ _ = err type_error

unfoldable pub append_items : Items → Items → Items
append_items no_items b = b
append_items (item a as') b = item a (append_items as' b)

unfoldable pub py_add : Value → Value → Result Raised Value
unfolding append_items ◌+ℤ◌
py_add (str a) (str b) = ok (str (String.◌++◌ a b))
py_add (list a) (list b) = ok (list (append_items a b))
py_add (tuple a) (tuple b) = ok (tuple (append_items a b))
py_add a b = on_numbers (λ m n. ok (m +ℤ n)) (number_of a) (number_of b)

unfoldable pub py_sub : Value → Value → Result Raised Value
unfolding ◌-ℤ◌
py_sub a b = on_numbers (λ m n. ok (m -ℤ n)) (number_of a) (number_of b)

-- A count of `PY_SSIZE_T_MAX` or more does not fit; one below zero is taken as zero.
abbrev pub word_limit : ℕ
word_limit = 2 ^ 63

abbrev fits_word : ℤ → Bool
fits_word (pos n) = ltb n word_limit
fits_word (negsuc n) = ltb n word_limit

unfoldable pub repeat_text : ℕ → String → String
repeat_text zero s = ""
repeat_text (suc n) s = String.◌++◌ s (repeat_text n s)

unfoldable pub repeat_items : ℕ → Items → Items
unfolding append_items
repeat_items zero a = no_items
repeat_items (suc n) a = append_items a (repeat_items n a)

abbrev repeated : (ℕ → Value) → Option ℤ → Result Raised Value
repeated f none = err type_error
repeated f (some n) = if fits_word n then ok (f (pos_part n)) else err overflow_error

unfoldable pub py_mul : Value → Value → Result Raised Value
unfolding repeat_text repeat_items ◌*ℤ◌
py_mul (str s) b = repeated (λ n. str (repeat_text n s)) (number_of b)
py_mul (list a) b = repeated (λ n. list (repeat_items n a)) (number_of b)
py_mul (tuple a) b = repeated (λ n. tuple (repeat_items n a)) (number_of b)
py_mul a (str s) = repeated (λ n. str (repeat_text n s)) (number_of a)
py_mul a (list b) = repeated (λ n. list (repeat_items n b)) (number_of a)
py_mul a (tuple b) = repeated (λ n. tuple (repeat_items n b)) (number_of a)
py_mul a b = on_numbers (λ m n. ok (m *ℤ n)) (number_of a) (number_of b)

-- The quotient rounds towards minus infinity.
abbrev floor_quotient : ℤ → ℕ → ℤ
floor_quotient (pos m) n = pos (m / n)
floor_quotient (negsuc m) n = negsuc (m / n)

abbrev negate : ℤ → ℤ
negate (pos zero) = pos 0
negate (pos (suc n)) = negsuc n
negate (negsuc n) = pos (suc n)

unfoldable pub int_floor_div : ℤ → ℤ → Result Raised ℤ
int_floor_div m (pos zero) = err zero_division
int_floor_div m (pos (suc n)) = ok (floor_quotient m (suc n))
int_floor_div m (negsuc n) = ok (floor_quotient (negate m) (suc n))

unfoldable pub int_mod : ℤ → ℤ → Result Raised ℤ
unfolding int_floor_div ◌-ℤ◌ ◌*ℤ◌
int_mod m n = elim (int_floor_div m n) [ ok q ↦ ok (m -ℤ n *ℤ q) | err x ↦ err x ]

unfoldable pub py_floor_div : Value → Value → Result Raised Value
unfolding int_floor_div
py_floor_div a b = on_numbers int_floor_div (number_of a) (number_of b)

unfoldable pub py_mod : (String → Value → Result Raised Value) → Value → Value → Result Raised Value
unfolding int_mod
py_mod format (str s) b = format s b
py_mod format a b = on_numbers int_mod (number_of a) (number_of b)

abbrev on_number : (ℤ → ℤ) → Option ℤ → Result Raised Value
on_number f (some n) = ok (int (f n))
on_number f none = err type_error

unfoldable pub py_neg : Value → Result Raised Value
py_neg v = on_number negate (number_of v)

unfoldable pub py_pos : Value → Result Raised Value
py_pos v = on_number (λ n. n) (number_of v)
