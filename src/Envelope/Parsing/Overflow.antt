-- ===== src/Envelope/Parsing/Overflow.antt =====
-- An envelope that parses although one of its predicates repeats a text too often for Python.
use windows_console_driver.Prelude.{
  String, ◌≡◌, refl, Option, none, some, false, [], ◌∷◌, ◌==◌, string_eq, if◌then◌else◌,
}
use windows_console_driver.Prelude.Int.{pos}
use windows_console_driver.Prelude.Results.{ok, err}
use windows_console_driver.Prelude.Dict.{insert}
use windows_console_driver.Value.{
  str, list, dict, no_items, item, Fields, no_fields, field, find_field,
}
use windows_console_driver.Value.Compare.{type_error, overflow_error}
use windows_console_driver.Value.Arithmetic.{py_mul}
use windows_console_driver.Predicate.{
  str_constant, int_constant, mult_op, constant, bin_op, Expr, validate, checked, parsed,
  compile_predicate,
}
use windows_console_driver.Predicate.Paths.{referenced_paths}
use windows_console_driver.Predicate.Eval.{
  Runtime, operator_raised, eval, evaluate, constant_value, apply_binary,
}
use windows_console_driver.Envelope.{
  Envelope, post_side_paths, post_side_keys, require_keys, derive_keys, forbid_keys, predicted_keys,
  keep_new, normalized_keys,
}
use windows_console_driver.Envelope.Delta.{insert_key}
use windows_console_driver.Envelope.Assertion.{
  holds, add_bindings, build_bindings, assert_clauses, assert_envelope,
}
use windows_console_driver.Envelope.Parsing.{
  unknown_keys, sequence, text_of, pair, parse_entries, parse_convergence, predicate_of,
  parse_require, parse_list, parse_envelope,
}
use windows_console_driver.Envelope.Parsing.Raises.{IsUncaught, parsed_envelope-IsUncaught}

abbrev python : Runtime
python = record { is_same = λ l r a b. false; format = λ f v. err type_error }

abbrev repeated : Expr
repeated =
    bin_op (constant (str_constant "a")) mult_op (constant (int_constant (pos 9223372036854775808)))

abbrev source : String
source = "'a' * 9223372036854775808"

abbrev parse : String → Option Expr
parse s = if s == source then some repeated else none

abbrev strip : String → String
strip s = s

abbrev raw : Fields
raw =
    field "require"
      (list
        (item (dict (field "fact" (str "a") (field "predicate" (str source) no_fields))) no_items))
      no_fields

abbrev repeating : Envelope
repeating = record {
  requires =
      record { fact_key = "a"; predicate = record { source = source; expression = repeated } } ∷ [];
  allows = [];
  forbids = [];
  derives = [];
  convergence = record { window_seconds = 90; poll_seconds = 5; reproduce = 2 };
}

parses : parse_envelope parse strip raw ≡ ok repeating
unfolding parse_envelope parse_list sequence parse_entries parse_require pair unknown_keys
    insert_key find_field predicate_of text_of compile_predicate parsed checked validate
    parse_convergence normalized_keys predicted_keys require_keys derive_keys forbid_keys
    post_side_keys post_side_paths referenced_paths keep_new
parses = refl

overflows : assert_envelope python repeating [] [] [] ≡ err (operator_raised overflow_error)
unfolding assert_envelope holds add_bindings build_bindings assert_clauses evaluate eval
    constant_value apply_binary py_mul insert
overflows = refl

parsed_envelope-IsUncaught_example : IsUncaught (operator_raised overflow_error)
parsed_envelope-IsUncaught_example =
    parsed_envelope-IsUncaught parse strip raw repeating python [] [] []
      (operator_raised overflow_error) parses overflows
