-- ===== src/Envelope/Assertion/Tests.antt =====
-- An envelope whose only clause is the repetition of a text, too often for Python.
use windows_console_driver.Prelude.{◌≡◌, ◌⊎◌, refl, false, [], ◌∷◌}
use windows_console_driver.Prelude.Int.{pos}
use windows_console_driver.Prelude.Results.{err}
use windows_console_driver.Value.Compare.{Raised, type_error, overflow_error}
use windows_console_driver.Value.Arithmetic.{py_mul}
use windows_console_driver.Predicate.{
  str_constant, int_constant, mult_op, constant, bin_op, Predicate,
}
use windows_console_driver.Predicate.Eval.{
  Runtime, operator_raised, assertion_failed, eval, evaluate, constant_value, apply_binary,
  is_caught,
}
use windows_console_driver.Envelope.{Envelope}
use windows_console_driver.Envelope.Assertion.{
  holds, add_bindings, build_bindings, assert_clauses, assert_envelope,
}
use windows_console_driver.Envelope.Assertion.Escapes.{assert_envelope-Escapes}

abbrev python : Runtime
python = record { is_same = λ l r a b. false; format = λ f v. err type_error }

-- `"a" * 9223372036854775808`
abbrev too_often : Predicate
too_often = record {
  source = "'a' * 9223372036854775808";
  expression =
      bin_op (constant (str_constant "a")) mult_op
        (constant (int_constant (pos 9223372036854775808)));
}

abbrev repeating : Envelope
repeating = record {
  requires = record { fact_key = "a"; predicate = too_often } ∷ [];
  allows = [];
  forbids = [];
  derives = [];
  convergence = record { window_seconds = 90; poll_seconds = 5; reproduce = 2 };
}

overflows : assert_envelope python repeating [] [] [] ≡ err (operator_raised overflow_error)
unfolding assert_envelope holds add_bindings build_bindings assert_clauses evaluate eval
    constant_value apply_binary py_mul
overflows = refl

assert_envelope-Escapes_example :
    (operator_raised overflow_error ≡ assertion_failed)
    ⊎ ((x : Raised) × (operator_raised overflow_error ≡ operator_raised x) × (is_caught x ≡ false))
assert_envelope-Escapes_example =
    assert_envelope-Escapes python repeating [] [] [] (operator_raised overflow_error) overflows
