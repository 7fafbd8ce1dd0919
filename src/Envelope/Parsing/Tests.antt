-- ===== src/Envelope/Parsing/Tests.antt =====
-- A capability's envelope that parses and some that do not, with texts that need no stripping.
use windows_console_driver.Prelude.{
  String, ◌≡◌, refl, Option, none, some, [], ◌∷◌, ◌==◌, string_eq, if◌then◌else◌,
}
use windows_console_driver.Prelude.Int.{pos}
use windows_console_driver.Prelude.Results.{ok, err}
use windows_console_driver.Value.{
  Value, int, str, list, dict, no_items, item, Fields, no_fields, field, find_field,
}
use windows_console_driver.Predicate.{
  int_constant, gt_op, constant, name, attribute, compare, no_comparisons, comparison, Expr,
  validate, checked, parsed, compile_predicate,
}
use windows_console_driver.Predicate.Paths.{dotted, referenced_paths}
use windows_console_driver.Envelope.{
  Envelope, post_side_paths, post_side_keys, require_keys, derive_keys, forbid_keys, predicted_keys,
  keep_new, normalized_keys,
}
use windows_console_driver.Envelope.Delta.{insert_key}
use windows_console_driver.Envelope.Parsing.{
  unknown_envelope_keys, observes_nothing, unknown_keys, sequence, text_of, pair, parse_entries,
  positive, parse_convergence, predicate_of, parse_require, parse_allow, parse_forbid, parse_derive,
  parse_list, parse_envelope,
}
use windows_console_driver.Envelope.Parsing.Accepted.{IsWellFormed, parse_envelope-IsWellFormed}

-- `post.version > 1`
abbrev grown : Expr
grown =
    compare (attribute (name "post") "version")
      (comparison gt_op (constant (int_constant (pos 1))) no_comparisons)

abbrev parse : String → Option Expr
parse s = if s == "post.version > 1" then some grown else none

abbrev strip : String → String
strip s = s

abbrev clause : Value
clause = dict (field "fact" (str "version") (field "predicate" (str "post.version > 1") no_fields))

abbrev raw : Fields
raw =
    field "require" (list (item clause no_items))
      (field "convergence" (dict (field "reproduce" (int (pos 3)) no_fields)) no_fields)

abbrev misspelled : Fields
misspelled = field "requires" (list (item clause no_items)) no_fields

abbrev envelope : Envelope
envelope = record {
  requires =
      record {
        fact_key = "version";
        predicate = record { source = "post.version > 1"; expression = grown };
      }
      ∷ [];
  allows = [];
  forbids = [];
  derives = [];
  convergence = record { window_seconds = 90; poll_seconds = 5; reproduce = 3 };
}

parses : parse_envelope parse strip raw ≡ ok envelope
unfolding parse_envelope parse_list sequence parse_entries parse_require parse_allow parse_forbid
    parse_derive pair unknown_keys insert_key find_field predicate_of text_of compile_predicate
    parsed checked validate parse_convergence positive normalized_keys predicted_keys require_keys
    derive_keys forbid_keys post_side_keys post_side_paths referenced_paths dotted keep_new
parses = refl

refuses_misspelled :
    parse_envelope parse strip misspelled ≡ err (unknown_envelope_keys ("requires" ∷ []))
unfolding parse_envelope unknown_keys insert_key
refuses_misspelled = refl

refuses_empty : parse_envelope parse strip no_fields ≡ err observes_nothing
unfolding parse_envelope parse_list sequence parse_entries unknown_keys find_field parse_convergence
    normalized_keys predicted_keys require_keys derive_keys forbid_keys keep_new
refuses_empty = refl

parse_envelope-IsWellFormed_example : IsWellFormed parse strip envelope
parse_envelope-IsWellFormed_example = parse_envelope-IsWellFormed parse strip raw envelope parses
