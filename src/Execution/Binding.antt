-- ===== src/Execution/Binding.antt =====
-- src/wcd/exec_transaction.py: `_envelope_dict` and `_bind_args_into_envelope`. `substitute` replaces the
-- references to arguments in a text, and `text_of` is `str`.
use windows_console_driver.Prelude.{
  String, ◌||◌, Option, none, some, ◌==◌, string_eq, if◌then◌else◌,
}
use windows_console_driver.Prelude.Results.{Result, ok, err, ◌>>=◌}
use windows_console_driver.Value.{
  Value, str, list, dict, Items, no_items, item, Fields, no_fields, field, find_field,
}
use windows_console_driver.Execution.{ExecMessage, no_envelope}

-- `{**clause, name: value}`
unfoldable pub set_field : String → Value → Fields → Fields
set_field k v no_fields = field k v no_fields
set_field k v (field j w fs) = if j == k then field j v fs else field j w (set_field k v fs)

module _ (substitute : String → Result ExecMessage String) (text_of : Value → String) where
  abbrev pub predicate_text : Option Value → String
  predicate_text none = ""
  predicate_text (some (str s)) = s
  predicate_text (some v) = text_of v

  unfoldable pub bind_clause : String → Value → Result ExecMessage Value
  unfolding set_field find_field
  bind_clause name (dict fs) = substitute (predicate_text (find_field name fs)) >>= λ bound.
      ok (dict (set_field name (str bound) fs))
  bind_clause name v = ok v

  unfoldable pub bind_clauses : String → Items → Result ExecMessage Items
  unfolding bind_clause
  bind_clauses name no_items = ok no_items
  bind_clauses name (item v vs) =
      bind_clause name v >>= λ bound. bind_clauses name vs >>= λ rest. ok (item bound rest)

  abbrev pub bind_section : String → Value → Result ExecMessage Value
  bind_section name (list vs) = bind_clauses name vs >>= λ bound. ok (list bound)
  bind_section name v = ok (list no_items)

  abbrev pub bind_entry : String → Value → Result ExecMessage Value
  bind_entry key v =
      if key == "require" || key == "forbid"
      then bind_section "predicate" v
      else if key == "derive"
      then bind_section "relation" v
      else ok v

  unfoldable pub bind_args_into_envelope : Fields → Result ExecMessage Fields
  unfolding bind_clauses
  bind_args_into_envelope no_fields = ok no_fields
  bind_args_into_envelope (field key v fs) =
      bind_entry key v >>= λ bound. bind_args_into_envelope fs >>= λ rest. ok (field key bound rest)

  unfoldable pub envelope_dict : Option Value → Result ExecMessage Fields
  unfolding bind_args_into_envelope
  envelope_dict (some (dict fs)) = bind_args_into_envelope fs
  envelope_dict _ = err no_envelope
