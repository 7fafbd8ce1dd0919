-- ===== src/Envelope/Parsing.antt =====
-- src/wcd/envelope.py: `parse_envelope`, over a JSON object. `strip` is `str.strip` and `parse` is
-- `ast.parse`. Seconds that are no integers are left out, as floats are.
pub mod Accepted
pub mod Raises
mod Overflow
mod Tests
use windows_console_driver.Prelude.{
  ℕ, suc, String, Bool, true, false, not, ◌&&◌, Option, none, some, List, [], ◌∷◌, ◌==◌, string_eq,
  if◌then◌else◌,
}
use windows_console_driver.Prelude.Int.{pos}
use windows_console_driver.Prelude.Results.{Result, ok, err, ◌>>=◌}
use windows_console_driver.Value.{
  Value, null, int, str, list, tuple, dict, Items, no_items, item, Fields, no_fields, field,
  find_field,
}
use windows_console_driver.Predicate.{Expr, Predicate, SyntaxFault, compile_predicate}
use windows_console_driver.Envelope.{
  RequireClause, AllowClause, ForbidClause, DeriveClause, ConvergencePolicy, Envelope, member,
  normalized_keys,
}
use windows_console_driver.Envelope.Delta.{insert_key}

pub data ClauseKind : Type 0 where
  require_kind allow_kind forbid_kind derive_kind : ClauseKind

-- The EnvelopeErrors of the parser, and the errors of `compile_predicate`.
pub data EnvelopeFault : Type 0 where
  unknown_envelope_keys unknown_convergence_keys : List String → EnvelopeFault
  not_a_sequence convergence_not_object bad_window bad_poll bad_reproduce : EnvelopeFault
  observes_nothing : EnvelopeFault
  not_an_object keys_missing blank_name predicate_not_text : ClauseKind → ℕ → EnvelopeFault
  unknown_clause_keys : ClauseKind → ℕ → List String → EnvelopeFault
  bad_predicate : SyntaxFault → EnvelopeFault

abbrev pub Parsed : Type 0 → Type 0
Parsed A = Result EnvelopeFault A

-- `sorted(set(raw) - allowed)`
unfoldable pub unknown_keys : List String → Fields → List String
unfolding insert_key
unknown_keys allowed no_fields = []
unknown_keys allowed (field k v fs) =
    let rest = unknown_keys allowed fs in if member k allowed then rest else insert_key k rest

abbrev pub closed : {E A : Type 0} → List String → (List String → E) → Result E A → Result E A
closed [] fault rest = rest
closed (k ∷ ks) fault rest = err (fault (k ∷ ks))

unfoldable pub sequence : Option Value → Parsed Items
sequence none = ok no_items
sequence (some null) = ok no_items
sequence (some (list vs)) = ok vs
sequence (some (tuple vs)) = ok vs
sequence (some v) = err not_a_sequence

unfoldable pub text_of : ClauseKind → ℕ → Option Value → Parsed String
text_of kind i (some (str s)) = ok s
text_of kind i _ = err (predicate_not_text kind i)

abbrev pub both_present : ClauseKind → ℕ → Option Value → Option Value → Parsed (Value × Value)
both_present kind i (some a) (some b) = ok (a, b)
both_present kind i _ _ = err (keys_missing kind i)

unfoldable pub pair : ClauseKind → ℕ → String → String → Value → Parsed (Value × Value)
unfolding unknown_keys find_field
pair kind i first second (dict fs) =
    closed (unknown_keys (first ∷ (second ∷ [])) fs) (unknown_clause_keys kind i)
      (both_present kind i (find_field first fs) (find_field second fs))
pair kind i first second v = err (not_an_object kind i)

-- The clauses of a list, in order, with their indexes.
unfoldable pub parse_entries :
    {E A : Type 0} → (ℕ → Value → Result E A) → ℕ → Items → Result E (List A)
parse_entries one i no_items = ok []
parse_entries one i (item v vs) =
    one i v >>= λ a. parse_entries one (suc i) vs >>= λ as'. ok (a ∷ as')

abbrev pub no_keys_error : Bool → Envelope → Parsed Envelope
no_keys_error true e = ok e
no_keys_error false e = err observes_nothing

abbrev pub is_nonempty : List String → Bool
is_nonempty [] = false
is_nonempty (k ∷ ks) = true

-- A positive integer, or the default of an absent key.
unfoldable pub positive : ℕ → EnvelopeFault → Option Value → Parsed ℕ
positive default fault none = ok default
positive default fault (some (int (pos (suc n)))) = ok (suc n)
positive default fault (some v) = err fault

unfoldable pub parse_convergence : Option Value → Parsed ConvergencePolicy
unfolding unknown_keys find_field positive
parse_convergence none = ok (record { window_seconds = 90; poll_seconds = 5; reproduce = 2 })
parse_convergence (some null) = ok (record { window_seconds = 90; poll_seconds = 5; reproduce = 2 })
parse_convergence (some (dict fs)) =
    closed (unknown_keys ("window_seconds" ∷ ("poll_seconds" ∷ ("reproduce" ∷ []))) fs)
      unknown_convergence_keys
      (positive 90 bad_window (find_field "window_seconds" fs) >>= λ window.
        positive 5 bad_poll (find_field "poll_seconds" fs) >>= λ poll.
        positive 2 bad_reproduce (find_field "reproduce" fs) >>= λ reproduce.
        ok (record { window_seconds = window; poll_seconds = poll; reproduce = reproduce }))
parse_convergence (some v) = err convergence_not_object

module _ (parse : String → Option Expr) (strip : String → String) where
  abbrev pub is_blank : String → Bool
  is_blank s = strip s == ""

  abbrev pub compiled : Result SyntaxFault Predicate → Parsed Predicate
  compiled (ok p) = ok p
  compiled (err f) = err (bad_predicate f)

  unfoldable pub predicate_of : ClauseKind → ℕ → Option Value → Parsed Predicate
  unfolding text_of compile_predicate
  predicate_of kind i o = text_of kind i o >>= λ s. compiled (compile_predicate parse is_blank s)

  -- A name that is a text and passes the test.
  abbrev pub name_of : (String → Bool) → ClauseKind → ℕ → Option Value → Parsed String
  name_of good kind i (some (str s)) = if good s then ok s else err (blank_name kind i)
  name_of good kind i _ = err (blank_name kind i)

  unfoldable pub parse_require : ℕ → Value → Parsed RequireClause
  unfolding pair predicate_of
  parse_require i v = pair require_kind i "fact" "predicate" v >>= λ both.
      name_of (λ s. not (is_blank s) && strip s == s) require_kind i (some both.0) >>= λ key.
      predicate_of require_kind i (some both.1) >>= λ p.
      ok (record { fact_key = key; predicate = p })

  unfoldable pub parse_allow : ℕ → Value → Parsed AllowClause
  unfolding unknown_keys find_field
  parse_allow i (dict fs) =
      name_of (λ s. not (is_blank s)) allow_kind i (find_field "category" fs) >>= λ category.
      closed (unknown_keys ("category" ∷ []) fs) (unknown_clause_keys allow_kind i)
        (ok (record { category = category }))
  parse_allow i v = err (not_an_object allow_kind i)

  unfoldable pub parse_forbid : ℕ → Value → Parsed ForbidClause
  unfolding pair predicate_of
  parse_forbid i v = pair forbid_kind i "scope" "predicate" v >>= λ both.
      name_of (λ s. not (is_blank s)) forbid_kind i (some both.0) >>= λ key.
      predicate_of forbid_kind i (some both.1) >>= λ p.
      ok (record { scope_key = key; predicate = p })

  unfoldable pub parse_derive : ℕ → Value → Parsed DeriveClause
  unfolding unknown_keys find_field predicate_of
  parse_derive i (dict fs) =
      closed (unknown_keys ("relation" ∷ []) fs) (unknown_clause_keys derive_kind i) (
        predicate_of derive_kind i (find_field "relation" fs) >>= λ p. ok (record { relation = p }))
  parse_derive i v = err (not_an_object derive_kind i)

  unfoldable pub parse_list : {A : Type 0} → (ℕ → Value → Parsed A) → Option Value → Parsed (List A)
  unfolding sequence parse_entries
  parse_list one o = sequence o >>= parse_entries one 0

  unfoldable pub parse_envelope : Fields → Parsed Envelope
  parse_envelope raw =
      closed
        (unknown_keys ("require" ∷ ("allow" ∷ ("forbid" ∷ ("derive" ∷ ("convergence" ∷ []))))) raw)
        unknown_envelope_keys
        (parse_list parse_require (find_field "require" raw) >>= λ requires.
          parse_list parse_allow (find_field "allow" raw) >>= λ allows.
          parse_list parse_forbid (find_field "forbid" raw) >>= λ forbids.
          parse_list parse_derive (find_field "derive" raw) >>= λ derives.
          parse_convergence (find_field "convergence" raw) >>= λ convergence.
          let e : Envelope = record {
            requires = requires;
            allows = allows;
            forbids = forbids;
            derives = derives;
            convergence = convergence;
          } in
          no_keys_error (is_nonempty (normalized_keys e)) e)
