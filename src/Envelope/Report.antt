-- ===== src/Envelope/Report.antt =====
-- src/wcd/envelope.py: the result of an assertion and `_characterize`. The texts of labels, reasons and
-- lines are kept by their parts.
use windows_console_driver.Prelude.{
  ℕ, String, Option, none, some, List, [], ◌∷◌, ◌++◌, map, length, ◌==◌, string_eq, if◌then◌else◌,
}
use windows_console_driver.Predicate.Eval.{Fault}
use windows_console_driver.Envelope.{member}
use windows_console_driver.Envelope.Delta.{DeltaEntry, FactDelta, entries}

pub data AssertionStatus : Type 0 where
  satisfied_status disproven_status indeterminate_status : AssertionStatus

pub data ClauseLabel : Type 0 where
  require_label : ℕ → String → ClauseLabel
  derive_label : ℕ → ClauseLabel
  forbid_label : ℕ → String → ClauseLabel

pub data Reason : Type 0 where
  not_true : String → Reason
  could_not_evaluate : Fault → Reason
  scope_absent : String → Reason

-- A label with the reason after its colon, if there is one.
pub record Labelled : Type 0 where
  pub label : ClauseLabel
  pub reason : Option Reason

pub data Line : Type 0 where
  satisfied_line : (clauses entries : ℕ) → Line
  indeterminate_line : (unresolved violated unclassified : ℕ) → Line
  disproven_line : (violated unclassified : ℕ) → Line
  unresolved_line violated_line : Labelled → Line
  unclassified_line covered_line : DeltaEntry → Line
  never_stabilized_line : Line

-- `next(e for e in delta.entries if e.key == key)`; `none` is its StopIteration.
unfoldable pub find_entry : String → List DeltaEntry → Option DeltaEntry
find_entry key [] = none
find_entry key (e ∷ es) = if e.key == key then some e else find_entry key es

abbrev pub cons_line : Option Line → Option (List Line) → Option (List Line)
cons_line (some l) (some ls) = some (l ∷ ls)
cons_line _ _ = none

unfoldable pub unclassified_lines : List String → List DeltaEntry → Option (List Line)
unfolding find_entry
unclassified_lines [] es = some []
unclassified_lines (key ∷ keys) es =
    cons_line (elim (find_entry key es) [ none ↦ none | some e ↦ some (unclassified_line e) ])
      (unclassified_lines keys es)

unfoldable pub covered_lines : List String → List DeltaEntry → List Line
covered_lines unclassified [] = []
covered_lines unclassified (e ∷ es) =
    let rest = covered_lines unclassified es in
    if member e.key unclassified then rest else covered_line e ∷ rest

unfoldable pub heading : List Labelled → List Labelled → List String → Line
heading [] violated unclassified = disproven_line (length violated) (length unclassified)
heading (u ∷ us) violated unclassified =
    indeterminate_line (length (u ∷ us)) (length violated) (length unclassified)

unfoldable pub add_lines : List Line → Option (List Line) → List Line → Option (List Line)
add_lines front none back = none
add_lines front (some middle) back = some (front ++ (middle ++ back))

unfoldable pub characterize :
    AssertionStatus
    → (satisfied violated unresolved : List Labelled) → FactDelta
    → (unclassified : List String) → Option (List Line)
unfolding add_lines heading covered_lines unclassified_lines entries
characterize satisfied_status satisfied violated unresolved delta unclassified =
    some (
      satisfied_line (length satisfied) (length (entries delta)) ∷ map covered_line (entries delta))
characterize _ satisfied violated unresolved delta unclassified =
    add_lines
      (heading unresolved violated unclassified
        ∷ (map unresolved_line unresolved ++ map violated_line violated))
      (unclassified_lines unclassified (entries delta)) (covered_lines unclassified (entries delta))
