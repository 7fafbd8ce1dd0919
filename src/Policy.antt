-- ===== src/Policy.antt =====
-- src/gpo_observers/delta.py: the changes between two snapshots and their coverage. Of a fact the
-- evaluation reads the value only. A violation keeps the parts of its text.
mod Scopes
mod Exact
mod Objects
mod Forbids
mod Tests
use windows_console_driver.Prelude.{
  ℕ, String, Bool, true, false, ◌&&◌, ◌||◌, Option, none, some, List, [], ◌∷◌, all, if◌then◌else◌,
}
use windows_console_driver.Prelude.Dict.{lookup}
use windows_console_driver.Value.{Value, null}
use windows_console_driver.Value.Compare.{py_eq}
use windows_console_driver.Categories.{
  FactCategory, structural, volatile, file_mtime, content, identity, unclassified,
  VolatileSubcategory, timestamps, replication_metadata, declared_category,
}
use windows_console_driver.Envelope.{Facts, member}
use windows_console_driver.Envelope.Delta.{ChangeKind, changed, added, removed, sorted_union}

pub record FactChange : Type 0 where
  pub key : String
  pub kind : ChangeKind
  pub before : Value
  pub after : Value
  pub category : FactCategory
  pub volatile_subcategory : Option VolatileSubcategory
  pub covered : Bool

pub data ForbidViolation : Type 0 where
  list_absent : (key : String) → ForbidViolation
  guid_listed : (token : String) → ForbidViolation
  paths_absent : ForbidViolation
  paths_outside : (count : ℕ) → (first : Value) → ForbidViolation
  objects_absent : (pre post : Bool) → ForbidViolation
  objects_malformed : ForbidViolation
  objects_differ : (gained lost : List String) → ForbidViolation

pub record DeltaOutcome : Type 0 where
  pub changes : List FactChange
  pub forbid_violations : List ForbidViolation
  pub allowed_categories : List String

abbrev pub is_clean : List ForbidViolation → Bool
is_clean [] = true
is_clean (v ∷ vs) = false

unfoldable pub satisfiable : DeltaOutcome → Bool
satisfiable o = all (λ c. c.covered) o.changes && is_clean o.forbid_violations

-- The change of a key, if it has one.
abbrev pub change_kind : Option Value → Option Value → Option ChangeKind
change_kind (some a) (some b) = if py_eq a b then none else some changed
change_kind none (some b) = some added
change_kind a none = some removed

abbrev pub value_or_null : Option Value → Value
value_or_null none = null
value_or_null (some v) = v

abbrev pub change_of : String → Option Value → Option Value → ChangeKind → FactChange
change_of key before after kind = record {
  key = key;
  kind = kind;
  before = value_or_null before;
  after = value_or_null after;
  category = (declared_category key).0;
  volatile_subcategory = (declared_category key).1;
  covered = false;
}

abbrev pub add_change :
    Option ChangeKind → String → Option Value → Option Value → List FactChange → List FactChange
add_change none key before after rest = rest
add_change (some kind) key before after rest = change_of key before after kind ∷ rest

unfoldable pub changes_of : List String → Facts → Facts → List FactChange
unfolding lookup py_eq declared_category
changes_of [] pre post = []
changes_of (key ∷ keys) pre post =
    add_change (change_kind (lookup key pre) (lookup key post)) key (lookup key pre)
      (lookup key post) (changes_of keys pre post)

unfoldable pub compute_changes : Facts → Facts → List FactChange
unfolding changes_of sorted_union
compute_changes pre post = changes_of (sorted_union pre post) pre post

abbrev pub category_name : FactCategory → String
category_name structural = "structural"
category_name volatile = "volatile"
category_name file_mtime = "file_mtime"
category_name content = "content"
category_name identity = "identity"
category_name unclassified = "unclassified"

abbrev pub subcategory_allowed : Option VolatileSubcategory → List String → Bool
subcategory_allowed none allowed = false
subcategory_allowed (some timestamps) allowed = member "timestamps" allowed
subcategory_allowed (some replication_metadata) allowed = member "replication_metadata" allowed

unfoldable pub is_covered : FactCategory → Option VolatileSubcategory → List String → Bool
is_covered unclassified subcategory allowed = false
is_covered volatile subcategory allowed =
    member "volatile" allowed || subcategory_allowed subcategory allowed
is_covered category subcategory allowed = member (category_name category) allowed

unfoldable pub cover : List String → List FactChange → List FactChange
unfolding is_covered
cover allowed [] = []
cover allowed (c ∷ cs) =
    record c { covered = is_covered c.category c.volatile_subcategory allowed } ∷ cover allowed cs
