-- ===== src/Envelope/Delta.antt =====
-- src/wcd/envelope.py: `compute_delta`. An absent side of an entry, the sentinel MISSING, is `none`.
pub mod Exact
use Prim.Native.String
use Prim.Native.Nat.{Ordering}
use windows_console_driver.Prelude.{
  String, Bool, not, Option, none, some, List, [], ◌∷◌, ◌++◌, if◌then◌else◌,
}
use windows_console_driver.Prelude.Dict.{Dict, lookup}
use windows_console_driver.Value.{Value}
use windows_console_driver.Value.Compare.{py_eq}
use windows_console_driver.Envelope.{Facts}

pub data ChangeKind : Type 0 where
  changed added removed : ChangeKind

pub record DeltaEntry : Type 0 where
  pub key : String
  pub kind : ChangeKind
  pub before : Option Value
  pub after : Option Value
  pub category : String

pub record FactDelta : Type 0 where
  pub changed_entries : List DeltaEntry
  pub added_entries : List DeltaEntry
  pub removed_entries : List DeltaEntry

unfoldable pub entries : FactDelta → List DeltaEntry
entries d = d.changed_entries ++ (d.added_entries ++ d.removed_entries)

-- `sorted(set(pre) | set(post))`: one place for each key, in the order of the code points.
unfoldable pub insert_key : String → List String → List String
insert_key k [] = k ∷ []
insert_key k (j ∷ js) = elim (String.compare k j) [
  | Ordering.lt ↦ k ∷ (j ∷ js)
  | Ordering.eq ↦ j ∷ js
  | Ordering.gt ↦ j ∷ insert_key k js
]

unfoldable pub insert_keys {ℓ} : {V : Type ℓ} → Dict V → List String → List String
insert_keys [] ks = ks
insert_keys ((k, v) ∷ m) ks = insert_key k (insert_keys m ks)

unfoldable pub sorted_union {ℓ} : {V : Type ℓ} → Dict V → Dict V → List String
sorted_union a b = insert_keys a (insert_keys b [])

unfoldable pub category_of : Dict String → String → String
category_of categories key = elim (lookup key categories) [ none ↦ "unclassified" | some c ↦ c ]

abbrev pub entry : ChangeKind → String → String → Option Value → Option Value → DeltaEntry
entry kind category key before after = record {
  key = key;
  kind = kind;
  before = before;
  after = after;
  category = category;
}

-- One turn of the loop, for a key with its values before and after.
unfoldable pub add_entry : String → String → Option Value → Option Value → FactDelta → FactDelta
unfolding py_eq
add_entry key category (some a) (some b) d =
    if not (py_eq a b)
    then record d {
      changed_entries = entry changed category key (some a) (some b) ∷ d.changed_entries;
    }
    else d
add_entry key category none (some b) d = record d {
  added_entries = entry added category key none (some b) ∷ d.added_entries;
}
add_entry key category before none d = record d {
  removed_entries = entry removed category key before none ∷ d.removed_entries;
}

unfoldable pub delta_of : List String → Facts → Facts → Dict String → FactDelta
delta_of [] pre post categories = record {
  changed_entries = [];
  added_entries = [];
  removed_entries = [];
}
delta_of (key ∷ keys) pre post categories =
    add_entry key (category_of categories key) (lookup key pre) (lookup key post)
      (delta_of keys pre post categories)

unfoldable pub compute_delta : Facts → Facts → Dict String → FactDelta
compute_delta pre post categories = delta_of (sorted_union pre post) pre post categories
