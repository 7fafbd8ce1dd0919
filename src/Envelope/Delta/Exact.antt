-- ===== src/Envelope/Delta/Exact.antt =====
-- `compute_delta` on every key of the two states.
use Prim.Native.String
use Prim.Native.Nat.{Ordering}
use text.Mathlib.TextEquality.{path_by_compare}
use windows_console_driver.Prelude.{
  String, ◌≡◌, refl, sym, ap, ◌∙◌, inl, inr, ◌⊎◌, Bool, true, false, not, ◌&&◌, ◌||◌, Option, none,
  some, List, [], ◌∷◌, ◌++◌, All, All-append, any, ◌==◌, string_eq, eq_iff, arith, Bool-cases,
}
use windows_console_driver.Prelude.Dict.{Dict, lookup}
use windows_console_driver.Value.{Value}
use windows_console_driver.Value.Compare.{py_eq}
use windows_console_driver.Envelope.{Facts, member}
use windows_console_driver.Envelope.Delta.{
  ChangeKind, changed, added, removed, DeltaEntry, FactDelta, entries, insert_key, insert_keys,
  sorted_union, category_of, add_entry, delta_of, compute_delta,
}

abbrev pub is_some {ℓ} : {A : Type ℓ} → Option A → Bool
is_some none = false
is_some (some a) = true

same_text : (k j : String) → String.compare k j ≡ Ordering.eq → (j == k) ≡ true
same_text k j h = (eq_iff j k).1 (sym (path_by_compare k j h))

Ordering-cases : (o : Ordering) → (o ≡ Ordering.lt) ⊎ ((o ≡ Ordering.eq) ⊎ (o ≡ Ordering.gt))
Ordering-cases Ordering.lt = inl refl
Ordering-cases Ordering.eq = inr (inl refl)
Ordering-cases Ordering.gt = inr (inr refl)

pub member-insert_key :
    (x k : String) (ks : List String) → member x (insert_key k ks) ≡ (k == x) || member x ks
unfolding insert_key
member-insert_key x k [] = refl
member-insert_key x k (j ∷ js) = elim (Ordering-cases (String.compare k j)) [
  | inl h ↦ rw (h, insert_key) refl
  | inr (inl h) ↦ rw (h, insert_key) (ground (arith, eq_iff j x, eq_iff k x, path_by_compare k j h))
  | inr (inr h) ↦ rw (h, insert_key) (ground (arith, member-insert_key x k js))
]

member-insert_keys {ℓ} :
    {V : Type ℓ} (x : String) (m : Dict V) (ks : List String)
    → member x (insert_keys m ks) ≡ is_some (lookup x m) || member x ks
unfolding insert_keys lookup
member-insert_keys x [] ks = refl
member-insert_keys x ((k, v) ∷ m) ks =
    ground (arith, member-insert_key x k (insert_keys m ks), member-insert_keys x m ks)

pub member-sorted_union {ℓ} :
    {V : Type ℓ} (x : String) (a b : Dict V)
    → member x (sorted_union a b) ≡ is_some (lookup x a) || is_some (lookup x b)
unfolding sorted_union
member-sorted_union x a b =
    ground (arith, member-insert_keys x a (insert_keys b []), member-insert_keys x b [])

-- What a key should contribute, from its values before and after.
abbrev pub changed_at : Option Value → Option Value → Bool
changed_at (some a) (some b) = not (py_eq a b)
changed_at _ _ = false

abbrev pub added_at : Option Value → Option Value → Bool
added_at none (some b) = true
added_at _ _ = false

abbrev pub removed_at : Option Value → Option Value → Bool
removed_at (some a) none = true
removed_at _ _ = false

-- The kind of a change, by the sides that have a value.
abbrev pub kind_at : Option Value → Option Value → ChangeKind
kind_at (some a) (some b) = changed
kind_at none (some b) = added
kind_at before none = removed

abbrev pub has_key : String → List DeltaEntry → Bool
has_key k es = any (λ e. e.key == k) es

abbrev is_none : Option Value → Bool
is_none none = true
is_none (some a) = false

add_entry-keys :
    (k key category : String) (o p : Option Value) (d : FactDelta)
    → (has_key k (add_entry key category o p d).changed_entries
        ≡ (key == k && changed_at o p) || has_key k d.changed_entries)
      × (has_key k (add_entry key category o p d).added_entries
          ≡ (key == k && added_at o p) || has_key k d.added_entries)
      × (has_key k (add_entry key category o p d).removed_entries
          ≡ (key == k && is_none p) || has_key k d.removed_entries)
unfolding add_entry
add_entry-keys k key category (some a) (some b) d = elim (Bool-cases (py_eq a b)) [
  | inl h ↦ rw h (ground arith)
  | inr h ↦ rw h (ground arith)
]
add_entry-keys k key category none (some b) d = ground arith
add_entry-keys k key category (some a) none d = ground arith
add_entry-keys k key category none none d = ground arith

-- One more key, for a test `f` of keys.
pub add_key :
    (key k : String) (f : String → Bool) (here rest m : Bool)
    → here ≡ (key == k && f key) || rest
    → rest ≡ m && f k
    → here ≡ ((key == k) || m) && f k
add_key key k f here rest m p q = elim (Bool-cases (key == k)) [
  | inl h ↦ let e : f key ≡ f k = ap f ((eq_iff key k).0 h) in ground (arith, e)
  | inr h ↦ ground arith
]

module _ (pre post : Facts) (categories : Dict String) where
  delta_of-keys :
      (k : String) (keys : List String)
      → (has_key k (delta_of keys pre post categories).changed_entries
          ≡ member k keys && changed_at (lookup k pre) (lookup k post))
        × (has_key k (delta_of keys pre post categories).added_entries
            ≡ member k keys && added_at (lookup k pre) (lookup k post))
        × (has_key k (delta_of keys pre post categories).removed_entries
            ≡ member k keys && is_none (lookup k post))
  unfolding delta_of
  delta_of-keys k [] = (refl, refl, refl)
  delta_of-keys k (key ∷ keys) =
      let (c, a, r) =
        add_entry-keys k key (category_of categories key) (lookup key pre) (lookup key post)
          (delta_of keys pre post categories) in
      let (cs, as', rs) = delta_of-keys k keys in
      (
        add_key key k (λ x. changed_at (lookup x pre) (lookup x post)) _ _ (member k keys) c cs,
        add_key key k (λ x. added_at (lookup x pre) (lookup x post)) _ _ (member k keys) a as',
        add_key key k (λ x. is_none (lookup x post)) _ _ (member k keys) r rs,
      )

  -- An entry tells the two values of its key and the declared category.
  abbrev Records : DeltaEntry → Type 0
  Records e =
      (e.before ≡ lookup e.key pre)
      × (e.after ≡ lookup e.key post)
      × (e.category ≡ category_of categories e.key)
      × (e.kind ≡ kind_at (lookup e.key pre) (lookup e.key post))

  add_entry-Records :
      (key : String) (o p : Option Value) (d : FactDelta)
      → lookup key pre ≡ o
      → lookup key post ≡ p
      → All Records d.changed_entries × All Records d.added_entries × All Records d.removed_entries
      → let next = add_entry key (category_of categories key) o p d in
        All Records next.changed_entries
        × All Records next.added_entries
        × All Records next.removed_entries
  unfolding add_entry
  add_entry-Records key (some a) (some b) d h k all = elim (Bool-cases (py_eq a b)) [
    | inl e ↦ rw e all
    | inr e ↦ rw e (((sym h, sym k, refl, rw (h, k) refl), all.0), all.1, all.2)
  ]
  add_entry-Records key none (some b) d h k all =
      (all.0, ((sym h, sym k, refl, rw (h, k) refl), all.1), all.2)
  add_entry-Records key (some a) none d h k all =
      (all.0, all.1, ((sym h, sym k, refl, rw (h, k) refl), all.2))
  add_entry-Records key none none d h k all =
      (all.0, all.1, ((sym h, sym k, refl, rw (h, k) refl), all.2))

  delta_of-Records :
      (keys : List String)
      → let d = delta_of keys pre post categories in
        All Records d.changed_entries × All Records d.added_entries × All Records d.removed_entries
  unfolding delta_of
  delta_of-Records [] = (tt, tt, tt)
  delta_of-Records (key ∷ keys) =
      add_entry-Records key (lookup key pre) (lookup key post) (delta_of keys pre post categories)
        refl refl (delta_of-Records keys)

  -- A key has an entry among the changed, the added or the removed ones exactly when its value changed,
  -- came or went; every entry carries the values of its key on the two sides, the declared category, and
  -- the kind: changed where both sides have a value, added where only the one after, else removed.
  pub delta_exact :
      (k : String)
      → ((has_key k (compute_delta pre post categories).changed_entries
            ≡ changed_at (lookup k pre) (lookup k post))
          × (has_key k (compute_delta pre post categories).added_entries
              ≡ added_at (lookup k pre) (lookup k post))
          × (has_key k (compute_delta pre post categories).removed_entries
              ≡ removed_at (lookup k pre) (lookup k post)))
        × All Records (entries (compute_delta pre post categories))
  unfolding compute_delta entries
  delta_exact k =
      let keys = sorted_union pre post in
      let d = delta_of keys pre post categories in
      let (c, a, r) = delta_of-keys k keys in
      let (rc, ra, rr) = delta_of-Records keys in
      let u = member-sorted_union k pre post in
      (
        (
          c ∙ rw u (kept (lookup k pre) (lookup k post)),
          a ∙ rw u (both (lookup k pre) (lookup k post)),
          r ∙ rw u (gone (lookup k pre) (lookup k post)),
        ),
        All-append Records d.changed_entries (d.added_entries ++ d.removed_entries) rc
            (All-append Records d.added_entries d.removed_entries ra rr),
      )
    where
      kept : (o p : Option Value) → ((is_some o || is_some p) && changed_at o p) ≡ changed_at o p
      kept none none = refl
      kept none (some b) = refl
      kept (some a) none = refl
      kept (some a) (some b) = refl

      both : (o p : Option Value) → ((is_some o || is_some p) && added_at o p) ≡ added_at o p
      both none none = refl
      both none (some b) = refl
      both (some a) none = refl
      both (some a) (some b) = refl

      gone : (o p : Option Value) → ((is_some o || is_some p) && is_none p) ≡ removed_at o p
      gone none none = refl
      gone none (some b) = refl
      gone (some a) none = refl
      gone (some a) (some b) = refl
