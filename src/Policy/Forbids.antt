-- ===== src/Policy/Forbids.antt =====
-- When the forbid scopes of a policy delta are clean.
use mathlib.Core.List.{◌++◌ as ◌++L◌}
use Prim.Native.String.{◌++◌}
use windows_console_driver.Prelude.{
  String, ◌≡◌, ◌↔◌, refl, sym, ap, ◌∙◌, Bool, true, false, not, ◌&&◌, Option, none, some, List, [],
  ◌∷◌, any, all, ◌==◌, string_eq, eq_iff, arith, Bool-cases, inl, inr,
}
use windows_console_driver.Prelude.Dict.{lookup}
use windows_console_driver.Value.{Value, list, Items, no_items, item}
use windows_console_driver.Envelope.{Facts, member}
use windows_console_driver.Envelope.Delta.Exact.{is_some}
use windows_console_driver.Policy.Objects.{SameObjects, container_exact}
use windows_console_driver.Policy.{ForbidViolation, is_clean}
use windows_console_driver.Policy.Scopes.{
  check_policies_container, list_text, list_missing, occurs, braced, listed_guids,
  check_extension_lists, is_contained, escapers, escaper_report, contain_paths,
  check_sysvol_containment, check_forbids, machine_list, user_list, paths_key, objects_key,
}

is_clean-append :
    (xs ys : List ForbidViolation) → is_clean (xs ++L ys) ≡ (is_clean xs && is_clean ys)
is_clean-append [] ys = refl
is_clean-append (x ∷ xs) ys = refl

pub all-member :
    (p : String → Bool) (keys : List String)
    → (all p keys ≡ true) ↔ ((k : String) → member k keys ≡ true → p k ≡ true)
all-member p [] = (λ h k m. absurd (cc m), λ h. refl)
all-member p (key ∷ keys) =
    let (there, back) = all-member p keys in
    (
      λ h k m. elim (Bool-cases (key == k)) [
        | inl same ↦ let e : key ≡ k = (eq_iff key k).0 same in ground (arith, ap p e, h)
        | inr other ↦ there (ground (arith, h)) k (ground (arith, m, other))
      ],
      λ h.
          let first : p key ≡ true = h key (ground (arith, (eq_iff key key).1 refl)) in
          let rest : all p keys ≡ true = back (λ k m. h k (ground (arith, m))) in
          ground (arith, first, rest),
    )

all-and :
    (m u : Bool) (p : String → Bool) (g : String) (gs : List String)
    → (m && (u && all p (g ∷ gs))) ≡ all (λ k. m && (u && p k)) (g ∷ gs)
all-and false u p g gs = refl
all-and true false p g gs = refl
all-and true true p g gs = refl

module _ (strip : String → String) (strip_chars : String → String → String)
    (upper : String → String) where
  -- No text of an extension list of the state has the identifier.
  abbrev pub is_unlisted : Option Value → Option Value → String → Bool
  is_unlisted machine user guid = not (
      any (occurs strip strip_chars upper (braced strip strip_chars upper guid))
        (list_text strip strip_chars upper machine ++L list_text strip strip_chars upper user))

  listed_guids_lem :
      (guids values : List String)
      → is_clean (listed_guids strip strip_chars upper guids values)
        ≡ all
            (λ g.
              not (any (occurs strip strip_chars upper (braced strip strip_chars upper g)) values))
            guids
  unfolding listed_guids
  listed_guids_lem [] values = refl
  listed_guids_lem (g ∷ guids) values =
      elim (Bool-cases
        (any (occurs strip strip_chars upper (braced strip strip_chars upper g)) values)) [
          | inl h ↦ rw h refl
          | inr h ↦ rw h (listed_guids_lem guids values)
        ]

  is_clean-list_missing :
      (key : String) (o : Option Value) (rest : List ForbidViolation)
      → is_clean (list_missing strip strip_chars upper key o rest) ≡ is_some o && is_clean rest
  is_clean-list_missing key none rest = refl
  is_clean-list_missing key (some v) rest = refl

  -- Both extension lists are in the state, and no forbidden identifier is in them.
  abbrev pub ExtensionsClear : Facts → List String → Type 0
  ExtensionsClear post guids =
      (guid : String)
      → member guid guids ≡ true
      → is_some (lookup machine_list post)
          && (is_some (lookup user_list post)
              && is_unlisted (lookup machine_list post) (lookup user_list post) guid)
        ≡ true

  extensions_lem :
      (post : Facts) (guids : List String)
      → is_clean (check_extension_lists strip strip_chars upper post guids)
        ≡ all
            (λ g.
              is_some (lookup machine_list post)
              && (is_some (lookup user_list post)
                  && is_unlisted (lookup machine_list post) (lookup user_list post) g))
            guids
  unfolding check_extension_lists
  extensions_lem post [] = refl
  extensions_lem post (g ∷ guids) =
      let m = lookup machine_list post in
      let u = lookup user_list post in
      let values = list_text strip strip_chars upper m ++L list_text strip strip_chars upper u in
      let listed = listed_guids strip strip_chars upper (g ∷ guids) values in
      is_clean-list_missing machine_list m (list_missing strip strip_chars upper user_list u listed)
      ∙ ap (λ b. is_some m && b) (is_clean-list_missing user_list u listed)
      ∙ ap (λ b. is_some m && (is_some u && b)) (listed_guids_lem (g ∷ guids) values)
      ∙ all-and (is_some m) (is_some u) (is_unlisted m u) g guids

  extensions_exact :
      (post : Facts) (guids : List String)
      → (is_clean (check_extension_lists strip strip_chars upper post guids) ≡ true)
        ↔ ExtensionsClear post guids
  extensions_exact post guids =
      let e = extensions_lem post guids in
      let (there, back) =
        all-member
          (λ g.
            is_some (lookup machine_list post)
            && (is_some (lookup user_list post)
                && is_unlisted (lookup machine_list post) (lookup user_list post) g))
          guids in
      (λ h. there (sym e ∙ h), λ h. e ∙ back h)

  abbrev pub all_contained : String → Items → Bool
  all_contained prefix no_items = true
  all_contained prefix (item v vs) =
      is_contained strip strip_chars upper prefix v && all_contained prefix vs

  -- The state has a list of paths, and all are under the directory of the policy.
  abbrev pub has_contained : String → Option Value → Bool
  has_contained prefix (some (list vs)) = all_contained prefix vs
  has_contained prefix _ = false

  abbrev pub is_inside : Facts → Option String → Bool
  is_inside post none = true
  is_inside post (some guid) =
      has_contained (braced strip strip_chars upper guid ++ "/") (lookup paths_key post)

  escapers_lem :
      (prefix : String) (vs : Items)
      → is_clean
          (escaper_report strip strip_chars upper (escapers strip strip_chars upper prefix vs))
        ≡ all_contained prefix vs
  unfolding escapers
  escapers_lem prefix no_items = refl
  escapers_lem prefix (item v vs) =
      elim (Bool-cases (is_contained strip strip_chars upper prefix v)) [
        | inl h ↦ rw h (escapers_lem prefix vs)
        | inr h ↦ rw h refl
      ]

  contained_lem :
      (prefix : String) (o : Option Value)
      → is_clean (contain_paths strip strip_chars upper prefix o) ≡ has_contained prefix o
  contained_lem prefix none = refl
  contained_lem prefix (some (list vs)) = escapers_lem prefix vs
  contained_lem prefix (some v) = refl

  containment_exact :
      (post : Facts) (gpo : Option String)
      → is_clean (check_sysvol_containment strip strip_chars upper post gpo) ≡ is_inside post gpo
  unfolding check_sysvol_containment
  containment_exact post none = refl
  containment_exact post (some guid) =
      contained_lem (braced strip strip_chars upper guid ++ "/") (lookup paths_key post)

  -- Every forbid scope is clean.
  abbrev pub ForbidsClear : Facts → Facts → List String → Option String → Type 0
  ForbidsClear pre post guids gpo =
      ExtensionsClear post guids
      × (is_inside post gpo ≡ true × SameObjects (lookup objects_key pre) (lookup objects_key post))

  pub forbids_exact :
      (pre post : Facts) (guids : List String) (gpo : Option String)
      → (is_clean (check_forbids strip strip_chars upper pre post guids gpo) ≡ true)
        ↔ ForbidsClear pre post guids gpo
  unfolding check_forbids
  forbids_exact pre post guids gpo =
      let a = check_extension_lists strip strip_chars upper post guids in
      let b = check_sysvol_containment strip strip_chars upper post gpo in
      let c = check_policies_container (lookup objects_key pre) (lookup objects_key post) in
      let whole = is_clean-append a (b ++L c) ∙ ap (λ z. is_clean a && z) (is_clean-append b c) in
      let (clear, unclear) = extensions_exact post guids in
      let inside = containment_exact post gpo in
      let (same, unsame) = container_exact (lookup objects_key pre) (lookup objects_key post) in
      (
        λ h. (
          clear (ground (arith, whole, h)),
          (sym inside ∙ ground (arith, whole, h), same (ground (arith, whole, h))),
        ),
        λ (e, (i, s)). whole ∙ ground (arith, unclear e, inside ∙ i, unsame s),
      )
