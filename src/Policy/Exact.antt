-- ===== src/Policy/Exact.antt =====
-- When a policy delta is satisfied: every change covered, every forbid scope clean.
use windows_console_driver.Prelude.{
  String, ◌≡◌, ◌↔◌, refl, sym, ap, ◌∙◌, Bool, true, false, ◌&&◌, ◌||◌, Option, none, some, List, [],
  ◌∷◌, all, string_eq, arith, Bool-cases, inl, inr,
}
use windows_console_driver.Prelude.Dict.{lookup}
use windows_console_driver.Value.{Value}
use windows_console_driver.Value.Compare.{py_eq}
use windows_console_driver.Categories.{declared_category}
use windows_console_driver.Envelope.{Facts, member}
use windows_console_driver.Envelope.Delta.{ChangeKind, sorted_union}
use windows_console_driver.Envelope.Delta.Exact.{
  member-sorted_union, is_some, changed_at, added_at, removed_at,
}
use windows_console_driver.Envelope.Assertion.Changes.{differs}
use windows_console_driver.Policy.Forbids.{all-member, ForbidsClear, forbids_exact}
use windows_console_driver.Policy.{
  FactChange, add_change, DeltaOutcome, satisfiable, change_kind, changes_of, compute_changes,
  is_covered, cover,
}
use windows_console_driver.Policy.Scopes.{evaluate}

abbrev allows : List String → String → Bool
allows allowed key = is_covered (declared_category key).0 (declared_category key).1 allowed

abbrev settled_as : Option ChangeKind → Bool → Bool
settled_as none permitted = true
settled_as (some kind) permitted = permitted

abbrev is_settled : Facts → Facts → List String → String → Bool
is_settled pre post allowed key =
    settled_as (change_kind (lookup key pre) (lookup key post)) (allows allowed key)

cover-add_change :
    (kind : Option ChangeKind) (key : String) (before after : Option Value) (allowed : List String)
    (rest : List FactChange)
    → all (λ c. c.covered) (cover allowed (add_change kind key before after rest))
      ≡ (settled_as kind (allows allowed key) && all (λ c. c.covered) (cover allowed rest))
unfolding cover
cover-add_change none key before after allowed rest = refl
cover-add_change (some kind) key before after allowed rest = refl

covered-settled :
    (pre post : Facts) (allowed keys : List String)
    → all (λ c. c.covered) (cover allowed (changes_of keys pre post))
      ≡ all (is_settled pre post allowed) keys
unfolding changes_of cover
covered-settled pre post allowed [] = refl
covered-settled pre post allowed (key ∷ keys) =
    cover-add_change (change_kind (lookup key pre) (lookup key post)) key (lookup key pre)
      (lookup key post) allowed (changes_of keys pre post)
    ∙ ap (λ b. is_settled pre post allowed key && b) (covered-settled pre post allowed keys)

-- Every key whose value differs has a category that is allowed.
abbrev pub ChangesAllowed : Facts → Facts → List String → Type 0
ChangesAllowed pre post allowed =
    (key : String)
    → differs pre post key ≡ true
    → is_covered (declared_category key).0 (declared_category key).1 allowed ≡ true

settled-differs :
    (a b : Option Value) (permitted : Bool)
    → ((is_some a || is_some b) ≡ true → settled_as (change_kind a b) permitted ≡ true)
      ↔ ((changed_at a b || (added_at a b || removed_at a b)) ≡ true → permitted ≡ true)
settled-differs none none permitted = (λ h d. absurd (cc d), λ h d. absurd (cc d))
settled-differs none (some b) permitted = (λ h d. h refl, λ h d. h refl)
settled-differs (some a) none permitted = (λ h d. h refl, λ h d. h refl)
settled-differs (some a) (some b) permitted = elim (Bool-cases (py_eq a b)) [
  | inl same ↦ rw same (λ h d. absurd (cc d), λ h d. refl)
  | inr differ ↦ rw differ (λ h d. h refl, λ h d. h refl)
]

changes_exact :
    (pre post : Facts) (allowed : List String)
    → (all (λ c. c.covered) (cover allowed (compute_changes pre post)) ≡ true)
      ↔ ChangesAllowed pre post allowed
unfolding compute_changes
changes_exact pre post allowed =
    let e = covered-settled pre post allowed (sorted_union pre post) in
    let (there, back) = all-member (is_settled pre post allowed) (sorted_union pre post) in
    (
      λ h key.
          (settled-differs (lookup key pre) (lookup key post) (allows allowed key)).0
            (λ m. there (sym e ∙ h) key (member-sorted_union key pre post ∙ m)),
      λ h.
          e
          ∙ back (λ key m.
            (settled-differs (lookup key pre) (lookup key post) (allows allowed key)).1 (h key)
              (sym (member-sorted_union key pre post) ∙ m)),
    )

module _ (strip : String → String) (strip_chars : String → String → String)
    (upper : String → String) where
  -- An evaluation that does not allow `unclassified` has an outcome, which is satisfiable exactly when
  -- every key whose value differs has an allowed category, both extension lists are in the state
  -- without a forbidden identifier (if one is forbidden), every path is under the directory of the
  -- policy (if one is given), and both states list the same policy objects.
  pub evaluate_exact :
      (pre post : Facts) (allowed guids : List String) (gpo : Option String)
      → member "unclassified" allowed ≡ false
      → (o : DeltaOutcome) × (evaluate strip strip_chars upper pre post allowed guids gpo ≡ some o)
        × ((satisfiable o ≡ true) ↔ (
            ChangesAllowed pre post allowed
            × ForbidsClear strip strip_chars upper pre post guids gpo))
  unfolding evaluate satisfiable
  evaluate_exact pre post allowed guids gpo h =
      let (covered, uncovered) = changes_exact pre post allowed in
      let (clear, unclear) = forbids_exact strip strip_chars upper pre post guids gpo in
      rw h (
        _,
        refl,
        (
          λ s. (covered (ground (arith, s)), clear (ground (arith, s))),
          λ (c, f). ground (arith, uncovered c, unclear f),
        ),
      )
