-- ===== src/Envelope/Assertion/Changes.antt =====
-- The changes that `assert_envelope` leaves unclassified.
use windows_console_driver.Prelude.{
  All-map, String, ◌≡◌, refl, sym, ap, ◌∙◌, inl, inr, Bool, not, ◌&&◌, ◌||◌, List, [], ◌∷◌, ◌++◌,
  All, any, ◌==◌, string_eq, arith, Bool-cases,
}
use windows_console_driver.Prelude.Dict.{Dict, lookup}
use windows_console_driver.Envelope.{Facts, Envelope, member, predicted_keys, is_predicted}
use windows_console_driver.Envelope.Delta.{DeltaEntry, entries, category_of, compute_delta}
use windows_console_driver.Envelope.Delta.Exact.{
  changed_at, added_at, removed_at, has_key, add_key, delta_exact,
}
use windows_console_driver.Envelope.Assertion.{is_allowed, unclassified_keys}

any-append : {A : Type 0} (p : A → Bool) (xs ys : List A) → any p (xs ++ ys) ≡ any p xs || any p ys
any-append p [] ys = refl
any-append p (x ∷ xs) ys = ground (arith, any-append p xs ys)

-- The value of a key differs between the two states.
abbrev pub differs : Facts → Facts → String → Bool
differs pre post k =
    changed_at (lookup k pre) (lookup k post)
    || (added_at (lookup k pre) (lookup k post) || removed_at (lookup k pre) (lookup k post))

-- An allow clause names the category of the key, or a require or derive clause predicts the key.
abbrev pub is_covered : Envelope → Dict String → String → Bool
is_covered e categories k =
    is_allowed (category_of categories k) e.allows || is_predicted k (predicted_keys e)

has_key-entries :
    (pre post : Facts) (categories : Dict String) (k : String)
    → has_key k (entries (compute_delta pre post categories)) ≡ differs pre post k
unfolding entries
has_key-entries pre post categories k =
    let d = compute_delta pre post categories in
    let (c, a, r) = (delta_exact pre post categories k).0 in
    let first =
      any-append (λ e. e.key == k) d.changed_entries (d.added_entries ++ d.removed_entries) in
    let second = any-append (λ e. e.key == k) d.added_entries d.removed_entries in
    ground (arith, first, second, c, a, r)

module _ (e : Envelope) (categories : Dict String) where
  member-unclassified_keys :
      (k : String) (es : List DeltaEntry)
      → All (λ x. x.category ≡ category_of categories x.key) es
      → member k (unclassified_keys e.allows (predicted_keys e) es)
        ≡ has_key k es && not (is_covered e categories k)
  unfolding unclassified_keys
  member-unclassified_keys k [] h = refl
  member-unclassified_keys k (x ∷ es) (p, h) =
      add_key x.key k (λ j. not (is_covered e categories j)) _ _ (has_key k es)
        (elim (Bool-cases
          (is_allowed x.category e.allows || is_predicted x.key (predicted_keys e))) [
            | inl b ↦ let c = sym here ∙ b in rw (b, c) (ground arith)
            | inr b ↦ let c = sym here ∙ b in rw (b, c) (ground arith)
          ])
        (member-unclassified_keys k es h)
    where
      here :
          (is_allowed x.category e.allows || is_predicted x.key (predicted_keys e))
          ≡ is_covered e categories x.key
      here = ap (λ c. is_allowed c e.allows || is_predicted x.key (predicted_keys e)) p

  -- A key is unclassified exactly when its value differs and nothing covers it.
  pub unclassified_lem :
      (pre post : Facts) (k : String)
      → member k (
          unclassified_keys e.allows
            (predicted_keys e)
            (entries (compute_delta pre post categories)))
        ≡ differs pre post k && not (is_covered e categories k)
  unclassified_lem pre post k =
      member-unclassified_keys k (entries (compute_delta pre post categories)) recorded
      ∙ ap (λ b. b && not (is_covered e categories k)) (has_key-entries pre post categories k)
    where
      recorded :
          All
            (λ x. x.category ≡ category_of categories x.key)
            (entries (compute_delta pre post categories))
      recorded = All-map _ _ (λ x r. r.2) _ (delta_exact pre post categories k).1
