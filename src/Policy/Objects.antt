-- ===== src/Policy/Objects.antt =====
-- When two snapshots list the same policy objects.
use windows_console_driver.Prelude.{
  String, ◌≡◌, ◌↔◌, refl, sym, ap, ◌∙◌, Bool, true, false, not, ◌&&◌, ◌||◌, Option, none, some,
  List, [], ◌∷◌, ◌==◌, string_eq, eq_iff, arith, Bool-cases, inl, inr,
}
use windows_console_driver.Value.{Value, null, list, Items}
use windows_console_driver.Envelope.{member}
use windows_console_driver.Envelope.Delta.Exact.{member-insert_key}
use windows_console_driver.Policy.{is_clean}
use windows_console_driver.Policy.Scopes.{
  texts_of, sorted_difference, check_policies_container, objects_report,
}

member-sorted_difference :
    (x : String) (a b : List String)
    → member x (sorted_difference a b) ≡ member x a && not (member x b)
unfolding sorted_difference
member-sorted_difference x [] b = refl
member-sorted_difference x (y ∷ a) b =
    let ih = member-sorted_difference x a b in
    elim (Bool-cases (member y b)) [
      | inl inside ↦ rw inside (elim (Bool-cases (y == x)) [
        | inl same ↦
            let e : y ≡ x = (eq_iff y x).0 same in
            let there : member x b ≡ true = ap (λ z. member z b) (sym e) ∙ inside in
            ground (arith, ih, same, there)
        | inr other ↦ ground (arith, ih, other)
      ])
      | inr outside ↦ rw outside (elim (Bool-cases (y == x)) [
        | inl same ↦
            let e : y ≡ x = (eq_iff y x).0 same in
            let there : member x b ≡ false = ap (λ z. member z b) (sym e) ∙ outside in
            ground (arith, ih, same, there, member-insert_key x y (sorted_difference a b))
        | inr other ↦ ground (arith, ih, other, member-insert_key x y (sorted_difference a b))
      ])
    ]

-- The texts of both lists are the same set.
abbrev pub SameObjects : Option Value → Option Value → Type 0
SameObjects (some (list a)) (some (list b)) =
    (x : String) → member x (texts_of a) ≡ member x (texts_of b)
SameObjects _ _ = ⊥

is_clean-objects_report :
    (gained lost : List String)
    → (is_clean (objects_report gained lost) ≡ true)
      ↔ ((x : String) → member x gained || member x lost ≡ false)
is_clean-objects_report [] [] = (λ h x. refl, λ h. refl)
is_clean-objects_report (y ∷ gained) lost =
    (λ h x. absurd (cc h), λ h. absurd (ground (arith, h y, (eq_iff y y).1 refl)))
is_clean-objects_report [] (y ∷ lost) =
    (λ h x. absurd (cc h), λ h. absurd (ground (arith, h y, (eq_iff y y).1 refl)))

same_lem : (p q : Bool) → ((q && not p) || (p && not q) ≡ false) ↔ (p ≡ q)
same_lem true true = (λ h. refl, λ h. refl)
same_lem true false = (λ h. absurd (cc h), λ h. absurd (cc h))
same_lem false true = (λ h. absurd (cc h), λ h. absurd (cc h))
same_lem false false = (λ h. refl, λ h. refl)

differences_lem :
    (x : String) (a b : List String)
    → (member x (sorted_difference b a) || member x (sorted_difference a b))
      ≡ (member x b && not (member x a)) || (member x a && not (member x b))
differences_lem x a b =
    ground (arith, member-sorted_difference x b a, member-sorted_difference x a b)

objects_exact :
    (a b : Items)
    → (is_clean (check_policies_container (some (list a)) (some (list b))) ≡ true)
      ↔ SameObjects (some (list a)) (some (list b))
unfolding check_policies_container
objects_exact a b =
    let p = texts_of a in
    let q = texts_of b in
    let (there, back) = is_clean-objects_report (sorted_difference q p) (sorted_difference p q) in
    (
      λ h x. (same_lem (member x p) (member x q)).0 (sym (differences_lem x p q) ∙ there h x),
      λ h. back (λ x. differences_lem x p q ∙ (same_lem (member x p) (member x q)).1 (h x)),
    )

pub container_exact :
    (a b : Option Value) → (is_clean (check_policies_container a b) ≡ true) ↔ SameObjects a b
unfolding check_policies_container
container_exact none none = (λ h. absurd (cc h), λ h. absurd h)
container_exact none (some b) = (λ h. absurd (cc h), λ h. absurd h)
container_exact (some null) none = (λ h. absurd (cc h), λ h. absurd h)
container_exact (some a) none = (λ h. absurd (cc h), λ h. absurd h)
container_exact (some (list a)) (some (list b)) = objects_exact a b
container_exact (some (list a)) (some b) = (λ h. absurd (cc h), λ h. absurd h)
container_exact (some a) (some b) = (λ h. absurd (cc h), λ h. absurd h)
