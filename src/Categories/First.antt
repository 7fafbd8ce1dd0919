-- ===== src/Categories/First.antt =====
-- `declared_category`: the first rule that a key matches, or none.
use windows_console_driver.Prelude.{
  String, ◌≡◌, refl, ap, ◌⊎◌, inl, inr, Bool-cases, false, none, List, [], ◌∷◌, ◌++◌, All,
}
use windows_console_driver.Categories.Glob.{glob, Matches, glob-Matches_iff}
use windows_console_driver.Categories.{
  Declared, unclassified, Rule, first_match, fact_category_rules, declared_category,
}

-- The rule among `rules` that comes first of those whose pattern the key matches.
pub record IsFirst (rules : List Rule) (key : String) (r : Rule) : Type 0 where
  pub before : List Rule
  pub after : List Rule
  pub split : rules ≡ before ++ r ∷ after
  pub earlier : All (λ q. Matches q.pattern key → ⊥) before
  pub matches : Matches r.pattern key

-- What a table declares for a key: what its first matching rule says, or unclassified without one.
abbrev pub Declares : List Rule → String → Declared → Type 0
Declares rules key d =
    ((r : Rule) × IsFirst rules key r × (d ≡ r.declares))
    ⊎ (All (λ q. Matches q.pattern key → ⊥) rules × (d ≡ (unclassified, none)))

no_match : (p key : String) → glob p key ≡ false → Matches p key → ⊥
no_match p key h m = let e = (glob-Matches_iff p key).1 m in cc (h, e)

first_match-Declares :
    (rules : List Rule) (key : String) → Declares rules key (first_match rules key)
unfolding first_match
first_match-Declares [] key = inr (tt, refl)
first_match-Declares (r ∷ rs) key = elim (Bool-cases (glob r.pattern key)) [
  | inl h ↦ inl (
    r,
    record {
      before = [];
      after = rs;
      split = refl;
      earlier = tt;
      matches = (glob-Matches_iff r.pattern key).0 h;
    },
    rw (h, first_match) refl,
  )
  | inr h ↦ elim (first_match-Declares rs key) [
    | inl (q, f, d) ↦ inl (
      q,
      record {
        before = r ∷ f.before;
        after = f.after;
        split = ap (λ x. r ∷ x) f.split;
        earlier = (no_match r.pattern key h, f.earlier);
        matches = f.matches;
      },
      rw (h, first_match) d,
    )
    | inr (none_match, d) ↦ inr ((no_match r.pattern key h, none_match), rw (h, first_match) d)
  ]
]

-- The declared category of a key is that of the first rule of the table whose pattern the key matches,
-- a star of the pattern standing for any text; a key that matches none is unclassified.
pub declared_category-Declares :
    (key : String) → Declares fact_category_rules key (declared_category key)
unfolding declared_category
declared_category-Declares key = first_match-Declares fact_category_rules key
