-- ===== src/Categories/Glob.antt =====
-- `fnmatch.fnmatchcase` of src/gpo_observers/facts.py on patterns of literal characters and `*`, the only
-- ones in its table, and what it means for a text to match a pattern.
use Prim.Native.Char.{Char, code}
use Prim.Native.String.{String, [], ◌∷◌}
use mathlib.Core.Path.{subst}
use text.Mathlib.TextEquality.{Char-path}
use windows_console_driver.Prelude.{
  ◌≡◌, refl, sym, ◌∙◌, ◌↔◌, inl, inr, Bool, true, false, ◌&&◌, ◌||◌, eqb, eqb_iff, arith,
  Bool-cases,
}

abbrev pub is_star : Char → Bool
is_star c = eqb (code c) 42

unfoldable pub some_suffix : (String → Bool) → String → Bool
some_suffix f [] = f []
some_suffix f (c ∷ s) = f (c ∷ s) || some_suffix f s

unfoldable pub next_matches : Char → (String → Bool) → String → Bool
next_matches p f [] = false
next_matches p f (c ∷ s) = eqb (code p) (code c) && f s

unfoldable pub glob : String → String → Bool
unfolding some_suffix next_matches
glob [] [] = true
glob [] (c ∷ s) = false
glob (p ∷ ps) s = elim (is_star p) [
  | true ↦ some_suffix (λ t. glob ps t) s
  | false ↦ next_matches p (λ t. glob ps t) s
]

pub data Matches : String → String → Type 0 where
  at_end : Matches [] []
  literal : {ps s : String} (c : Char) → is_star c ≡ false → Matches ps s → Matches (c ∷ ps) (c ∷ s)
  star_ends : {ps s : String} (p : Char) → is_star p ≡ true → Matches ps s → Matches (p ∷ ps) s
  star_takes :
      {ps s : String} (p c : Char)
      → is_star p ≡ true
      → Matches (p ∷ ps) s
      → Matches (p ∷ ps) (c ∷ s)

suffix-Matches :
    (p : Char) (ps s : String) (f : String → Bool)
    → is_star p ≡ true
    → ((t : String) → f t ≡ true → Matches ps t)
    → some_suffix f s ≡ true
    → Matches (p ∷ ps) s
unfolding some_suffix
suffix-Matches p ps [] f h k e = star_ends p h (k [] e)
suffix-Matches p ps (c ∷ s) f h k e = elim (Bool-cases (f (c ∷ s))) [
  | inl b ↦ star_ends p h (k (c ∷ s) b)
  | inr b ↦ star_takes p c h (suffix-Matches p ps s f h k (ground (arith, b, e)))
]

next-Matches :
    (p : Char) (ps s : String) (f : String → Bool)
    → is_star p ≡ false
    → ((t : String) → f t ≡ true → Matches ps t)
    → next_matches p f s ≡ true
    → Matches (p ∷ ps) s
unfolding next_matches
next-Matches p ps [] f h k e = cc e
next-Matches p ps (c ∷ s) f h k e =
    let same : p ≡ c = Char-path p c ((eqb_iff (code p) (code c)).0 (ground (arith, e))) in
    subst (λ d. Matches (p ∷ ps) (d ∷ s)) same (literal p h (k s (ground (arith, e))))

glob-star :
    (p : Char) (ps s : String) → is_star p ≡ true → glob (p ∷ ps) s ≡ some_suffix (λ t. glob ps t) s
unfolding glob
glob-star p ps s h = rw (h, glob) refl

glob-literal :
    (p : Char) (ps s : String)
    → is_star p ≡ false
    → glob (p ∷ ps) s ≡ next_matches p (λ t. glob ps t) s
unfolding glob
glob-literal p ps s h = rw (h, glob) refl

glob-Matches : (p s : String) → glob p s ≡ true → Matches p s
unfolding glob
glob-Matches [] [] e = at_end
glob-Matches [] (c ∷ s) e = cc e
glob-Matches (p ∷ ps) s e = elim (Bool-cases (is_star p)) [
  | inl h ↦
      suffix-Matches p ps s (λ t. glob ps t) h (λ t. glob-Matches ps t)
        (sym (glob-star p ps s h) ∙ e)
  | inr h ↦
      next-Matches p ps s (λ t. glob ps t) h (λ t. glob-Matches ps t)
        (sym (glob-literal p ps s h) ∙ e)
]

suffix_here : (f : String → Bool) (s : String) → f s ≡ true → some_suffix f s ≡ true
unfolding some_suffix
suffix_here f [] h = h
suffix_here f (c ∷ s) h = ground (arith, h)

suffix_later :
    (f : String → Bool) (c : Char) (s : String)
    → some_suffix f s ≡ true
    → some_suffix f (c ∷ s) ≡ true
unfolding some_suffix
suffix_later f c s h = ground (arith, h)

next_here :
    (c : Char) (f : String → Bool) (s : String) → f s ≡ true → next_matches c f (c ∷ s) ≡ true
unfolding next_matches
next_here c f s h = let r = (eqb_iff (code c) (code c)).1 refl in ground (arith, h, r)

Matches-glob : {p s : String} → Matches p s → glob p s ≡ true
unfolding glob
Matches-glob at_end = refl
Matches-glob (literal {ps} {s} c h m) =
    glob-literal c ps (c ∷ s) h ∙ next_here c (λ t. glob ps t) s (Matches-glob m)
Matches-glob (star_ends {ps} {s} p h m) =
    glob-star p ps s h ∙ suffix_here (λ t. glob ps t) s (Matches-glob m)
Matches-glob (star_takes {ps} {s} p c h m) =
    glob-star p ps (c ∷ s) h
    ∙ suffix_later (λ t. glob ps t) c s (sym (glob-star p ps s h) ∙ Matches-glob m)

pub glob-Matches_iff : (p s : String) → (glob p s ≡ true) ↔ Matches p s
glob-Matches_iff p s = (glob-Matches p s, λ m. Matches-glob m)
