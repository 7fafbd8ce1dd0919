-- ===== src/Envelope/Parsing/Accepted.antt =====
-- What an envelope that `parse_envelope` returns has.
use Prim.Native.String
use mathlib.Core.Path.{subst}
use windows_console_driver.Prelude.{
  ℕ, zero, suc, ◌≤◌, String, ◌≡◌, refl, Bool, true, false, Option, none, some, List, [], ◌∷◌, All,
  arith, ltb, string_eq, if-elim,
}
use windows_console_driver.Prelude.Results.{Result, ok, err, Ensures, bind-Ensures, after-Ensures}
use windows_console_driver.Prelude.Int.{pos, negsuc}
use windows_console_driver.Value.{
  Value, null, boolean, int, str, list, tuple, dict, Items, no_items, item, Fields, find_field,
}
use windows_console_driver.Predicate.{
  Expr, Predicate, Refusal, SyntaxFault, max_ast_nodes, max_predicate_length, validate, checked,
  parsed, compile_predicate,
}
use windows_console_driver.Envelope.{ConvergencePolicy, Envelope, normalized_keys}
use windows_console_driver.Envelope.Parsing.{
  ClauseKind, require_kind, forbid_kind, derive_kind, EnvelopeFault, Parsed, unknown_keys, closed,
  sequence, text_of, pair, parse_entries, no_keys_error, is_nonempty, positive, parse_convergence,
  is_blank, compiled, predicate_of, name_of, parse_require, parse_allow, parse_forbid, parse_derive,
  parse_list, parse_envelope,
}

pub closed-Ensures :
    {E A : Type 0} (P : A → Type 0) (ks : List String) (fault : List String → E) (r : Result E A)
    → Ensures P r
    → Ensures P (closed ks fault r)
closed-Ensures P [] fault r h = h
closed-Ensures P (k ∷ ks) fault r h = tt

pub parse_entries-Ensures :
    {E A : Type 0} (P : A → Type 0) (one : ℕ → Value → Result E A)
    → ((i : ℕ) (v : Value) → Ensures P (one i v))
    → (i : ℕ) (vs : Items) → Ensures (All P) (parse_entries one i vs)
unfolding parse_entries
parse_entries-Ensures P one h i no_items = tt
parse_entries-Ensures P one h i (item v vs) = bind-Ensures P (All P) (one i v) _ (h i v) (λ a p.
    bind-Ensures (All P) (All P) (parse_entries one (suc i) vs) _
      (parse_entries-Ensures P one h (suc i) vs) (λ as' ps. (p, ps)))

-- The validator accepts the predicate, within the bound on the nodes.
abbrev pub IsAccepted : Predicate → Type 0
IsAccepted p = (n : ℕ) × (validate p.expression 0 ≡ ok n) × (n ≤ max_ast_nodes)

module _ (parse : String → Option Expr) (strip : String → String) where
  compile_predicate-Ensures :
      (s : String) → Ensures IsAccepted (compile_predicate parse (is_blank parse strip) s)
  unfolding compile_predicate parsed checked
  compile_predicate-Ensures s =
      if-elim (Ensures IsAccepted) (is_blank parse strip s) (λ b. tt)
        (λ b.
          if-elim (Ensures IsAccepted) (ltb max_predicate_length (String.count s)) (λ c. tt)
            (λ c. by_tree (parse s)))
    where
      by_count :
          (e : Expr) (r : Result Refusal ℕ)
          → validate e 0 ≡ r
          → Ensures IsAccepted (checked parse (is_blank parse strip) s e r)
      by_count e (err x) h = tt
      by_count e (ok n) h =
          if-elim (Ensures IsAccepted) (ltb max_ast_nodes n) (λ b. tt)
            (λ b. (n, h, ground (arith, b)))

      by_tree : (o : Option Expr) → Ensures IsAccepted (parsed parse (is_blank parse strip) s o)
      by_tree none = tt
      by_tree (some e) = by_count e (validate e 0) refl

  predicate_of-Ensures :
      (kind : ClauseKind) (i : ℕ) (o : Option Value)
      → Ensures IsAccepted (predicate_of parse strip kind i o)
  unfolding predicate_of
  predicate_of-Ensures kind i o = after-Ensures IsAccepted (text_of kind i o) _ (λ s.
      by_result (compile_predicate parse (is_blank parse strip) s) (compile_predicate-Ensures s))
    where
      by_result :
          (r : Result SyntaxFault Predicate)
          → Ensures IsAccepted r
          → Ensures IsAccepted (compiled parse strip r)
      by_result (ok p) h = h
      by_result (err f) h = tt

  parse_require-Ensures :
      (i : ℕ) (v : Value) → Ensures (λ c. IsAccepted c.predicate) (parse_require parse strip i v)
  unfolding parse_require
  parse_require-Ensures i v = after-Ensures _ (pair require_kind i "fact" "predicate" v) _ (λ both.
      after-Ensures _ (name_of parse strip _ require_kind i (some both.0)) _ (λ key.
        bind-Ensures IsAccepted _ (predicate_of parse strip require_kind i (some both.1)) _
          (predicate_of-Ensures require_kind i (some both.1)) (λ p h. h)))

  parse_forbid-Ensures :
      (i : ℕ) (v : Value) → Ensures (λ c. IsAccepted c.predicate) (parse_forbid parse strip i v)
  unfolding parse_forbid
  parse_forbid-Ensures i v = after-Ensures _ (pair forbid_kind i "scope" "predicate" v) _ (λ both.
      after-Ensures _ (name_of parse strip _ forbid_kind i (some both.0)) _ (λ key.
        bind-Ensures IsAccepted _ (predicate_of parse strip forbid_kind i (some both.1)) _
          (predicate_of-Ensures forbid_kind i (some both.1)) (λ p h. h)))

  parse_derive-Ensures :
      (i : ℕ) (v : Value) → Ensures (λ c. IsAccepted c.relation) (parse_derive parse strip i v)
  unfolding parse_derive
  parse_derive-Ensures i (dict fs) = closed-Ensures _ (unknown_keys ("relation" ∷ []) fs) _ _ (
      bind-Ensures IsAccepted _ (predicate_of parse strip derive_kind i (find_field "relation" fs))
        _ (predicate_of-Ensures derive_kind i (find_field "relation" fs)) (λ p h. h))
  parse_derive-Ensures i null = tt
  parse_derive-Ensures i (boolean b) = tt
  parse_derive-Ensures i (int n) = tt
  parse_derive-Ensures i (str s) = tt
  parse_derive-Ensures i (list vs) = tt
  parse_derive-Ensures i (tuple vs) = tt

  parse_list-Ensures :
      {A : Type 0} (P : A → Type 0) (one : ℕ → Value → Parsed A)
      → ((i : ℕ) (v : Value) → Ensures P (one i v))
      → (o : Option Value) → Ensures (All P) (parse_list parse strip one o)
  unfolding parse_list
  parse_list-Ensures P one h o =
      after-Ensures (All P) (sequence o) _ (λ vs. parse_entries-Ensures P one h 0 vs)

  -- An envelope that the parser returns.
  pub record IsWellFormed (e : Envelope) : Type 0 where
    pub requires_accepted : All (λ c. IsAccepted c.predicate) e.requires
    pub forbids_accepted : All (λ c. IsAccepted c.predicate) e.forbids
    pub derives_accepted : All (λ c. IsAccepted c.relation) e.derives
    pub observes : is_nonempty (normalized_keys e) ≡ true
    pub window_positive : 1 ≤ e.convergence.window_seconds
    pub poll_positive : 1 ≤ e.convergence.poll_seconds
    pub reproduces : 1 ≤ e.convergence.reproduce

  abbrev IsPositive : ConvergencePolicy → Type 0
  IsPositive c = (1 ≤ c.window_seconds) × (1 ≤ c.poll_seconds) × (1 ≤ c.reproduce)

  positive-Ensures :
      (default : ℕ) (fault : EnvelopeFault) (o : Option Value)
      → 1 ≤ default
      → Ensures (λ n. 1 ≤ n) (positive default fault o)
  unfolding positive
  positive-Ensures default fault none h = h
  positive-Ensures default fault (some (int (pos (suc n)))) h = omega arith
  positive-Ensures default fault (some (int (pos zero))) h = tt
  positive-Ensures default fault (some (int (negsuc n))) h = tt
  positive-Ensures default fault (some null) h = tt
  positive-Ensures default fault (some (boolean b)) h = tt
  positive-Ensures default fault (some (str s)) h = tt
  positive-Ensures default fault (some (list vs)) h = tt
  positive-Ensures default fault (some (tuple vs)) h = tt
  positive-Ensures default fault (some (dict fs)) h = tt

  parse_convergence-Ensures : (o : Option Value) → Ensures IsPositive (parse_convergence o)
  unfolding parse_convergence
  parse_convergence-Ensures none = (omega arith, omega arith, omega arith)
  parse_convergence-Ensures (some null) = (omega arith, omega arith, omega arith)
  parse_convergence-Ensures (some (dict fs)) = closed-Ensures IsPositive _ _ _ (
      bind-Ensures (λ n. 1 ≤ n) IsPositive (positive 90 _ (find_field "window_seconds" fs)) _
        (positive-Ensures 90 _ (find_field "window_seconds" fs) (omega arith))
        (λ window w.
          bind-Ensures (λ n. 1 ≤ n) IsPositive (positive 5 _ (find_field "poll_seconds" fs)) _
            (positive-Ensures 5 _ (find_field "poll_seconds" fs) (omega arith))
            (λ poll p.
              bind-Ensures (λ n. 1 ≤ n) IsPositive (positive 2 _ (find_field "reproduce" fs)) _
                (positive-Ensures 2 _ (find_field "reproduce" fs) (omega arith))
                (λ reproduce r. (w, p, r)))))
  parse_convergence-Ensures (some (boolean b)) = tt
  parse_convergence-Ensures (some (int n)) = tt
  parse_convergence-Ensures (some (str s)) = tt
  parse_convergence-Ensures (some (list vs)) = tt
  parse_convergence-Ensures (some (tuple vs)) = tt

  parse_envelope-Ensures : (raw : Fields) → Ensures IsWellFormed (parse_envelope parse strip raw)
  unfolding parse_envelope
  parse_envelope-Ensures raw = closed-Ensures IsWellFormed _ _ _ (
      bind-Ensures (All (λ c. IsAccepted c.predicate)) IsWellFormed
        (parse_list parse strip (parse_require parse strip) (find_field "require" raw)) _
        (parse_list-Ensures _ _ parse_require-Ensures (find_field "require" raw))
        (λ requires r.
          after-Ensures IsWellFormed
            (parse_list parse strip (parse_allow parse strip) (find_field "allow" raw)) _
            (λ allows.
              bind-Ensures (All (λ c. IsAccepted c.predicate)) IsWellFormed
                (parse_list parse strip (parse_forbid parse strip) (find_field "forbid" raw)) _
                (parse_list-Ensures _ _ parse_forbid-Ensures (find_field "forbid" raw))
                (λ forbids f.
                  bind-Ensures (All (λ c. IsAccepted c.relation)) IsWellFormed
                    (parse_list parse strip (parse_derive parse strip) (find_field "derive" raw)) _
                    (parse_list-Ensures _ _ parse_derive-Ensures (find_field "derive" raw))
                    (λ derives d.
                      bind-Ensures IsPositive IsWellFormed
                        (parse_convergence (find_field "convergence" raw)) _
                        (parse_convergence-Ensures (find_field "convergence" raw))
                        (λ convergence c. finished _ r f d c))))))
    where
      finished :
          (e : Envelope)
          → All (λ c. IsAccepted c.predicate) e.requires
          → All (λ c. IsAccepted c.predicate) e.forbids
          → All (λ c. IsAccepted c.relation) e.derives
          → IsPositive e.convergence
          → Ensures IsWellFormed (no_keys_error (is_nonempty (normalized_keys e)) e)
      finished e r f d c = by_keys (is_nonempty (normalized_keys e)) refl
        where
          by_keys :
              (b : Bool)
              → is_nonempty (normalized_keys e) ≡ b
              → Ensures IsWellFormed (no_keys_error b e)
          by_keys false h = tt
          by_keys true h = record {
            requires_accepted = r;
            forbids_accepted = f;
            derives_accepted = d;
            observes = h;
            window_positive = c.0;
            poll_positive = c.1;
            reproduces = c.2;
          }

  -- An envelope that the parser returns tracks at least one fact, has a positive window, poll interval and
  -- number of reproductions, and each predicate in it is one that the validator accepts, of at most 128
  -- nodes.
  pub parse_envelope-IsWellFormed :
      (raw : Fields) (e : Envelope) → parse_envelope parse strip raw ≡ ok e → IsWellFormed e
  parse_envelope-IsWellFormed raw e h = subst (Ensures IsWellFormed) h (parse_envelope-Ensures raw)
