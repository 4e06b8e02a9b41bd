-- ===== src/Sso/Parser/Correct.antt =====
-- The parser of app/services/access/sso/condition.go against the grammar: precedence, grouping and
-- negation, and what it makes of conditions that end early.
use goravel_mine.Base.{
  ℕ, zero, suc, ◌≡◌, refl, ap, subst, Bool, true, false, not, ◌&&◌, ◌||◌, none, some, List, [], ◌∷◌,
  arith, &&-eq_true,
}
use goravel_mine.Base.Texts.{Text, codes}
use goravel_mine.Base.Eq.{nat_eq, list_eq, list_beq}
use goravel_mine.Base.Dict.{Dict}
use goravel_mine.Sso.Value.{Value, Host}
use goravel_mine.Sso.Grammar.{
  Expr, only, either, Term, single, both, Factor, negation, group, comparison, write_expr,
  write_term, write_factor, expr_plain, term_plain, factor_plain, expr_holds, term_holds,
  factor_holds,
}
use goravel_mine.Sso.Parser.{
  match_token, Parsed, and_then, negated, closed, compare_tokens, parse_comparison, parse_or,
  or_loop, parse_and, and_loop, parse_factor, finished, eval_tokens,
}
use goravel_mine.Sso.Parser.Fuel.{Leaves, parse_expression-Leaves}

-- The result and the rest, unless the fuel is used up.
unfoldable pub Returns : Bool → List Text → Parsed → Type 0
Returns b ts none = Unit
Returns b ts (some x) = x ≡ (b, ts)

Returns-refl : (b : Bool) (ts : List Text) → Returns b ts (some (b, ts))
unfolding Returns
Returns-refl b ts = refl

and_then-Returns :
    (b c : Bool) (ts us : List Text) (p : Parsed) (k : Bool → List Text → Parsed)
    → Returns b ts p
    → Returns c us (k b ts)
    → Returns c us (and_then p k)
unfolding Returns
and_then-Returns b c ts us none k r s = r
and_then-Returns b c ts us (some (d, vs)) k r s = rw (ap (λ x. x.0) r, ap (λ x. x.1) r) s

negated-Returns :
    (b : Bool) (ts : List Text) (p : Parsed) → Returns b ts p → Returns (not b) ts (negated p)
unfolding Returns
negated-Returns b ts none r = r
negated-Returns b ts (some (d, vs)) r = cc

closed-Returns :
    (b : Bool) (ts : List Text) (p : Parsed)
    → Returns b (codes ")" ∷ ts) p
    → Returns b ts (closed p)
unfolding Returns match_token list_beq
closed-Returns b ts none r = r
closed-Returns b ts (some (d, vs)) r = rw (ap (λ x. x.0) r, ap (λ x. x.1) r) refl

Returns-at : (b c : Bool) (ts : List Text) (p : Parsed) → b ≡ c → Returns b ts p → Returns c ts p
Returns-at b c ts p e r = subst (λ d. Returns d ts p) e r

-- `b || result`, and on to the others
or_swap : (b c : Bool) → b || c ≡ c || b
or_swap true true = refl
or_swap true false = refl
or_swap false true = refl
or_swap false false = refl

and_swap : (b c : Bool) → b && c ≡ c && b
and_swap true true = refl
and_swap true false = refl
and_swap false true = refl
and_swap false false = refl

not-eq_true : {b : Bool} → not b ≡ true → b ≡ false
not-eq_true {b} h = ground arith

-- A result that is there and is the one returned.
finished_at : (n : ℕ) (b : Bool) (p : Parsed) → Leaves n p → Returns b [] p → finished p ≡ b
unfolding Leaves Returns
finished_at n b none l r = absurd l
finished_at n b (some (d, ts)) l r = ap (λ x. finished (some x)) r

or_step : (b c d : Bool) → (b || c) || d ≡ c || (b || d)
or_step true true d = refl
or_step true false d = refl
or_step false c d = refl

and_step : (b c d : Bool) → (b && c) && d ≡ c && (b && d)
and_step true c d = refl
and_step false true d = refl
and_step false false d = refl

none-Returns : (b : Bool) (ts : List Text) → Returns b ts none
unfolding Returns
none-Returns b ts = tt

module _ (h : Host) (claims : Dict Text Value) where
  or_loop-stops :
      (fuel : ℕ) (b : Bool) (ts : List Text)
      → match_token (codes "||") ts ≡ none
      → Returns b ts (or_loop h claims fuel b ts)
  unfolding or_loop
  or_loop-stops zero b ts e = none-Returns b ts
  or_loop-stops (suc fuel) b ts e = rw (or_loop, e) (Returns-refl b ts)

  and_loop-stops :
      (fuel : ℕ) (b : Bool) (ts : List Text)
      → match_token (codes "&&") ts ≡ none
      → Returns b ts (and_loop h claims fuel b ts)
  unfolding and_loop
  and_loop-stops zero b ts e = none-Returns b ts
  and_loop-stops (suc fuel) b ts e = rw (and_loop, e) (Returns-refl b ts)

  comparison-Returns :
      (fuel : ℕ) (l op r : Text) (rest : List Text)
      → list_beq l (codes "!") ≡ false
      → list_beq l (codes "(") ≡ false
      → Returns
          (compare_tokens h claims l op r)
          rest
          (parse_factor h claims fuel (l ∷ op ∷ r ∷ rest))
  unfolding parse_factor match_token parse_comparison
  comparison-Returns zero l op r rest p q = none-Returns _ _
  comparison-Returns (suc fuel) l op r rest p q =
      rw (parse_factor, match_token, p, q) (Returns-refl _ _)

  mutual
    unfolding parse_or or_loop parse_and and_loop parse_factor match_token list_beq write_expr
        write_term write_factor expr_plain term_plain factor_plain expr_holds term_holds
        factor_holds

    parse_or-Returns :
        (e : Expr) (fuel : ℕ) (rest : List Text)
        → expr_plain e ≡ true
        → match_token (codes "||") rest ≡ none
        → match_token (codes "&&") rest ≡ none
        → Returns
            (expr_holds (compare_tokens h claims) e)
            rest
            (parse_or h claims fuel (write_expr e rest))
    parse_or-Returns e zero rest p no_or no_and = none-Returns _ _
    parse_or-Returns (only t) (suc fuel) rest p no_or no_and =
        and_then-Returns _ _ _ _ _ _ (parse_and-Returns t fuel rest p no_and)
          (or_loop-stops fuel _ rest no_or)
    parse_or-Returns (either t e) (suc fuel) rest p no_or no_and =
        and_then-Returns _ _ _ _ _ _ (parse_and-Returns t fuel _ (&&-eq_true _ _ p).0 refl)
          (or_loop-Returns e fuel _ rest (&&-eq_true _ _ p).1 no_or no_and)

    or_loop-Returns :
        (e : Expr) (fuel : ℕ) (b : Bool) (rest : List Text)
        → expr_plain e ≡ true
        → match_token (codes "||") rest ≡ none
        → match_token (codes "&&") rest ≡ none
        → Returns
            (b || expr_holds (compare_tokens h claims) e)
            rest
            (or_loop h claims fuel b (codes "||" ∷ write_expr e rest))
    or_loop-Returns e zero b rest p no_or no_and = none-Returns _ _
    or_loop-Returns (only t) (suc fuel) b rest p no_or no_and =
        and_then-Returns _ _ _ _ _ _ (parse_and-Returns t fuel rest p no_and)
          (Returns-at _ _ _ _ (or_swap _ b) (or_loop-stops fuel _ rest no_or))
    or_loop-Returns (either t e) (suc fuel) b rest p no_or no_and =
        and_then-Returns _ _ _ _ _ _ (parse_and-Returns t fuel _ (&&-eq_true _ _ p).0 refl) (
          Returns-at _ _ _ _ (or_step _ b _)
            (or_loop-Returns e fuel _ rest (&&-eq_true _ _ p).1 no_or no_and))

    parse_and-Returns :
        (t : Term) (fuel : ℕ) (rest : List Text)
        → term_plain t ≡ true
        → match_token (codes "&&") rest ≡ none
        → Returns
            (term_holds (compare_tokens h claims) t)
            rest
            (parse_and h claims fuel (write_term t rest))
    parse_and-Returns t zero rest p no_and = none-Returns _ _
    parse_and-Returns (single f) (suc fuel) rest p no_and =
        and_then-Returns _ _ _ _ _ _ (parse_factor-Returns f fuel rest p)
          (and_loop-stops fuel _ rest no_and)
    parse_and-Returns (both f t) (suc fuel) rest p no_and =
        and_then-Returns _ _ _ _ _ _ (parse_factor-Returns f fuel _ (&&-eq_true _ _ p).0)
          (and_loop-Returns t fuel _ rest (&&-eq_true _ _ p).1 no_and)

    and_loop-Returns :
        (t : Term) (fuel : ℕ) (b : Bool) (rest : List Text)
        → term_plain t ≡ true
        → match_token (codes "&&") rest ≡ none
        → Returns
            (b && term_holds (compare_tokens h claims) t)
            rest
            (and_loop h claims fuel b (codes "&&" ∷ write_term t rest))
    and_loop-Returns t zero b rest p no_and = none-Returns _ _
    and_loop-Returns (single f) (suc fuel) b rest p no_and =
        and_then-Returns _ _ _ _ _ _ (parse_factor-Returns f fuel rest p)
          (Returns-at _ _ _ _ (and_swap _ b) (and_loop-stops fuel _ rest no_and))
    and_loop-Returns (both f t) (suc fuel) b rest p no_and =
        and_then-Returns _ _ _ _ _ _ (parse_factor-Returns f fuel _ (&&-eq_true _ _ p).0) (
          Returns-at _ _ _ _ (and_step _ b _)
            (and_loop-Returns t fuel _ rest (&&-eq_true _ _ p).1 no_and))

    parse_factor-Returns :
        (f : Factor) (fuel : ℕ) (rest : List Text)
        → factor_plain f ≡ true
        → Returns
            (factor_holds (compare_tokens h claims) f)
            rest
            (parse_factor h claims fuel (write_factor f rest))
    parse_factor-Returns f zero rest p = none-Returns _ _
    parse_factor-Returns (negation f) (suc fuel) rest p =
        negated-Returns _ _ _ (parse_factor-Returns f fuel rest p)
    parse_factor-Returns (group e) (suc fuel) rest p =
        closed-Returns _ _ _ (parse_or-Returns e fuel (codes ")" ∷ rest) p refl refl)
    parse_factor-Returns (comparison l op r) (suc fuel) rest p =
        comparison-Returns (suc fuel) l op r rest (not-eq_true (&&-eq_true _ _ p).0)
          (not-eq_true (&&-eq_true _ _ p).1)

  -- The parser decides every written condition as the grammar does, to the last token.
  pub eval_tokens-write_expr :
      (e : Expr)
      → expr_plain e ≡ true
      → eval_tokens h claims (write_expr e []) ≡ expr_holds (compare_tokens h claims) e
  unfolding eval_tokens match_token
  eval_tokens-write_expr e p =
      finished_at _ _ _ (parse_expression-Leaves h claims _ (write_expr e []) (omega arith))
        (parse_or-Returns e _ [] p refl refl)

  short_factor :
      (fuel : ℕ) (l op : Text)
      → list_beq l (codes "!") ≡ false
      → list_beq l (codes "(") ≡ false
      → (parse_factor h claims (suc fuel) (l ∷ []) ≡ some (false, []))
        × (parse_factor h claims (suc fuel) (l ∷ op ∷ []) ≡ some (false, []))
  unfolding parse_factor match_token parse_comparison
  short_factor fuel l op p q =
      (rw (parse_factor, match_token, p, q) refl, rw (parse_factor, match_token, p, q) refl)

  negation_of_short :
      (fuel : ℕ) (ts : List Text)
      → parse_factor h claims (suc fuel) ts ≡ some (false, [])
      → parse_or h claims (suc (suc (suc (suc fuel)))) (codes "!" ∷ ts) ≡ some (true, [])
  unfolding parse_or or_loop parse_and and_loop parse_factor match_token list_beq
  negation_of_short fuel ts e =
      ap
        (λ p.
          and_then (and_then (negated p) (λ b rest. and_loop h claims (suc (suc fuel)) b rest))
            (λ b rest. or_loop h claims (suc (suc (suc fuel))) b rest))
        e

  empty_factor : (fuel : ℕ) → parse_factor h claims (suc fuel) [] ≡ some (false, [])
  unfolding parse_factor match_token parse_comparison
  empty_factor fuel = refl

  -- A condition of one negation that ends before its comparison does holds, whatever the claims: with
  -- nothing, one operand, or one operand and an operator behind the `!`.
  pub truncated_negation_holds :
      (l op : Text)
      → list_beq l (codes "!") ≡ false
      → list_beq l (codes "(") ≡ false
      → (eval_tokens h claims (codes "!" ∷ []) ≡ true)
        × ((eval_tokens h claims (codes "!" ∷ l ∷ []) ≡ true)
            × (eval_tokens h claims (codes "!" ∷ l ∷ op ∷ []) ≡ true))
  unfolding eval_tokens
  truncated_negation_holds l op p q = (
    ap finished (negation_of_short 2 [] (empty_factor 2)),
    (
      ap finished (negation_of_short 5 (l ∷ []) (short_factor 5 l op p q).0),
      ap finished (negation_of_short 8 (l ∷ op ∷ []) (short_factor 8 l op p q).1),
    ),
  )
