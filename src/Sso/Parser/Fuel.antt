-- ===== src/Sso/Parser/Fuel.antt =====
-- The fuel of the parser of app/services/access/sso/condition.go: with three units for each token left
-- every function comes to a result, and leaves no more tokens than it got.
use goravel_mine.Base.{
  ℕ, zero, suc, ◌+◌, ◌*◌, ◌≤◌, ◌≡◌, inl, inr, Bool, ◌&&◌, ◌||◌, none, some, List, [], ◌∷◌, arith,
  Option-cases, length,
}
use goravel_mine.Base.Texts.{Text, codes}
use goravel_mine.Base.Eq.{nat_eq, list_eq}
use goravel_mine.Base.Dict.{Dict}
use goravel_mine.Sso.Value.{Value, Host}
use goravel_mine.Sso.Parser.{
  match_token, Parsed, and_then, negated, closed, parse_comparison, parse_or, or_loop, parse_and,
  and_loop, parse_factor,
}

-- A result, and at most n tokens left.
unfoldable pub Leaves : ℕ → Parsed → Type 0
Leaves n none = ⊥
Leaves n (some (b, ts)) = length ts ≤ n

length-match_token :
    (t : Text) (ts : List Text) {after : List Text}
    → match_token t ts ≡ some after
    → length ts ≡ suc (length after)
unfolding match_token
length-match_token t [] h = cc
length-match_token t (s ∷ ts) h = ground (arith, h)

and_then-Leaves :
    (n m : ℕ) (p : Parsed) (k : Bool → List Text → Parsed)
    → Leaves n p
    → ((b : Bool) (ts : List Text) → length ts ≤ n → Leaves m (k b ts))
    → Leaves m (and_then p k)
unfolding Leaves
and_then-Leaves n m none k l g = absurd l
and_then-Leaves n m (some (b, ts)) k l g = g b ts l

negated-Leaves : (n : ℕ) (p : Parsed) → Leaves n p → Leaves n (negated p)
unfolding Leaves
negated-Leaves n none l = l
negated-Leaves n (some (b, ts)) l = l

closed-Leaves : (n : ℕ) (p : Parsed) → Leaves n p → Leaves n (closed p)
unfolding Leaves
closed-Leaves n none l = l
closed-Leaves n (some (b, ts)) l = elim (Option-cases (match_token (codes ")") ts)) [
  | inl e ↦ rw (Leaves, e) l
  | inr (after, e) ↦ rw (Leaves, e) (omega (arith, l, length-match_token _ ts e))
]

Leaves-le : (m n : ℕ) (p : Parsed) → m ≤ n → Leaves m p → Leaves n p
unfolding Leaves
Leaves-le m n none h l = l
Leaves-le m n (some (b, ts)) h l = omega (arith, h, l)

some-Leaves : (n : ℕ) (b : Bool) (ts : List Text) → length ts ≤ n → Leaves n (some (b, ts))
unfolding Leaves
some-Leaves n b ts l = l

module _ (h : Host) (claims : Dict Text Value) where
  parse_comparison-Leaves :
      {n : ℕ} (ts : List Text) → length ts ≤ n → Leaves n (some (parse_comparison h claims ts))
  unfolding Leaves parse_comparison
  parse_comparison-Leaves [] l = l
  parse_comparison-Leaves (x ∷ []) l = omega arith
  parse_comparison-Leaves (x ∷ y ∷ []) l = omega arith
  parse_comparison-Leaves (x ∷ y ∷ z ∷ ts) l = omega arith

  mutual
    unfolding parse_or or_loop parse_and and_loop parse_factor

    pub parse_or-Leaves :
        (fuel n : ℕ) (ts : List Text)
        → length ts ≤ n
        → 3 * n + 3 ≤ fuel
        → Leaves n (parse_or h claims fuel ts)
    parse_or-Leaves zero n ts l f = absurd (omega arith)
    parse_or-Leaves (suc fuel) n ts l f =
        and_then-Leaves _ _ _ _ (parse_and-Leaves fuel n ts l (omega arith))
          (λ b rest r. or_loop-Leaves fuel n b rest r (omega arith))

    pub or_loop-Leaves :
        (fuel n : ℕ) (b : Bool) (ts : List Text)
        → length ts ≤ n
        → 3 * n + 1 ≤ fuel
        → Leaves n (or_loop h claims fuel b ts)
    or_loop-Leaves zero n b ts l f = absurd (omega arith)
    or_loop-Leaves (suc fuel) n b ts l f = elim (Option-cases (match_token (codes "||") ts)) [
      | inl e ↦ rw (or_loop, e) (some-Leaves n b ts l)
      | inr (after, e) ↦
          let m = length-match_token _ ts e in
          rw (or_loop, e)
            (Leaves-le (length after) n _ (omega (arith, m, l)) (
              and_then-Leaves _ _ _ _
                (parse_and-Leaves fuel (length after) after (omega arith) (omega (arith, m, l, f)))
                (λ c rest r.
                  or_loop-Leaves fuel (length after) (c || b) rest r (omega (arith, m, l, f)))))
    ]

    pub parse_and-Leaves :
        (fuel n : ℕ) (ts : List Text)
        → length ts ≤ n
        → 3 * n + 2 ≤ fuel
        → Leaves n (parse_and h claims fuel ts)
    parse_and-Leaves zero n ts l f = absurd (omega arith)
    parse_and-Leaves (suc fuel) n ts l f =
        and_then-Leaves _ _ _ _ (parse_factor-Leaves fuel n ts l (omega arith))
          (λ b rest r. and_loop-Leaves fuel n b rest r (omega arith))

    pub and_loop-Leaves :
        (fuel n : ℕ) (b : Bool) (ts : List Text)
        → length ts ≤ n
        → 3 * n + 1 ≤ fuel
        → Leaves n (and_loop h claims fuel b ts)
    and_loop-Leaves zero n b ts l f = absurd (omega arith)
    and_loop-Leaves (suc fuel) n b ts l f = elim (Option-cases (match_token (codes "&&") ts)) [
      | inl e ↦ rw (and_loop, e) (some-Leaves n b ts l)
      | inr (after, e) ↦
          let m = length-match_token _ ts e in
          rw (and_loop, e)
            (Leaves-le (length after) n _ (omega (arith, m, l)) (
              and_then-Leaves _ _ _ _
                (parse_factor-Leaves fuel (length after) after (omega arith)
                  (omega (arith, m, l, f)))
                (λ c rest r.
                  and_loop-Leaves fuel (length after) (c && b) rest r (omega (arith, m, l, f)))))
    ]

    pub parse_factor-Leaves :
        (fuel n : ℕ) (ts : List Text)
        → length ts ≤ n
        → 3 * n + 1 ≤ fuel
        → Leaves n (parse_factor h claims fuel ts)
    parse_factor-Leaves zero n ts l f = absurd (omega arith)
    parse_factor-Leaves (suc fuel) n ts l f = elim (Option-cases (match_token (codes "!") ts)) [
      | inr (after, e) ↦
          let m = length-match_token _ ts e in
          rw (parse_factor, e)
            (negated-Leaves _ _ (
              Leaves-le (length after) n _ (omega (arith, m, l)) (
                parse_factor-Leaves fuel (length after) after (omega arith)
                  (omega (arith, m, l, f)))))
      | inl e ↦ elim (Option-cases (match_token (codes "(") ts)) [
        | inl g ↦ rw (parse_factor, e, g) (parse_comparison-Leaves ts l)
        | inr (after, g) ↦
            let m = length-match_token _ ts g in
            rw (parse_factor, e, g)
              (closed-Leaves _ _ (
                Leaves-le (length after) n _ (omega (arith, m, l)) (
                  parse_or-Leaves fuel (length after) after (omega arith)
                    (omega (arith, m, l, f)))))
      ]
    ]

  -- With three units of fuel for each token and three more, the parser comes to a result on every list of
  -- tokens, and leaves no more tokens than it was given.
  pub parse_expression-Leaves :
      (fuel : ℕ) (ts : List Text)
      → 3 * length ts + 3 ≤ fuel
      → Leaves (length ts) (parse_or h claims fuel ts)
  parse_expression-Leaves fuel ts f = parse_or-Leaves fuel (length ts) ts (omega arith) f
