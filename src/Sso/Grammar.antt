-- ===== src/Sso/Grammar.antt =====
-- The grammar of conditions, independent of the parser of app/services/access/sso/condition.go: syntax
-- trees, the tokens they are written with, and their truth value.
use goravel_mine.Base.{Bool, not, ◌&&◌, ◌||◌, List, ◌∷◌}
use goravel_mine.Base.Texts.{Text, codes}
use goravel_mine.Base.Eq.{nat_eq, list_eq, list_beq}

-- Disjunctions of conjunctions of factors.
mutual
  pub data Expr : Type 0 where
    only : Term → Expr
    either : Term → Expr → Expr

  pub data Term : Type 0 where
    single : Factor → Term
    both : Factor → Term → Term

  pub data Factor : Type 0 where
    negation : Factor → Factor
    group : Expr → Factor
    comparison : Text → Text → Text → Factor

-- The tokens of a tree before given ones.
unfoldable mutual
  pub write_expr : Expr → List Text → List Text
  write_expr (only t) rest = write_term t rest
  write_expr (either t e) rest = write_term t (codes "||" ∷ write_expr e rest)

  pub write_term : Term → List Text → List Text
  write_term (single f) rest = write_factor f rest
  write_term (both f t) rest = write_factor f (codes "&&" ∷ write_term t rest)

  pub write_factor : Factor → List Text → List Text
  write_factor (negation f) rest = codes "!" ∷ write_factor f rest
  write_factor (group e) rest = codes "(" ∷ write_expr e (codes ")" ∷ rest)
  write_factor (comparison l op r) rest = l ∷ op ∷ r ∷ rest

-- No comparison starts with a token that starts another kind of factor.
unfoldable mutual
  pub expr_plain : Expr → Bool
  expr_plain (only t) = term_plain t
  expr_plain (either t e) = term_plain t && expr_plain e

  pub term_plain : Term → Bool
  term_plain (single f) = factor_plain f
  term_plain (both f t) = factor_plain f && term_plain t

  pub factor_plain : Factor → Bool
  factor_plain (negation f) = factor_plain f
  factor_plain (group e) = expr_plain e
  factor_plain (comparison l op r) = not (list_beq l (codes "!")) && not (list_beq l (codes "("))

module _ (truth : Text → Text → Text → Bool) where
  unfoldable mutual
    pub expr_holds : Expr → Bool
    expr_holds (only t) = term_holds t
    expr_holds (either t e) = term_holds t || expr_holds e

    pub term_holds : Term → Bool
    term_holds (single f) = factor_holds f
    term_holds (both f t) = factor_holds f && term_holds t

    pub factor_holds : Factor → Bool
    factor_holds (negation f) = not (factor_holds f)
    factor_holds (group e) = expr_holds e
    factor_holds (comparison l op r) = truth l op r
