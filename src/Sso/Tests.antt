-- ===== src/Sso/Tests.antt =====
-- The theorems on conditions, app/services/access/sso, at concrete inputs.
use goravel_mine.Base.{◌≡◌, refl, true, false, none, [], ◌∷◌, arith, ltb, leb}
use goravel_mine.Base.Texts.{Text, codes}
use goravel_mine.Base.Eq.{nat_eq, list_eq, list_beq}
use goravel_mine.Base.Dict.{Dict}
use goravel_mine.Sso.Value.{Value, Host, text, list, cons, nil}
use goravel_mine.Sso.Grammar.{
  Expr, only, either, single, both, negation, group, comparison, write_expr, expr_holds, expr_plain,
  term_plain, factor_plain,
}
use goravel_mine.Sso.Parser.{compare_tokens, parse_or, eval_tokens}
use goravel_mine.Sso.Parser.Fuel.{Leaves, parse_expression-Leaves}
use goravel_mine.Sso.Parser.Correct.{eval_tokens-write_expr, truncated_negation_holds}

-- A host that prints strings only and knows no numbers, patterns or arrays.
abbrev printed : Value → Text
printed (text s) = s
printed _ = []

abbrev plain_host : Host
plain_host = record {
  sprint = printed;
  parse_float = λ s. none;
  float_lt = ltb;
  float_le = leb;
  match_string = λ p s. false;
  json_array = λ s. none;
}

abbrev admin_claims : Dict Text Value
admin_claims =
    (codes "groups", list (cons (text (codes "staff")) (cons (text (codes "admin")) nil)))
    ∷ (codes "mail", text (codes "a@x.io"))
    ∷ []

-- mail ends_with '@y.io' || !(groups contains 'guest') && groups == 'admin'
abbrev admin_condition : Expr
admin_condition =
    either (single (comparison (codes "mail") (codes "ends_with") (codes "'@y.io'"))) (
      only (
        both
          (negation (
            group
              (only (single (comparison (codes "groups") (codes "contains") (codes "'guest'"))))))
          (single (comparison (codes "groups") (codes "==") (codes "'admin'")))))

parse_expression-Leaves_example :
    Leaves 4 (
      parse_or plain_host admin_claims 15
        (codes "!" ∷ codes "mail" ∷ codes "==" ∷ codes "'x'" ∷ []))
parse_expression-Leaves_example =
    parse_expression-Leaves plain_host admin_claims 15
      (codes "!" ∷ codes "mail" ∷ codes "==" ∷ codes "'x'" ∷ []) (omega arith)

admin_condition-plain : expr_plain admin_condition ≡ true
unfolding expr_plain term_plain factor_plain list_beq
admin_condition-plain = refl

eval_tokens-write_expr_example :
    eval_tokens plain_host admin_claims (write_expr admin_condition [])
    ≡ expr_holds (compare_tokens plain_host admin_claims) admin_condition
eval_tokens-write_expr_example =
    eval_tokens-write_expr plain_host admin_claims admin_condition admin_condition-plain

is_no_operator :
    (list_beq (codes "mail") (codes "!") ≡ false) × (list_beq (codes "mail") (codes "(") ≡ false)
unfolding list_beq
is_no_operator = (refl, refl)

truncated_negation_holds_example :
    (eval_tokens plain_host admin_claims (codes "!" ∷ []) ≡ true)
    × ((eval_tokens plain_host admin_claims (codes "!" ∷ codes "mail" ∷ []) ≡ true)
        × (eval_tokens plain_host admin_claims (codes "!" ∷ codes "mail" ∷ codes "==" ∷ []) ≡ true))
truncated_negation_holds_example =
    truncated_negation_holds plain_host admin_claims (codes "mail") (codes "==") is_no_operator.0
      is_no_operator.1
