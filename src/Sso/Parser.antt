-- ===== src/Sso/Parser.antt =====
-- The parser of app/services/access/sso/condition.go. It evaluates while it reads: each function takes
-- the tokens from p.pos on, and returns its result and the tokens it leaves.
pub mod Fuel
pub mod Correct
use goravel_mine.Base.{
  ℕ, zero, suc, ◌+◌, ◌*◌, Bool, false, not, ◌&&◌, ◌||◌, Option, none, some, List, [], ◌∷◌,
  if◌then◌else◌, length,
}
use goravel_mine.Base.Texts.{Text, codes}
use goravel_mine.Base.Eq.{nat_eq, list_eq, list_beq}
use goravel_mine.Base.Dict.{Dict, get}
use goravel_mine.Sso.Tokens.{tokenize}
use goravel_mine.Sso.Value.{Value, Host, parse_condition_value, eval_comparison}

-- p.match: the tokens behind the given one
unfoldable pub match_token : Text → List Text → Option (List Text)
match_token t [] = none
match_token t (s ∷ ts) = if list_beq s t then some ts else none

abbrev pub Parsed : Type 0
Parsed = Option (Bool × List Text)

-- `!p.parseFactor()`
abbrev pub negated : Parsed → Parsed
negated none = none
negated (some (b, ts)) = some (not b, ts)

-- `p.match(")") && result`
abbrev pub closed : Parsed → Parsed
closed none = none
closed (some (b, ts)) = elim (match_token (codes ")") ts) [
  | none ↦ some (false, ts)
  | some rest ↦ some (b, rest)
]

-- A function called on the result of another one and on the tokens that it leaves.
abbrev pub and_then : Parsed → (Bool → List Text → Parsed) → Parsed
and_then none k = none
and_then (some (b, ts)) k = k b ts

-- `parser.parseExpression() && parser.pos == len(parser.tokens)`
abbrev pub finished : Parsed → Bool
finished (some (b, [])) = b
finished _ = false

module _ (h : Host) (claims : Dict Text Value) where
  unfoldable pub claim_value : Text → Value
  claim_value token = elim (get claims token) [ some v ↦ v | none ↦ parse_condition_value h token ]

  unfoldable pub compare_tokens : Text → Text → Text → Bool
  compare_tokens left op right =
      eval_comparison h (claim_value left) op (parse_condition_value h right)

  unfoldable pub parse_comparison : List Text → Bool × List Text
  parse_comparison [] = (false, [])
  parse_comparison (l ∷ []) = (false, [])
  parse_comparison (l ∷ op ∷ []) = (false, [])
  parse_comparison (l ∷ op ∷ r ∷ ts) = (compare_tokens l op r, ts)

  unfoldable mutual
    -- parseExpression and parseOr
    pub parse_or : ℕ → List Text → Parsed
    parse_or zero ts = none
    parse_or (suc fuel) ts = and_then (parse_and fuel ts) (λ b rest. or_loop fuel b rest)

    -- The loop of parseOr behind its first result.
    pub or_loop : ℕ → Bool → List Text → Parsed
    or_loop zero result ts = none
    or_loop (suc fuel) result ts = elim (match_token (codes "||") ts) [
      | none ↦ some (result, ts)
      | some after ↦ and_then (parse_and fuel after) (λ b rest. or_loop fuel (b || result) rest)
    ]

    pub parse_and : ℕ → List Text → Parsed
    parse_and zero ts = none
    parse_and (suc fuel) ts = and_then (parse_factor fuel ts) (λ b rest. and_loop fuel b rest)

    pub and_loop : ℕ → Bool → List Text → Parsed
    and_loop zero result ts = none
    and_loop (suc fuel) result ts = elim (match_token (codes "&&") ts) [
      | none ↦ some (result, ts)
      | some after ↦ and_then (parse_factor fuel after) (λ b rest. and_loop fuel (b && result) rest)
    ]

    pub parse_factor : ℕ → List Text → Parsed
    parse_factor zero ts = none
    parse_factor (suc fuel) ts = elim (match_token (codes "!") ts) [
      | some after ↦ negated (parse_factor fuel after)
      | none ↦ elim (match_token (codes "(") ts) [
        | some after ↦ closed (parse_or fuel after)
        | none ↦ some (parse_comparison ts)
      ]
    ]

  -- EvalCondition behind the tokenizer
  unfoldable pub eval_tokens : List Text → Bool
  eval_tokens ts = finished (parse_or (3 * length ts + 3) ts)

  unfoldable pub eval_condition : Text → Bool
  eval_condition condition = eval_tokens (tokenize condition)
